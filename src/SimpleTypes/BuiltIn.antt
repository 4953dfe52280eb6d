-- ===== src/SimpleTypes/BuiltIn.antt =====
-- The table of built-in types in src/parser/helper.js, with what stands for each in JavaScript.
use strong_soap.Common.{[], ◌∷◌, ◌++◌}
use strong_soap.Common.Dict.{Dict}
use strong_soap.Descriptor.{JsType, js_string, js_boolean, js_number, js_date}

-- `primitiveDataTypes`
abbrev primitive_types : Dict JsType
primitive_types =
    ("string", js_string)
    ∷ ("boolean", js_boolean)
    ∷ ("decimal", js_number)
    ∷ ("float", js_number)
    ∷ ("double", js_number)
    ∷ ("duration", js_number)
    ∷ ("dateTime", js_date)
    ∷ ("time", js_date)
    ∷ ("date", js_date)
    ∷ ("gYearMonth", js_number)
    ∷ ("gYear", js_number)
    ∷ ("gMonthDay", js_number)
    ∷ ("gDay", js_number)
    ∷ ("gMonth", js_number)
    ∷ ("hexBinary", js_string)
    ∷ ("base64Binary", js_string)
    ∷ ("anyURI", js_string)
    ∷ ("QName", js_string)
    ∷ ("NOTATION", js_string)
    ∷ []

-- `derivedDataTypes`
abbrev derived_types : Dict JsType
derived_types =
    ("normalizedString", js_string)
    ∷ ("token", js_string)
    ∷ ("language", js_string)
    ∷ ("NMTOKEN", js_string)
    ∷ ("NMTOKENS", js_string)
    ∷ ("Name", js_string)
    ∷ ("NCName", js_string)
    ∷ ("ID", js_string)
    ∷ ("IDREF", js_string)
    ∷ ("IDREFS", js_string)
    ∷ ("ENTITY", js_string)
    ∷ ("ENTITIES", js_string)
    ∷ ("integer", js_number)
    ∷ ("nonPositiveInteger", js_number)
    ∷ ("negativeInteger", js_number)
    ∷ ("long", js_number)
    ∷ ("int", js_number)
    ∷ ("short", js_number)
    ∷ ("byte", js_number)
    ∷ ("nonNegativeInteger", js_number)
    ∷ ("unsignedLong", js_number)
    ∷ ("unsignedInt", js_number)
    ∷ ("unsignedShort", js_number)
    ∷ ("unsignedByte", js_number)
    ∷ ("positiveInteger", js_number)
    ∷ []

-- No name stands in both tables.
abbrev pub schema_types : Dict JsType
schema_types = primitive_types ++ derived_types
