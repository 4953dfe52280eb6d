-- ===== src/WsdlReader/Registry.antt =====
-- src/parser/typeRegistry.js: the class of an element by its namespace and its name, and the
-- namespaces of src/parser/helper.js.
use strong_soap.Common.{
  String, Bool, true, false, not, ◌&&◌, ◌||◌, ◌==◌, Option, List, [], ◌∷◌, if◌then◌else◌, contains,
  is_text,
}

abbrev pub wsdl_uri : String
wsdl_uri = "http://schemas.xmlsoap.org/wsdl/"

abbrev pub soap_uri : String
soap_uri = "http://schemas.xmlsoap.org/wsdl/soap/"

abbrev pub soap12_uri : String
soap12_uri = "http://schemas.xmlsoap.org/wsdl/soap12/"

abbrev pub xsd_uri : String
xsd_uri = "http://www.w3.org/2001/XMLSchema"

abbrev pub xsi_uri : String
xsi_uri = "http://www.w3.org/2001/XMLSchema-instance"

abbrev pub xml_uri : String
xml_uri = "http://www.w3.org/XML/1998/namespace"

-- The names of 2000, read as those of 2001.
abbrev pub modern_uri : String → String
modern_uri u =
    if u == "http://www.w3.org/2000/10/XMLSchema"
    then xsd_uri
    else if u == "http://www.w3.org/2000/10/XMLSchema-instance"
    then xsi_uri
    else u

-- A class of its own, the general class of a vocabulary, or the class `Element` of all others.
pub data ElementClass : Type 0 where
  registered : (ns_uri name : String) → ElementClass
  wsdl_element xsd_element soap_element soap12_element : ElementClass
  plain : ElementClass

abbrev pub is_class : (ns_uri name : String) → ElementClass → Bool
is_class u n (registered uri name) = (uri == u) && (name == n)
is_class u n c = false

abbrev xsd_names : List String
xsd_names =
    "all" ∷ "annotation" ∷ "any" ∷ "anyAttribute" ∷ "attribute" ∷ "attributeGroup" ∷ "choice"
    ∷ "complexContent" ∷ "complexType" ∷ "documentation" ∷ "element" ∷ "unique" ∷ "key" ∷ "keyref"
    ∷ "extension" ∷ "group" ∷ "import" ∷ "include" ∷ "restriction" ∷ "sequence" ∷ "simpleContent"
    ∷ "simpleType" ∷ "list" ∷ "union" ∷ "schema" ∷ []

abbrev wsdl_names : List String
wsdl_names =
    "binding" ∷ "definitions" ∷ "fault" ∷ "import" ∷ "input" ∷ "message" ∷ "operation" ∷ "output"
    ∷ "part" ∷ "port" ∷ "portType" ∷ "service" ∷ "types" ∷ "documentation" ∷ []

abbrev soap_names : List String
soap_names = "body" ∷ "header" ∷ "headerfault" ∷ "fault" ∷ []

abbrev class_in : String → List String → String → ElementClass → ElementClass
class_in uri names name general = if contains name names then registered uri name else general

-- `getElementType`.
unfoldable pub get_element_type : Option String → String → ElementClass
get_element_type uri name =
    if is_text uri wsdl_uri
    then class_in wsdl_uri wsdl_names name wsdl_element
    else if is_text uri xsd_uri
    then class_in xsd_uri xsd_names name xsd_element
    else if is_text uri soap_uri
    then class_in soap_uri soap_names name soap_element
    else if is_text uri soap12_uri
    then class_in soap12_uri soap_names name soap12_element
    else plain

-- Whether the class has `allowedChildren`; all but `Element` have their own or inherit them.
abbrev pub has_children : ElementClass → Bool
has_children plain = false
has_children c = true

-- Whether `addChild` of the parent's class takes the child: that of types asserts a schema of XSD or a
-- documentation of WSDL, and no other class throws.
abbrev pub accepts_child : (parent child : ElementClass) → Bool
accepts_child parent child =
    not (is_class wsdl_uri "types" parent)
    || (is_class xsd_uri "schema" child || is_class wsdl_uri "documentation" child)
