-- ===== src/QName/Tests.antt =====
-- Runs of src/parser/qname.js, and its theorems at inputs.
use strong_soap.Common.{◌≡◌, ◌↔◌, refl, some, none}
use strong_soap.Common.Result.{ok, throw, error}
use strong_soap.QName.{
  QName, exec, of_text, of_parts, to_string, parse, null, uri, has_brace, has_colon,
}
use strong_soap.QName.Matching.{Matches, exec_iff}
use strong_soap.QName.Printing.{IsPrintable, of_text-to_string}

program : Unit {0}
unfolding exec of_text of_parts to_string parse has_brace has_colon
program = tt

abbrev full : QName
full = record { ns_uri = some "http://example.com"; prefix = some "x"; name = "y" }

-- The cases of test/qname.
constructor_tests :
    (of_text "x" ≡ ok (record { ns_uri = some ""; prefix = some ""; name = "x" }))
    × (of_text "{http://example.com}x:y" ≡ ok full)
    × (of_text "{http://example.comy" ≡ throw (error "Invalid qname: %s"))
    × (of_text ":y" ≡ throw (error "Invalid qname: %s"))
    × (parse (some "x:y") (uri "http://example.com") ≡ ok full)
    × (parse (some "x:y") null ≡ ok (record full { ns_uri = some "" }))
unfolding program
constructor_tests = (refl, refl, refl, refl, refl, refl)

two_colons : of_text "a:b:c" ≡ ok (record { ns_uri = some ""; prefix = some "a:b"; name = "c" })
unfolding program
two_colons = refl

exec_iff_example :
    (exec "{u}y" ≡ some (record { uri = some "u"; prefix = none; name = "y" }))
    ↔ Matches "{u}y" (record { uri = some "u"; prefix = none; name = "y" })
exec_iff_example = exec_iff "{u}y" (record { uri = some "u"; prefix = none; name = "y" })

full-IsPrintable : IsPrintable full
unfolding program
full-IsPrintable = record {
  uri = "http://example.com";
  prefix = "x";
  has_uri = refl;
  has_prefix = refl;
  uri_plain = refl;
  prefix_plain = refl;
  name_plain = (refl, refl, refl);
}

of_text-to_string_example : of_text (to_string full) ≡ ok full
of_text-to_string_example = of_text-to_string full full-IsPrintable
