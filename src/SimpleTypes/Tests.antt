-- ===== src/SimpleTypes/Tests.antt =====
-- src/parser/xsd: simple types at concrete inputs.
use strong_soap.Common.{ℕ, ◌≡◌, refl, none, some, [], ◌∷◌, arith}
use strong_soap.Common.Result.{ok}
use strong_soap.Descriptor.{js_string, js_number}
use strong_soap.WsdlReader.Registry.{xsd_uri}
use strong_soap.SimpleTypes.Known.{IsClosed}
use strong_soap.SimpleTypes.Ending.{Processed}
use strong_soap.SimpleTypes.Returning.{post_process-Processed}
use strong_soap.SimpleTypes.{Entry, SimpleNode, Store, js, list_of, set_type, post_process}

abbrev blank : SimpleNode
blank = record {
  name = none;
  target_namespace = some "urn:a";
  restriction = none;
  list = none;
  union = none;
}

abbrev fresh : SimpleNode → Entry
fresh n = record { node = n; type = none }

abbrev integer : SimpleNode
integer = record blank { name = some "integer"; target_namespace = some xsd_uri }

abbrev list_node : ℕ → SimpleNode
list_node i = record blank { list = some (record { item_type = some i; inner = [] }) }

-- A list of numbers, and a list whose items are itself.
abbrev lists : Store
lists = fresh integer ∷ fresh (list_node 0) ∷ fresh (list_node 2) ∷ []

list_test :
    post_process 4 1 lists
    ≡ ok (set_type 1 (list_of (js js_number)) (set_type 0 (js js_number) lists))
unfolding post_process
list_test = refl

circular_test : post_process 4 2 lists ≡ ok (set_type 2 (list_of (js js_string)) lists)
unfolding post_process
circular_test = refl

lists-IsClosed : IsClosed 3 lists
lists-IsClosed = (
  record { built_in = λ own c. cc c; base = tt; items = tt; members = tt },
  (
    record {
      built_in = λ own. absurd (cc (own));
      base = tt;
      items = (omega arith, tt);
      members = tt;
    },
    (
      record {
        built_in = λ own. absurd (cc (own));
        base = tt;
        items = (omega arith, tt);
        members = tt;
      },
      tt,
    ),
  ),
)

post_process-Processed_example : Processed lists 2 (post_process 4 2 lists)
post_process-Processed_example =
    post_process-Processed 4 2 lists lists-IsClosed (omega arith) (omega arith)
