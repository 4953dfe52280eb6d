-- ===== src/Client/Calling.antt =====
-- The orders in which a client's operation takes its arguments (src/client.js).
use strong_soap.Common.{Bool, true, ◌≡◌, refl}
use strong_soap.XmlReader.Values.{Json, object, Fields}
use strong_soap.Client.{Given, missing, callable, value, Arguments, sort_arguments}

-- With objects for the arguments, the options and the extra headers, the callback may stand in any place
-- behind the arguments, and without it the call is the same with a missing one: the operation is
-- invoked with the same four things.
pub sort_arguments-orders {ℓ} :
    {F : Type ℓ} (is_true : Json → Bool) (a o h : Fields) (f : F)
    → is_true (object a) ≡ true
    → (let sorted : Arguments F = record {
      args = value (object a);
      callback = callable f;
      options = value (object o);
      extra_headers = value (object h);
    } in
        let call = λ (x y z : Given F).
          sort_arguments is_true
            (record { args = value (object a); callback = x; options = y; extra_headers = z }) in
        (call (callable f) (value (object o)) (value (object h)) ≡ sorted)
        × ((call (value (object o)) (callable f) (value (object h)) ≡ sorted)
            × ((call (value (object o)) (value (object h)) (callable f) ≡ sorted)
                × (call (value (object o)) (value (object h)) missing
                    ≡ record sorted { callback = missing }))))
unfolding sort_arguments
sort_arguments-orders is_true a o h f truth = rw truth (refl, (refl, (refl, refl)))
