-- ===== src/Security/Accepting.antt =====
-- What a receiver makes of the Header that `addSoapHeaders` of src/security/WSSecurity.js writes.
use Prim.Native.String
use strong_soap.Common.{
  String, Bool, true, false, ◌||◌, not, ◌==◌, ◌≡◌, refl, ap, ◌∙◌, ◌≢◌, ◌⊎◌, inl, inr, Option, none,
  some, ◌++◌, if◌then◌else◌, eq_iff, eq_refl, arith, Bool-cases,
}
use strong_soap.XmlReader.Values.{Json, text}
use strong_soap.XmlWriter.Values.{
  Calls, done, attribute, add_text, add_raw, add_cdata, child, then_calls,
}
use strong_soap.Security.{
  Crypto, password_digest, Moment, to_xml_date, WsSecurity, add_soap_headers, password_calls,
  only_if,
}
use strong_soap.Security.Receiver.{
  inner_of, find_child, find_attribute, token_of, accepts_password, accepts,
}

find_child-then_calls :
    (n : String) (a c : Calls)
    → find_child n a ≡ none
    → find_child n (then_calls a c) ≡ find_child n c
unfolding find_child
find_child-then_calls n done c h = refl
find_child-then_calls n (attribute k v a) c h = find_child-then_calls n a c h
find_child-then_calls n (add_text v a) c h = find_child-then_calls n a c h
find_child-then_calls n (add_raw v a) c h = find_child-then_calls n a c h
find_child-then_calls n (add_cdata v a) c h = find_child-then_calls n a c h
find_child-then_calls n (child m v inner a) c h = ground (arith, find_child-then_calls n a c)

-- A part that is written on a condition, and does not have the child, does not hide it.
find_child-only_if :
    (n : String) (b : Bool) (a c : Calls)
    → find_child n a ≡ none
    → find_child n (then_calls (only_if b a) c) ≡ find_child n c
find_child-only_if n false a c h = refl
find_child-only_if n true a c h = find_child-then_calls n a c h

or_true : (b : Bool) → (b || true) ≡ true
or_true true = refl
or_true false = refl

-- `t || ''` is the text itself.
or_empty : (t : String) → (if t == "" then "" else t) ≡ t
or_empty t = ground (arith, eq_iff t "")

password_digest-some :
    (c : Crypto) (n created password : String)
    → password_digest c (some n) created password
      ≡ c.sha1 (c.decoded n ++ (c.utf8 created ++ c.utf8 password))
unfolding password_digest
password_digest-some c n created password =
    ap (λ m. c.sha1 (c.decoded m ++ (c.utf8 created ++ c.utf8 password))) (or_empty n)

module _ (c : Crypto) (is_true : Json → Bool) (nonce : String → String) (now later : Moment)
    (w : WsSecurity) where
  abbrev written : Calls
  written = add_soap_headers c is_true nonce now later w

  abbrev made : Option String
  made =
      if w.has_nonce || not (w.password_type == "PasswordText")
      then some (nonce (to_xml_date now))
      else none

  abbrev in_token : Calls
  in_token = attribute "wsu:Id" (text (String.◌++◌ "SecurityToken-" (to_xml_date now))) (
      child "wsse:Username" (some (text w.username)) done (
        then_calls
          (only_if w.has_token_created
            (child "wsu:Created" (some (text (to_xml_date now))) done done))
          (password_calls c w (to_xml_date now) made)))

  token_of-written : token_of written ≡ in_token
  unfolding add_soap_headers find_child
  token_of-written = ap inner_of (
      find_child-only_if "wsse:UsernameToken" (is_true w.actor) _ _ refl
      ∙ find_child-only_if "wsse:UsernameToken" w.must_understand _ _ refl
      ∙ find_child-only_if "wsse:UsernameToken" w.has_time_stamp _ _ refl)

  -- What the receiver finds the digest's Created to be.
  abbrev created_found : String
  created_found = if w.has_token_created then to_xml_date now else ""

  abbrev digest_over : String → String → String
  digest_over created password =
      c.sha1 (c.decoded (nonce (to_xml_date now)) ++ (c.utf8 created ++ c.utf8 password))

  accepts_digest :
      (password : String)
      → (w.password_type == "PasswordText") ≡ false
      → accepts c w.username password written
        ≡ (digest_over (to_xml_date now) w.password == digest_over created_found password)
  unfolding accepts accepts_password find_child find_attribute
  accepts_digest password t = rw (token_of-written) (elim (Bool-cases w.has_token_created) [
    | inl there ↦ rw (t, there) (simp (eq_refl, or_true, or_empty, password_digest-some))
    | inr left ↦ rw (t, left) (simp (eq_refl, or_true, or_empty, password_digest-some))
  ])

  accepts_plain :
      (password : String)
      → (w.password_type == "PasswordText") ≡ true
      → accepts c w.username password written ≡ (w.password == password)
  unfolding accepts accepts_password find_child find_attribute
  accepts_plain password t = rw (token_of-written) (elim (Bool-cases w.has_token_created) [
    | inl there ↦ rw (t, there) (rw (eq_refl w.username))
    | inr left ↦ rw (t, left) (rw (eq_refl w.username))
  ])

  -- Where the password is sent as text, or the token has its Created, the receiver accepts the user's
  -- name and password, whatever else is set.
  pub add_soap_headers-accepts :
      ((w.password_type ≡ "PasswordText") ⊎ (w.has_token_created ≡ true))
      → accepts c w.username w.password (add_soap_headers c is_true nonce now later w) ≡ true
  add_soap_headers-accepts h = elim (Bool-cases (w.password_type == "PasswordText")) [
    | inl plain ↦ accepts_plain w.password plain ∙ eq_refl w.password
    | inr digest ↦ elim h [
      | inl plain ↦ absurd (cc (digest, (eq_iff w.password_type "PasswordText").1 plain))
      | inr there ↦ accepts_digest w.password digest ∙ rw there (eq_refl _)
    ]
  ]

  -- Where the password is sent as a digest without a Created, the receiver refuses the user's own name
  -- and password, as soon as the digests with and without the time differ: the digest covers a time that
  -- is not sent.
  pub add_soap_headers-refused :
      w.password_type ≢ "PasswordText"
      → w.has_token_created ≡ false
      → digest_over (to_xml_date now) w.password ≢ digest_over "" w.password
      → accepts c w.username w.password (add_soap_headers c is_true nonce now later w) ≡ false
  add_soap_headers-refused t left differ = elim (Bool-cases (w.password_type == "PasswordText")) [
    | inl plain ↦ absurd (t ((eq_iff w.password_type "PasswordText").0 plain))
    | inr digest ↦
        accepts_digest w.password digest
        ∙ rw left (
            ground (
              arith,
              eq_iff (digest_over (to_xml_date now) w.password) (digest_over "" w.password),
            ))
  ]
