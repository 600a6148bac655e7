-- ===== src/Host/Canonical/Mirror.antt =====
-- `accept` of canonical.ts beside `validate` of crates/aiai-contracts/src/canonical.rs: one JSON
-- value, its texts in the encoding of each language.
use artificial_intelligence.Base.{
  Bool-cases, Bytes, List, Result, Result-cases, [], arith, err, inl, inr, map_err, ok, refl, sym,
  ℕ, ◌>>=◌, ◌>>◌, ◌∙◌, ◌∷◌, ◌≡◌,
}
use artificial_intelligence.Contracts.Canonical
use artificial_intelligence.Contracts.Canonical.{
  Value, Values, Members, bool, number, CanonicalJsonError, validate, validate_values,
  validate_members, is_nfc,
}
use artificial_intelligence.Host.Text.{
  Units, CodePoints, utf8, utf16, is_ascii-utf8, is_ascii-utf16,
}
use artificial_intelligence.Host.Canonical.{
  CanonicalJsonValue, Elements, Entries, null, boolean, string, array, object, nil, element, end,
  entry, CanonicalJsonRejection, malformed_json, number_token, non_nfc_string, non_ascii_object_key,
  is_ascii, accept, accept_elements, accept_entries,
}

-- A JSON value with every text and member name, given as its code points, in an encoding.
unfoldable mutual
  pub encoded : {N : Type 0} → (CodePoints → List ℕ) → Value N → Value N
  encoded enc Canonical.null = Canonical.null
  encoded enc (bool b) = bool b
  encoded enc (number n) = number n
  encoded enc (Canonical.string text) = Canonical.string (enc text)
  encoded enc (Canonical.array values) = Canonical.array (encoded_values enc values)
  encoded enc (Canonical.object members) = Canonical.object (encoded_members enc members)

  pub encoded_values : {N : Type 0} → (CodePoints → List ℕ) → Values N → Values N
  encoded_values enc Canonical.nil = Canonical.nil
  encoded_values enc (Canonical.element v values) =
      Canonical.element (encoded enc v) (encoded_values enc values)

  pub encoded_members : {N : Type 0} → (CodePoints → List ℕ) → Members N → Members N
  encoded_members enc Canonical.end = Canonical.end
  encoded_members enc (Canonical.member name v members) =
      Canonical.member (enc name) (encoded enc v) (encoded_members enc members)

-- The host's reason for an error of the crate.
abbrev pub reason : {E : Type 0} → CanonicalJsonError E → CanonicalJsonRejection
reason (CanonicalJsonError.serialization e) = malformed_json
reason CanonicalJsonError.number_token = number_token
reason CanonicalJsonError.non_nfc_string = non_nfc_string
reason CanonicalJsonError.non_ascii_object_key = non_ascii_object_key

-- A result without its value.
abbrev pub verdict {ℓ μ} : {A : Type ℓ} {R : Type μ} → Result A R → Result (Unit {0}) R
verdict (ok a) = ok tt
verdict (err e) = err e

verdict-bind :
    {A B C R : Type 0} (m : Result A R) (n : Result B R) (f : A → B → C)
    → verdict (m >>= λ a. n >>= λ b. ok (f a b)) ≡ (verdict m >> verdict n)
verdict-bind (ok a) (ok b) f = refl
verdict-bind (ok a) (err e) f = refl
verdict-bind (err e) n f = refl

verdict-map :
    {A C R : Type 0} (m : Result A R) (f : A → C) → verdict (m >>= λ a. ok (f a)) ≡ verdict m
verdict-map (ok a) f = refl
verdict-map (err e) f = refl

map_err-then :
    {E F : Type 0} (f : E → F) (m n : Result (Unit {0}) E)
    → map_err f (m >> n) ≡ (map_err f m >> map_err f n)
map_err-then f (ok a) n = refl
map_err-then f (err e) n = refl

host_ascii : (s : Units) → is_ascii s ≡ Canonical.is_ascii s
host_ascii [] = refl
host_ascii (c ∷ s) = ground (arith, host_ascii s)

same_ascii : (t : CodePoints) → is_ascii (utf16 t) ≡ Canonical.is_ascii (utf8 t)
same_ascii t = host_ascii (utf16 t) ∙ is_ascii-utf16 t ∙ sym (is_ascii-utf8 t)

-- The two normalizations, of bytes and of code units, agree on which texts are normal: the libraries
-- implement one Unicode form.
abbrev pub SameNormal : (Bytes → Bytes) → (Units → Units) → Type 0
SameNormal nfc8 nfc16 = (t : CodePoints) → is_nfc nfc8 (utf8 t) ≡ is_nfc nfc16 (utf16 t)

module _ (N E : Type 0) (nfc8 : Bytes → Bytes) (nfc16 : Units → Units)
    (same : SameNormal nfc8 nfc16) where
  mutual
    unfolding accept validate encoded

    accept_value :
        (v : Value N)
        → verdict (accept nfc16 (encoded utf16 v))
          ≡ map_err reason (validate {E = E} nfc8 (encoded utf8 v))
    accept_value Canonical.null = refl
    accept_value (bool b) = refl
    accept_value (number n) = refl
    accept_value (Canonical.string t) = elim (Bool-cases (is_nfc nfc16 (utf16 t))) [
      | inl e ↦ rw (same t) (rw e refl)
      | inr e ↦ rw (same t) (rw e refl)
    ]
    accept_value (Canonical.array values) = verdict-map _ array ∙ accept_values values
    accept_value (Canonical.object members) = verdict-map _ object ∙ accept_members members

    accept_values :
        (vs : Values N)
        → verdict (accept_elements nfc16 (encoded_values utf16 vs))
          ≡ map_err reason (validate_values {E = E} nfc8 (encoded_values utf8 vs))
    accept_values Canonical.nil = refl
    accept_values (Canonical.element v vs) =
        verdict-bind (accept nfc16 (encoded utf16 v)) _ element
        ∙ (λ i. accept_value v i >> accept_values vs i)
        ∙ sym (map_err-then reason (validate nfc8 (encoded utf8 v)) _)

    accept_members :
        (ms : Members N)
        → verdict (accept_entries nfc16 (encoded_members utf16 ms))
          ≡ map_err reason (validate_members {E = E} nfc8 (encoded_members utf8 ms))
    accept_members Canonical.end = refl
    accept_members (Canonical.member name v ms) =
        let rest =
          verdict-bind (accept nfc16 (encoded utf16 v))
            (accept_entries nfc16 (encoded_members utf16 ms)) (entry (utf16 name))
          ∙ (λ i. accept_value v i >> accept_members ms i)
          ∙ sym (
              map_err-then reason (validate nfc8 (encoded utf8 v))
                (validate_members nfc8 (encoded_members utf8 ms))) in
        elim (Bool-cases (Canonical.is_ascii (utf8 name))) [
          | inl e ↦ rw (same_ascii name) (rw e rest)
          | inr e ↦ rw (same_ascii name) (rw e refl)
        ]

  -- With the members of its objects in one order, a value is accepted by both or refused by both for
  -- the same reason, the first one met.
  pub verdict-accept :
      (v : Value N)
      → verdict (accept nfc16 (encoded utf16 v))
        ≡ map_err reason (validate {E = E} nfc8 (encoded utf8 v))
  verdict-accept v = accept_value v

-- The JSON value that a decoded value is.
unfoldable mutual
  pub plain : {N : Type 0} → CanonicalJsonValue → Value N
  plain null = Canonical.null
  plain (boolean b) = bool b
  plain (string text) = Canonical.string text
  plain (array elements) = Canonical.array (plain_elements elements)
  plain (object entries) = Canonical.object (plain_entries entries)

  pub plain_elements : {N : Type 0} → Elements → Values N
  plain_elements nil = Canonical.nil
  plain_elements (element v elements) = Canonical.element (plain v) (plain_elements elements)

  pub plain_entries : {N : Type 0} → Entries → Members N
  plain_entries end = Canonical.end
  plain_entries (entry name v entries) = Canonical.member name (plain v) (plain_entries entries)

module _ {N : Type 0} (nfc : Units → Units) where
  mutual
    unfolding accept plain

    kept : (v : Value N) (c : CanonicalJsonValue) → accept nfc v ≡ ok c → plain c ≡ v
    kept Canonical.null c h = ground arith
    kept (bool b) c h = ground arith
    kept (number n) c h = cc
    kept (Canonical.string t) c h = ground arith
    kept (Canonical.array values) c h = elim (Result-cases (accept_elements nfc values)) [
      | inl (es, e) ↦ ground (arith, kept_values values es e)
      | inr (x, e) ↦ ground arith
    ]
    kept (Canonical.object members) c h = elim (Result-cases (accept_entries nfc members)) [
      | inl (es, e) ↦ ground (arith, kept_members members es e)
      | inr (x, e) ↦ ground arith
    ]

    kept_values :
        (vs : Values N) (es : Elements) → accept_elements nfc vs ≡ ok es → plain_elements es ≡ vs
    kept_values Canonical.nil es h = ground arith
    kept_values (Canonical.element v vs) es h = elim (Result-cases (accept nfc v)) [
      | inr (x, e) ↦ ground arith
      | inl (c, e) ↦ elim (Result-cases (accept_elements nfc vs)) [
        | inr (x, f) ↦ ground arith
        | inl (rest, f) ↦ ground (arith, kept v c e, kept_values vs rest f)
      ]
    ]

    kept_members :
        (ms : Members N) (es : Entries) → accept_entries nfc ms ≡ ok es → plain_entries es ≡ ms
    kept_members Canonical.end es h = ground arith
    kept_members (Canonical.member name v ms) es h = elim (Result-cases (accept nfc v)) [
      | inr (x, e) ↦ ground arith
      | inl (c, e) ↦ elim (Result-cases (accept_entries nfc ms)) [
        | inr (x, f) ↦ ground arith
        | inl (rest, f) ↦ ground (arith, kept v c e, kept_members ms rest f)
      ]
    ]

  -- A value that is accepted is the parsed value, unchanged.
  pub accept-plain : (v : Value N) (c : CanonicalJsonValue) → accept nfc v ≡ ok c → plain c ≡ v
  accept-plain v c h = kept v c h
