-- ===== src/Contracts/Canonical/Laws.antt =====
-- What passes the check of canonical.rs, and what an error says.
use artificial_intelligence.Base.{
  ==_refl, All, All-append, All-prefix, Any, Any-append, Bool-cases, Bytes, Result, Result-cases,
  arith, eq_of_==, err, inl, inr, ok, refl, subst, sym, ◌<◌, ◌↔◌, ◌≡◌, ◌≢◌, ◌⊎◌, bytes_ord,
}
use artificial_intelligence.Contracts.Canonical.{
  Value, Values, Members, null, bool, number, string, array, object, nil, element, end, member,
  CanonicalJsonError, serialization, number_token, non_nfc_string, non_ascii_object_key, is_ascii,
  is_nfc, validate, validate_values, validate_members, canonical_json,
}
use artificial_intelligence.Contracts.Canonical.Parts.{
  parts, parts_of_values, parts_of_members, member_names, IsPlain, Breaks, is_ascii-All,
  All-is_ascii,
}

module _ {N E : Type 0} (nfc : Bytes → Bytes) where
  mutual
    unfolding validate validate_values validate_members parts parts_of_values parts_of_members
        member_names

    sound : (v : Value N) → validate {E = E} nfc v ≡ ok tt → All (IsPlain nfc) (parts v)
    sound null h = (tt, tt)
    sound (bool b) h = (tt, tt)
    sound (number n) h = cc
    sound (string text) h = (eq_of_== (nfc text) text (ground arith), tt)
    sound (array values) h = (tt, sound_values values h)
    sound (object members) h = sound_members members h

    sound_values :
        (vs : Values N)
        → validate_values {E = E} nfc vs ≡ ok tt
        → All (IsPlain nfc) (parts_of_values vs)
    sound_values nil h = tt
    sound_values (element v vs) h =
        All-append (IsPlain nfc) (parts v) (parts_of_values vs) (sound v (ground arith))
          (sound_values vs (ground arith))

    sound_members :
        (ms : Members N)
        → validate_members {E = E} nfc ms ≡ ok tt
        → All (All (λ b. b < 128)) (member_names ms) × All (IsPlain nfc) (parts_of_members ms)
    sound_members end h = (tt, tt)
    sound_members (member key v ms) h =
        let (names, rest) = sound_members ms (ground arith) in
        (
          (is_ascii-All key (ground arith), names),
          All-append (IsPlain nfc) (parts v) (parts_of_members ms) (sound v (ground arith)) rest,
        )

    complete : (v : Value N) → All (IsPlain nfc) (parts v) → validate {E = E} nfc v ≡ ok tt
    complete null h = refl
    complete (bool b) h = refl
    complete (number n) h = absurd h.0
    complete (string text) h = ground (arith, h.0, ==_refl text)
    complete (array values) h = complete_values values h.1
    complete (object members) h = complete_members members h.0 h.1

    complete_values :
        (vs : Values N)
        → All (IsPlain nfc) (parts_of_values vs)
        → validate_values {E = E} nfc vs ≡ ok tt
    complete_values nil h = refl
    complete_values (element v vs) h =
        let (first, rest) = All-prefix (IsPlain nfc) (parts v) (parts_of_values vs) h in
        ground (arith, complete v first, complete_values vs rest)

    complete_members :
        (ms : Members N)
        → All (All (λ b. b < 128)) (member_names ms)
        → All (IsPlain nfc) (parts_of_members ms)
        → validate_members {E = E} nfc ms ≡ ok tt
    complete_members end k h = refl
    complete_members (member key v ms) k h =
        let (first, rest) = All-prefix (IsPlain nfc) (parts v) (parts_of_members ms) h in
        ground (arith, All-is_ascii key k.0, complete v first, complete_members ms k.1 rest)

  mutual
    unfolding validate validate_values validate_members parts parts_of_values parts_of_members
        member_names

    blamed :
        (v : Value N) (e : CanonicalJsonError E)
        → validate nfc v ≡ err e
        → Any (Breaks nfc e) (parts v)
    blamed null e h = cc
    blamed (bool b) e h = cc
    blamed (number n) e h =
        let same : number_token ≡ e = ground arith in
        subst (λ x. Any (Breaks nfc x) (parts (number n))) same (inl tt)
    blamed (string text) e h = elim (Bool-cases (is_nfc nfc text)) [
      | inl fixed ↦ absurd (ground arith)
      | inr moved ↦
          let same : non_nfc_string ≡ e = ground arith in
          let differs : nfc text ≢ text = λ k. ground (arith, ==_refl text) in
          subst (λ x. Any (Breaks {N = N} nfc x) (parts (string text))) same (inl differs)
    ]
    blamed (array values) e h = inr (blamed_values values e h)
    blamed (object members) e h = elim (blamed_members members e h) [
      | inl (same, bad) ↦
          subst (λ x. Any (Breaks nfc x) (parts (object members))) (sym same) (inl bad)
      | inr deeper ↦ inr deeper
    ]

    blamed_values :
        (vs : Values N) (e : CanonicalJsonError E)
        → validate_values nfc vs ≡ err e
        → Any (Breaks nfc e) (parts_of_values vs)
    blamed_values nil e h = cc
    blamed_values (element v vs) e h = elim (Result-cases (validate {E = E} nfc v)) [
      | inl (_, k) ↦
          Any-append (Breaks nfc e) (parts v) (parts_of_values vs)
            (inr (blamed_values vs e (ground arith)))
      | inr (x, k) ↦
          Any-append (Breaks nfc e) (parts v) (parts_of_values vs) (inl (blamed v e (ground arith)))
    ]

    blamed_members :
        (ms : Members N) (e : CanonicalJsonError E)
        → validate_members nfc ms ≡ err e
        → ((e ≡ non_ascii_object_key) × ¬ All (All (λ b. b < 128)) (member_names ms))
          ⊎ Any (Breaks nfc e) (parts_of_members ms)
    blamed_members end e h = cc
    blamed_members (member key v ms) e h = elim (Bool-cases (is_ascii key)) [
      | inr foreign ↦ inl (ground arith, λ names. ground (arith, All-is_ascii key names.0))
      | inl plain ↦ elim (Result-cases (validate {E = E} nfc v)) [
        | inl (_, k) ↦ elim (blamed_members ms e (ground arith)) [
          | inl (same, bad) ↦ inl (same, λ names. bad names.1)
          | inr deeper ↦
              inr (Any-append (Breaks nfc e) (parts v) (parts_of_members ms) (inr deeper))
        ]
        | inr (x, k) ↦ inr (
            Any-append (Breaks nfc e) (parts v) (parts_of_members ms)
              (inl (blamed v e (ground arith))))
      ]
    ]

  -- The value passes exactly if each of its parts, at any depth, is plain.
  validate_iff : (v : Value N) → (validate {E = E} nfc v ≡ ok tt) ↔ All (IsPlain nfc) (parts v)
  validate_iff v = (sound v, complete v)

  module _ {T : Type 0} (to_value : T → Result (Value N) E)
      (to_vec : Value N → Result Bytes E) where
    -- The canonical bytes are produced exactly if the value has a JSON form whose every part, at any
    -- depth, is no number, is in normal form if it is a text, and has ASCII member names if it is an
    -- object; they are then the printed bytes of that very form.
    pub canonical_json_iff :
        (x : T) (bytes : Bytes)
        → (canonical_json nfc to_value to_vec x ≡ ok bytes) ↔ (
            (v : Value N) × (to_value x ≡ ok v)
            × All (IsPlain nfc) (parts v)
            × (to_vec v ≡ ok bytes))
    unfolding canonical_json
    canonical_json_iff x bytes = (only, whenever)
      where
        only :
            canonical_json nfc to_value to_vec x ≡ ok bytes
            → (v : Value N) × (to_value x ≡ ok v)
              × All (IsPlain nfc) (parts v)
              × (to_vec v ≡ ok bytes)
        only h = elim (Result-cases (to_value x)) [
          | inr (y, k) ↦ absurd (ground arith)
          | inl (v, k) ↦ (v, k, sound v (ground arith), ground arith)
        ]

        whenever :
            ((v : Value N) × (to_value x ≡ ok v)
              × All (IsPlain nfc) (parts v)
              × (to_vec v ≡ ok bytes))
            → canonical_json nfc to_value to_vec x ≡ ok bytes
        whenever (v, k, plain, l) = ground (arith, complete v plain, k, l)

    -- When they are not produced, then the library has failed, or some part of the JSON form is to
    -- blame, in the way that the error says.
    pub canonical_json_failure :
        (x : T) (e : CanonicalJsonError E)
        → canonical_json nfc to_value to_vec x ≡ err e
        → ((y : E) × (e ≡ serialization y))
          ⊎ ((v : Value N) × (to_value x ≡ ok v) × Any (Breaks nfc e) (parts v))
    unfolding canonical_json
    canonical_json_failure x e h = elim (Result-cases (to_value x)) [
      | inr (y, k) ↦ inl (y, ground arith)
      | inl (v, k) ↦ elim (Result-cases (validate {E = E} nfc v)) [
        | inr (z, l) ↦ inr (v, k, blamed v e (ground arith))
        | inl (_, l) ↦ elim (Result-cases (to_vec v)) [
          | inr (y, m) ↦ inl (y, ground arith)
          | inl (b, m) ↦ absurd (ground arith)
        ]
      ]
    ]
