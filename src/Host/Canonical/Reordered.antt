-- ===== src/Host/Canonical/Reordered.antt =====
-- `accept` of canonical.ts beside `validate` of crates/aiai-contracts/src/canonical.rs where the two
-- walk the members of an object in different orders: the host takes them as `Object.entries` gives
-- them, the crate as the map of `serde_json` does.
use artificial_intelligence.Base.{
  Bool, Bytes, Result, ap, arith, err, is_ok, map_err, ok, refl, sym, ◌&&◌, ◌>>◌, ◌∙◌, ◌≡◌,
}
use artificial_intelligence.Contracts.Canonical.{
  Value, Values, Members, array, object, nil, element, end, member, validate, validate_values,
  validate_members, is_ascii,
}
use artificial_intelligence.Host.Text.{Units, CodePoints, utf8, utf16}
use artificial_intelligence.Host.Canonical.{accept}
use artificial_intelligence.Host.Canonical.Mirror.{
  encoded, encoded_values, encoded_members, reason, verdict, SameNormal, verdict-accept,
}

module _ {N : Type 0} where
  -- Two values that differ in the order of the members of objects alone, at any depth.
  mutual
    pub data Reordered : Value N → Value N → Type 0 where
      itself : (v : Value N) → Reordered v v
      arrays : {vs ws : Values N} → ReorderedValues vs ws → Reordered (array vs) (array ws)
      objects : {ms ns : Members N} → ReorderedMembers ms ns → Reordered (object ms) (object ns)

    pub data ReorderedValues : Values N → Values N → Type 0 where
      no_elements : ReorderedValues nil nil
      elements :
          {v w : Value N} {vs ws : Values N}
          → Reordered v w
          → ReorderedValues vs ws
          → ReorderedValues (element v vs) (element w ws)

    pub data ReorderedMembers : Members N → Members N → Type 0 where
      no_members : ReorderedMembers end end
      members :
          (name : CodePoints) {v w : Value N} {ms ns : Members N}
          → Reordered v w
          → ReorderedMembers ms ns
          → ReorderedMembers (member name v ms) (member name w ns)
      swapped :
          (n m : CodePoints) (v w : Value N) (ms : Members N)
          → ReorderedMembers (member n v (member m w ms)) (member m w (member n v ms))
      in_turn :
          {ms ns ps : Members N}
          → ReorderedMembers ms ns
          → ReorderedMembers ns ps
          → ReorderedMembers ms ps

is_ok-then : {X : Type 0} (a b : Result (Unit {0}) X) → is_ok (a >> b) ≡ (is_ok a && is_ok b)
is_ok-then (ok tt) b = refl
is_ok-then (err x) b = refl

is_ok-verdict : {A X : Type 0} (r : Result A X) → is_ok (verdict r) ≡ is_ok r
is_ok-verdict (ok a) = refl
is_ok-verdict (err x) = refl

is_ok-map_err : {A X Y : Type 0} (f : X → Y) (r : Result A X) → is_ok (map_err f r) ≡ is_ok r
is_ok-map_err f (ok a) = refl
is_ok-map_err f (err x) = refl

and_swap : (a b c d e : Bool) → (a && (b && (c && (d && e)))) ≡ (c && (d && (a && (b && e))))
and_swap a b c d e = ground arith

module _ {N : Type 0} (E : Type 0) (nfc : Bytes → Bytes) where
  abbrev passes : Value N → Bool
  passes v = is_ok (validate {E = E} nfc (encoded utf8 v))

  abbrev members_pass : Members N → Bool
  members_pass ms = is_ok (validate_members {E = E} nfc (encoded_members utf8 ms))

  pass_member :
      (name : CodePoints) (v : Value N) (ms : Members N)
      → members_pass (member name v ms) ≡ (is_ascii (utf8 name) && (passes v && members_pass ms))
  unfolding validate encoded
  pass_member name v ms = ground (
    arith,
    is_ok-then (validate {E = E} nfc (encoded utf8 v))
        (validate_members {E = E} nfc (encoded_members utf8 ms)),
  )

  mutual
    unfolding validate encoded

    same_pass : {v w : Value N} → Reordered v w → passes v ≡ passes w
    same_pass (itself v) = refl
    same_pass (arrays h) = same_pass_values h
    same_pass (objects h) = same_pass_members h

    same_pass_values :
        {vs ws : Values N}
        → ReorderedValues vs ws
        → is_ok (validate_values {E = E} nfc (encoded_values utf8 vs))
          ≡ is_ok (validate_values {E = E} nfc (encoded_values utf8 ws))
    same_pass_values no_elements = refl
    same_pass_values (elements {v} {w} {vs} {ws} h k) =
        is_ok-then (validate {E = E} nfc (encoded utf8 v)) _
        ∙ (λ i. same_pass h i && same_pass_values k i)
        ∙ sym (is_ok-then (validate {E = E} nfc (encoded utf8 w)) _)

    same_pass_members :
        {ms ns : Members N} → ReorderedMembers ms ns → members_pass ms ≡ members_pass ns
    same_pass_members no_members = refl
    same_pass_members (members name {v} {w} {ms} {ns} h k) =
        pass_member name v ms
        ∙ (λ i. is_ascii (utf8 name) && (same_pass h i && same_pass_members k i))
        ∙ sym (pass_member name w ns)
    same_pass_members (swapped n m v w ms) =
        pass_member n v (member m w ms)
        ∙ ap (λ b. is_ascii (utf8 n) && (passes v && b)) (pass_member m w ms)
        ∙ and_swap (is_ascii (utf8 n)) (passes v) (is_ascii (utf8 m)) (passes w) (members_pass ms)
        ∙ sym (
            pass_member m w (member n v ms)
            ∙ ap (λ b. is_ascii (utf8 m) && (passes w && b)) (pass_member n v ms))
    same_pass_members (in_turn h k) = same_pass_members h ∙ same_pass_members k

module _ (N E : Type 0) (nfc8 : Bytes → Bytes) (nfc16 : Units → Units)
    (same : SameNormal nfc8 nfc16) where
  -- Let the two normalizations agree on which texts are normal, and let the texts of a JSON value
  -- stand in the encoding of each language. Then the host's decoder accepts the value exactly if the
  -- crate's producer does, in whatever orders the two take the members of its objects. If they take
  -- them in one order, both refuse for the same reason, the first one met; in different orders the
  -- reason may differ.
  pub accept-mirrors :
      (v w : Value N)
      → Reordered v w
      → (is_ok (accept nfc16 (encoded utf16 v)) ≡ is_ok (validate {E = E} nfc8 (encoded utf8 w)))
        × (verdict (accept nfc16 (encoded utf16 v))
            ≡ map_err reason (validate {E = E} nfc8 (encoded utf8 v)))
  accept-mirrors v w h =
      let one_order = verdict-accept N E nfc8 nfc16 same v in
      (
        sym (is_ok-verdict (accept nfc16 (encoded utf16 v)))
            ∙ ap is_ok one_order
            ∙ is_ok-map_err reason (validate {E = E} nfc8 (encoded utf8 v))
            ∙ same_pass E nfc8 h,
        one_order,
      )
