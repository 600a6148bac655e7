-- ===== src/Host/Canonical/Encodable.antt =====
-- That what the decoder of canonical.ts accepts, its writer encodes.
use artificial_intelligence.Base.{
  All, Bool-cases, List, Ordering, Result, Result-cases, [], cmp_bytes, codes, err, false, inl, inr,
  ok, refl, true, ◌++◌, ◌==◌, ◌∷◌, ◌≡◌, bytes_ord,
}
use artificial_intelligence.Contracts.Canonical
use artificial_intelligence.Contracts.Canonical.{Value, Values, Members, bool, number}
use artificial_intelligence.Host.Text.{Units}
use artificial_intelligence.Host.Canonical.{
  CanonicalJsonValue, CanonicalJsonRejection, is_ascii, accept, accept_elements, accept_entries,
}
use artificial_intelligence.Host.Canonical.Write.{
  Written, insert_member, sort_members, push_members, write, write_elements, write_entries,
  encode_canonical_json,
}

-- Where there is a value, it has the property.
abbrev OnOk : {A R : Type 0} → (A → Type 0) → Result A R → Type 0
OnOk P (ok a) = P a
OnOk P (err e) = Unit

-- There is a text.
abbrev pub IsText : Result Units CanonicalJsonRejection → Type 0
IsText r = (text : Units) × (r ≡ ok text)

-- A member that can be pushed.
abbrev Pushes : Written → Type 0
Pushes (name, r) = (is_ascii name ≡ true) × IsText r

insert_member-Pushes :
    (m : Written) (ms : List Written) → Pushes m → All Pushes ms → All Pushes (insert_member m ms)
unfolding insert_member
insert_member-Pushes (n, r) [] p h = (p, tt)
insert_member-Pushes (n, r) ((o, s) ∷ ms) p h =
    let further = insert_member-Pushes (n, r) ms p h.1 in
    elim (cmp_bytes n o)
      as (λ c.
        All Pushes
          (elim c [ Ordering.gt ↦ (o, s) ∷ insert_member (n, r) ms | _ ↦ (n, r) ∷ (o, s) ∷ ms ])) [
            | Ordering.lt ↦ (p, h)
            | Ordering.eq ↦ (p, h)
            | Ordering.gt ↦ (h.0, further)
          ]

sort_members-Pushes : (ms : List Written) → All Pushes ms → All Pushes (sort_members ms)
unfolding sort_members
sort_members-Pushes [] h = tt
sort_members-Pushes (m ∷ ms) h =
    insert_member-Pushes m (sort_members ms) h.0 (sort_members-Pushes ms h.1)

module _ (nfc stringify : Units → Units) where
  push_members-IsText :
      (separator : Units) (ms : List Written)
      → All Pushes ms
      → IsText (push_members nfc stringify separator ms)
  unfolding push_members
  push_members-IsText separator [] h = ([], refl)
  push_members-IsText separator ((name, r) ∷ ms) ((ascii, (value, e)), h) =
      let (rest, f) = push_members-IsText (codes ",") ms h in
      (separator ++ (stringify name ++ (codes ":" ++ (value ++ rest))), rw (ascii, e, f) refl)

  module _ {N : Type 0} where
    mutual
      unfolding accept write

      accepted : (v : Value N) → OnOk (λ c. IsText (write nfc stringify c)) (accept nfc v)
      accepted Canonical.null = (codes "null", refl)
      accepted (bool true) = (codes "true", refl)
      accepted (bool false) = (codes "false", refl)
      accepted (number n) = tt
      accepted (Canonical.string t) = elim (Bool-cases (nfc t == t)) [
        | inl e ↦ rw e (stringify t, rw e refl)
        | inr e ↦ rw e tt
      ]
      accepted (Canonical.array values) =
          let inside = accepted_elements values [] in
          elim (Result-cases (accept_elements nfc values)) [
            | inl (es, e) ↦
                let (text, f) = rw e at inside in rw e (codes "[" ++ (text ++ codes "]"), rw f refl)
            | inr (x, e) ↦ rw e tt
          ]
      accepted (Canonical.object members) =
          let inside = accepted_entries members in
          elim (Result-cases (accept_entries nfc members)) [
            | inl (es, e) ↦
                let (text, f) =
                  push_members-IsText [] (sort_members (write_entries nfc stringify es))
                    (sort_members-Pushes (write_entries nfc stringify es) (rw e at inside)) in
                rw e (codes "{" ++ (text ++ codes "}"), rw f refl)
            | inr (x, e) ↦ rw e tt
          ]

      accepted_elements :
          (vs : Values N) (separator : Units)
          → OnOk (λ es. IsText (write_elements nfc stringify separator es)) (accept_elements nfc vs)
      accepted_elements Canonical.nil separator = ([], refl)
      accepted_elements (Canonical.element v vs) separator =
          let first = accepted v in
          let rest = accepted_elements vs (codes ",") in
          elim (Result-cases (accept nfc v)) [
            | inr (x, e) ↦ rw e tt
            | inl (c, e) ↦ elim (Result-cases (accept_elements nfc vs)) [
              | inr (x, f) ↦ rw e (rw f tt)
              | inl (es, f) ↦
                  let (text, g) = rw e at first in
                  let (texts, k) = rw f at rest in
                  rw e (rw f (separator ++ (text ++ texts), rw (g, k) refl))
            ]
          ]

      accepted_entries :
          (ms : Members N)
          → OnOk (λ es. All Pushes (write_entries nfc stringify es)) (accept_entries nfc ms)
      accepted_entries Canonical.end = tt
      accepted_entries (Canonical.member name v ms) =
          let first = accepted v in
          let rest = accepted_entries ms in
          elim (Bool-cases (is_ascii name)) [
            | inr a ↦ rw a tt
            | inl a ↦ elim (Result-cases (accept nfc v)) [
              | inr (x, e) ↦ rw a (rw e tt)
              | inl (c, e) ↦ elim (Result-cases (accept_entries nfc ms)) [
                | inr (x, f) ↦ rw a (rw e (rw f tt))
                | inl (es, f) ↦ rw a (rw e (rw f ((a, rw e at first), rw f at rest)))
              ]
            ]
          ]

  -- Whatever the decoder accepts, the writer encodes: a host can pass on every value that it read.
  pub encode-accept :
      {N : Type 0} (v : Value N) (c : CanonicalJsonValue)
      → accept nfc v ≡ ok c
      → IsText (encode_canonical_json nfc stringify c)
  unfolding encode_canonical_json
  encode-accept v c e = let inside = accepted v in rw e at inside
