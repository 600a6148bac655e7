-- ===== src/Signal/Transform/Loops.antt =====
-- Where the fields of a signal come from: which of them each loop of the transform writes.
use artificial_intelligence.Base.{
  Bool-cases, Option-cases, Result-cases, [], arith, eq_of_==, inl, inr, none, ok, some, subst,
  true, ◌==◌, ◌∙◌, ◌∷◌, ◌≡◌, ◌⊎◌, bytes_ord,
}
use artificial_intelligence.BTree.{BTreeMap, get, insert}
use artificial_intelligence.BTree.Lookup.{get-insert, get-insert_self}
use artificial_intelligence.BTree.Sorted.{IsSorted, get-Above}
use artificial_intelligence.Signal.Token.{Token, token_ord}
use artificial_intelligence.Signal.Domain.{SignalValue, FieldDomain, generalize}
use artificial_intelligence.Signal.Transform.{carry_required, carry_optional}

along :
    (T : Token → FieldDomain → Type 0) (m n : Token) (c d : FieldDomain)
    → (m == n) ≡ true
    → c ≡ d
    → T m c
    → T n d
along T m n c d same domain t = subst (T n) domain (subst (λ x. T x c) (eq_of_== m n same) t)

-- The field was observed, and its generalized value is among the fields.
abbrev pub Carried :
    BTreeMap Token SignalValue → BTreeMap Token SignalValue → Token → FieldDomain → Type 0
Carried observed out n d =
    (v : SignalValue) × (w : SignalValue) × (get n observed ≡ some v)
    × (generalize d v ≡ ok w)
    × (get n out ≡ some w)

module _ (observed : BTreeMap Token SignalValue) where
  pub frame_required :
      (ds : BTreeMap Token FieldDomain) (fields out : BTreeMap Token SignalValue) (n : Token)
      → get n ds ≡ none
      → carry_required observed fields ds ≡ ok out
      → get n out ≡ get n fields
  unfolding carry_required get
  frame_required [] fields out n h e = ground arith
  frame_required ((name, d) ∷ rest) fields out n h e = elim (Option-cases (get name observed)) [
    | inl z ↦ absurd (ground arith)
    | inr (v, p) ↦ elim (Result-cases (generalize d v)) [
      | inr (x, g) ↦ absurd (ground arith)
      | inl (w, g) ↦
          let later =
            frame_required rest (insert name w fields) out n (ground arith) (ground arith) in
          ground (arith, later, get-insert name n w fields)
    ]
  ]

  pub frame_optional :
      (ds : BTreeMap Token FieldDomain) (fields out : BTreeMap Token SignalValue) (n : Token)
      → get n ds ≡ none
      → carry_optional observed fields ds ≡ ok out
      → get n out ≡ get n fields
  unfolding carry_optional get
  frame_optional [] fields out n h e = ground arith
  frame_optional ((name, d) ∷ rest) fields out n h e = elim (Option-cases (get name observed)) [
    | inl z ↦ frame_optional rest fields out n (ground arith) (ground arith)
    | inr (v, p) ↦ elim (Result-cases (generalize d v)) [
      | inr (x, g) ↦ absurd (ground arith)
      | inl (w, g) ↦
          let later =
            frame_optional rest (insert name w fields) out n (ground arith) (ground arith) in
          ground (arith, later, get-insert name n w fields)
    ]
  ]

  pub required-Carried :
      (ds : BTreeMap Token FieldDomain) (fields out : BTreeMap Token SignalValue)
      → IsSorted ds
      → carry_required observed fields ds ≡ ok out
      → (n : Token) (d : FieldDomain) → get n ds ≡ some d
      → Carried observed out n d
  unfolding carry_required get
  required-Carried [] fields out s e n d h = cc
  required-Carried ((name, c) ∷ rest) fields out s e n d h =
      elim (Option-cases (get name observed)) [
        | inl z ↦ absurd (ground arith)
        | inr (v, p) ↦ elim (Result-cases (generalize c v)) [
          | inr (x, g) ↦ absurd (ground arith)
          | inl (w, g) ↦ elim (Bool-cases (name == n)) [
            | inr other ↦
                required-Carried rest (insert name w fields) out s.1 (ground arith) n d
                  (ground arith)
            | inl same ↦
                let last =
                  frame_required rest (insert name w fields) out name (get-Above name rest s.0)
                    (ground arith) in
                along (Carried observed out) name n c d same (ground arith)
                  (v, w, p, g, last ∙ get-insert_self name w fields)
          ]
        ]
      ]

  -- An optional field is carried, or it was not observed and is left as it was.
  abbrev pub Kept :
      BTreeMap Token SignalValue → BTreeMap Token SignalValue → Token → FieldDomain → Type 0
  Kept fields out n d =
      ((get n observed ≡ none) × (get n out ≡ get n fields)) ⊎ Carried observed out n d

  pub optional-Kept :
      (ds : BTreeMap Token FieldDomain) (fields out : BTreeMap Token SignalValue)
      → IsSorted ds
      → carry_optional observed fields ds ≡ ok out
      → (n : Token) (d : FieldDomain) → get n ds ≡ some d
      → Kept fields out n d
  unfolding carry_optional get
  optional-Kept [] fields out s e n d h = cc
  optional-Kept ((name, c) ∷ rest) fields out s e n d h = elim (Option-cases (get name observed)) [
    | inl z ↦ elim (Bool-cases (name == n)) [
      | inr other ↦ optional-Kept rest fields out s.1 (ground arith) n d (ground arith)
      | inl same ↦
          let last = frame_optional rest fields out name (get-Above name rest s.0) (ground arith) in
          along (Kept fields out) name n c d same (ground arith) (inl (z, last))
    ]
    | inr (v, p) ↦ elim (Result-cases (generalize c v)) [
      | inr (x, g) ↦ absurd (ground arith)
      | inl (w, g) ↦ elim (Bool-cases (name == n)) [
        | inr other ↦
            elim (optional-Kept rest (insert name w fields) out s.1 (ground arith) n d
              (ground arith)) [
                | inl (z, q) ↦ inl (z, ground (arith, q, get-insert name n w fields))
                | inr c ↦ inr c
              ]
        | inl same ↦
            let last =
              frame_optional rest (insert name w fields) out name (get-Above name rest s.0)
                (ground arith) in
            along (Kept fields out) name n c d same (ground arith)
              (inr (v, w, p, g, last ∙ get-insert_self name w fields))
      ]
    ]
  ]
