-- ===== src/Runtime/Ledger/Settling.antt =====
-- What the steps of the book settle, one after another.
use artificial_intelligence.Base.{
  ==_refl, All, All-append, All-map, Bool-cases, List, Option-cases, [], ap, arith, eq_of_==, inl,
  inr, length, refl, some, sym, ℕ, ◌++◌, ◌+◌, ◌<◌, ◌==◌, ◌∙◌, ◌∷◌, ◌≡◌, ◌≢◌, ◌≤◌, ◌⊎◌, bytes_ord,
}
use artificial_intelligence.Contracts.Scalar.{DecimalU64}
use artificial_intelligence.Contracts.Identifier.{ProposalId, identifier_ord}
use artificial_intelligence.Contracts.Envelope.{ProposalEnvelope}
use artificial_intelligence.Runtime.Session.Transaction.{find}
use artificial_intelligence.Runtime.Ledger.{
  Ledger, IsNumbered, Step, idle, record_batch, settle, settled, Course, done, onward, settlements,
  IsSound, AreDistinct,
}

AreDistinct-append :
    (xs ys : List ℕ)
    → AreDistinct xs
    → AreDistinct ys
    → All (λ y. All (λ x. y ≢ x) xs) ys
    → AreDistinct (xs ++ ys)
AreDistinct-append [] ys h k a = k
AreDistinct-append (x ∷ xs) ys h k a = (
  All-append (λ y. y ≢ x) xs ys h.0 (All-map (λ y b. b.0) ys a),
  AreDistinct-append xs ys h.1 k (All-map (λ y b. b.1) ys a),
)

module _ {P : Type 0} where
  find-IsNumbered :
      (q : DecimalU64) (es : List (ProposalEnvelope P)) (id : ProposalId) (e : ProposalEnvelope P)
      → IsNumbered q es
      → find id es ≡ some e
      → (e.proposal_id ≡ id) × (q < e.sequence) × (e.sequence ≤ q + length es)
  find-IsNumbered q [] id e n h = cc
  find-IsNumbered q (x ∷ es) id e n h = elim (Bool-cases (x.proposal_id == id)) [
    | inl same ↦
        let found : x ≡ e = ground arith in
        (
          sym (ap (λ (y : ProposalEnvelope P). y.proposal_id) found)
              ∙ eq_of_== x.proposal_id id same,
          ground arith,
          ground arith,
        )
    | inr other ↦
        let (a, b, c) = find-IsNumbered (q + 1) es id e n.1 (ground arith) in
        (a, omega (arith, b), omega (arith, c))
  ]

  find_unique :
      (q : DecimalU64) (es : List (ProposalEnvelope P)) (i j : ProposalId)
      (e f : ProposalEnvelope P)
      → IsNumbered q es
      → find i es ≡ some e
      → find j es ≡ some f
      → e.sequence ≡ f.sequence
      → i ≡ j
  find_unique q [] i j e f n h k s = cc
  find_unique q (x ∷ es) i j e f n h k s = elim (Bool-cases (x.proposal_id == i)) [
    | inl a ↦ elim (Bool-cases (x.proposal_id == j)) [
      | inl b ↦ sym (eq_of_== x.proposal_id i a) ∙ eq_of_== x.proposal_id j b
      | inr b ↦
          let (_, low, _) = find-IsNumbered (q + 1) es j f n.1 (ground arith) in
          absurd (ground arith)
    ]
    | inr a ↦ elim (Bool-cases (x.proposal_id == j)) [
      | inl b ↦
          let (_, low, _) = find-IsNumbered (q + 1) es i e n.1 (ground arith) in
          absurd (ground arith)
      | inr b ↦ find_unique (q + 1) es i j e f n.1 (ground arith) (ground arith) s
    ]
  ]

  -- What is held after a step was held before it, or has a new sequence.
  held_before :
      {l m : Ledger P} (st : Step l m) (id : ProposalId) (e : ProposalEnvelope P)
      → m.held id ≡ some e
      → (l.held id ≡ some e) ⊎ (l.issued < e.sequence)
  held_before (idle h a b) id e k = inl (sym (h id) ∙ k)
  held_before {l} (record_batch es f d n h q) id e k = elim (Option-cases (find id es)) [
    | inl z ↦ inl (ground (arith, h id))
    | inr (x, z) ↦
        let found : x ≡ e = ground (arith, h id) in
        let (_, low, _) = find-IsNumbered l.issued es id e n (z ∙ ap some found) in inr low
  ]
  held_before {l} (settle i x g h a b) id e k = elim (Bool-cases (i == id)) [
    | inl same ↦ absurd (ground (arith, h id))
    | inr other ↦ inl (ground (arith, h id))
  ]

  issued_grows : {l m : Ledger P} → Step l m → l.issued ≤ m.issued
  issued_grows (idle h a b) = a
  issued_grows (record_batch es f d n h q) = omega arith
  issued_grows (settle i x g h a b) = a

  -- Two new proposals of one step that share a sequence are under one identifier.
  both_new :
      {l m : Ledger P} (st : Step l m)
      → IsSound l
      → (i j : ProposalId) (e f : ProposalEnvelope P) → m.held i ≡ some e
      → m.held j ≡ some f
      → e.sequence ≡ f.sequence
      → l.issued < e.sequence
      → l.issued < f.sequence
      → i ≡ j
  both_new (idle h a b) s i j e f g k c lo hi = absurd (omega (arith, s.below i e (sym (h i) ∙ g)))
  both_new {l} {m} (record_batch es r d n h q) s i j e f g k c lo hi =
      find_unique l.issued es i j e f n (new_found i e g lo) (new_found j f k hi) c
    where
      new_found :
          (id : ProposalId) (x : ProposalEnvelope P)
          → m.held id ≡ some x
          → l.issued < x.sequence
          → find id es ≡ some x
      new_found id x g lo = elim (Option-cases (find id es)) [
        | inl z ↦ absurd (omega (arith, s.below id x (ground (arith, h id))))
        | inr (y, z) ↦ ground (arith, h id)
      ]
  both_new (settle id x u h a b) s i j e f g k c lo hi = elim (Bool-cases (id == i)) [
    | inl same ↦ absurd (ground (arith, h i))
    | inr other ↦ absurd (omega (arith, s.below i e (ground (arith, h i))))
  ]

  Step-IsSound : {l m : Ledger P} (st : Step l m) → IsSound l → IsSound m
  Step-IsSound {l} {m} st s = record { below = below st; unique = unique st }
    where
      below :
          Step l m
          → (id : ProposalId) (e : ProposalEnvelope P) → m.held id ≡ some e
          → e.sequence ≤ m.issued
      below (idle h a b) id e k = omega (arith, s.below id e (sym (h id) ∙ k))
      below (record_batch es f d n h q) id e k = elim (Option-cases (find id es)) [
        | inl z ↦
            let old : l.held id ≡ some e = ground (arith, h id) in omega (arith, s.below id e old)
        | inr (x, z) ↦
            let found : x ≡ e = ground (arith, h id) in
            let (_, _, high) = find-IsNumbered l.issued es id e n (z ∙ ap some found) in
            omega (arith, high)
      ]
      below (settle i x g h a b) id e k = elim (Bool-cases (i == id)) [
        | inl same ↦ absurd (ground (arith, h id))
        | inr other ↦
            let old : l.held id ≡ some e = ground (arith, h id) in omega (arith, s.below id e old)
      ]

      unique :
          Step l m
          → (i j : ProposalId) (e f : ProposalEnvelope P) → m.held i ≡ some e
          → m.held j ≡ some f
          → e.sequence ≡ f.sequence
          → i ≡ j
      unique st i j e f g k c = elim (held_before st i e g) [
        | inl a ↦ elim (held_before st j f k) [
          | inl b ↦ s.unique i j e f a b c
          | inr b ↦ absurd (omega (arith, s.below i e a))
        ]
        | inr a ↦ elim (held_before st j f k) [
          | inl b ↦ absurd (omega (arith, s.below j f b))
          | inr b ↦ both_new st s i j e f g k c a b
        ]
      ]

  -- The numbers that later steps may settle: held now, or issued later.
  abbrev IsOpen : Ledger P → DecimalU64 → Type 0
  IsOpen l x =
      ((id : ProposalId) × (e : ProposalEnvelope P) × (l.held id ≡ some e) × (e.sequence ≡ x))
      ⊎ (l.issued < x)

  IsOpen-before : {l m : Ledger P} (st : Step l m) (x : DecimalU64) → IsOpen m x → IsOpen l x
  IsOpen-before st x (inr later) = inr (omega (arith, issued_grows st))
  IsOpen-before {l} st x (inl (id, e, g, same)) = elim (held_before st id e g) [
    | inl old ↦ inl (id, e, old, same)
    | inr new ↦ inr (omega (arith, same))
  ]

  -- A number that a step settles is open before it and not after it.
  settled-IsOpen : {l m : Ledger P} (st : Step l m) → All (IsOpen l) (settled st)
  settled-IsOpen (idle h a b) = tt
  settled-IsOpen (record_batch es f d n h q) = tt
  settled-IsOpen (settle id e g h a b) = (inl (id, e, g, refl), tt)

  settled_closed :
      {l m : Ledger P} (st : Step l m)
      → IsSound l
      → (x : DecimalU64) → IsOpen m x
      → All (λ y. x ≢ y) (settled st)
  settled_closed (idle h a b) s x o = tt
  settled_closed (record_batch es f d n h q) s x o = tt
  settled_closed {l} {m} (settle id e g h a b) s x o = (
    λ same. elim o [
      | inr later ↦ omega (arith, s.below id e g)
      | inl (j, f, k, c) ↦ elim (Bool-cases (id == j)) [
        | inl here ↦ ground (arith, h j)
        | inr there ↦
            let old : l.held j ≡ some f = ground (arith, h j) in
            let one : id ≡ j = s.unique id j e f g old (sym same ∙ sym c) in
            ground (arith, ap (λ y. id == y) one, ==_refl id)
      ]
    ],
    tt,
  )

  settlements-IsOpen : {n l : Ledger P} (p : Course n l) → All (IsOpen l) (settlements p)
  settlements-IsOpen done = tt
  settlements-IsOpen {n} {l} (onward {m = m} st p) =
      All-append (IsOpen l) (settled st) (settlements p) (settled-IsOpen st)
        (All-map (IsOpen-before st) (settlements p) (settlements-IsOpen p))

  settled-AreDistinct : {l m : Ledger P} (st : Step l m) → AreDistinct (settled st)
  settled-AreDistinct (idle h a b) = tt
  settled-AreDistinct (record_batch es f d n h q) = tt
  settled-AreDistinct (settle id e g h a b) = (tt, tt)

  -- From a sound book, whatever steps follow, no proposal is settled twice.
  pub settlements-AreDistinct :
      {n l : Ledger P} (p : Course n l) → IsSound l → AreDistinct (settlements p)
  settlements-AreDistinct done s = tt
  settlements-AreDistinct (onward st p) s =
      AreDistinct-append (settled st) (settlements p) (settled-AreDistinct st)
        (settlements-AreDistinct p (Step-IsSound st s))
        (All-map (settled_closed st s) (settlements p) (settlements-IsOpen p))
