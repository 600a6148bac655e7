-- ===== src/BTree/Entries.antt =====
-- A property of each entry of a map, through lookup and insertion.
use artificial_intelligence.Base.{
  ==_refl, Bool-cases, Ord, [], ap, arith, eq_of_==, inl, inr, none, some, subst, true, ◌==◌, ◌∷◌,
  ◌≡◌, bytes_ord,
}
use artificial_intelligence.BTree.{BTreeMap, get, insert, contains_key}
use artificial_intelligence.BTree.Lookup.{get-insert, get-insert_self}
use artificial_intelligence.BTree.Sorted.{IsSorted, get-Above}

module _ {ℓ κ μ} {K : Type ℓ} {V : Type κ} where
  abbrev pub EachEntry : (K → V → Type μ) → BTreeMap K V → Type μ
  EachEntry T [] = Unit
  EachEntry T ((k, v) ∷ m) = T k v × EachEntry T m

module _ {ℓ κ μ ν} {K : Type ℓ} {V : Type κ} (T : K → V → Type μ) (S : K → V → Type ν) where
  pub EachEntry-map :
      ((k : K) (v : V) → T k v → S k v) → (m : BTreeMap K V) → EachEntry T m → EachEntry S m
  EachEntry-map f [] h = tt
  EachEntry-map f ((k, v) ∷ m) h = (f k v h.0, EachEntry-map f m h.1)

  pub EachEntry-zip :
      (m : BTreeMap K V) → EachEntry T m → EachEntry S m → EachEntry (λ k v. T k v × S k v) m
  EachEntry-zip [] h g = tt
  EachEntry-zip ((k, v) ∷ m) h g = ((h.0, g.0), EachEntry-zip m h.1 g.1)

module _ {ℓ κ μ} {K : Type ℓ} {V : Type κ} ⦃o : Ord K⦄ (T : K → V → Type μ) where
  pub EachEntry-insert :
      (k : K) (v : V) (m : BTreeMap K V) → T k v → EachEntry T m → EachEntry T (insert k v m)
  unfolding insert
  EachEntry-insert k v [] t h = (t, tt)
  EachEntry-insert k v ((j, w) ∷ m) t h = ground (arith, EachEntry-insert k v m t)

  pub EachEntry-get : (k : K) (v : V) (m : BTreeMap K V) → EachEntry T m → get k m ≡ some v → T k v
  unfolding get
  EachEntry-get k v [] h e = cc
  EachEntry-get k v ((j, w) ∷ m) h e = elim (Bool-cases (j == k)) [
    | inl same ↦
        let value : w ≡ v = ground arith in
        subst (λ x. T k x) value (subst (λ x. T x w) (eq_of_== j k same) h.0)
    | inr other ↦ EachEntry-get k v m h.1 (ground arith)
  ]

module _ {ℓ κ} {K : Type ℓ} {V : Type κ} ⦃o : Ord K⦄ where
  get-cons :
      (j : K) (w : V) (m : BTreeMap K V)
      → get j m ≡ none
      → (k : K) (v : V) → get k m ≡ some v
      → get k ((j, w) ∷ m) ≡ some v
  unfolding get
  get-cons j w m n k v e = elim (Bool-cases (j == k)) [
    | inl same ↦ absurd (ground (arith, ap (λ x. get x m) (eq_of_== j k same), n, e))
    | inr other ↦ ground (arith, e)
  ]

  -- In a map in key order, every entry is found under its key.
  pub IsSorted-EachEntry : (m : BTreeMap K V) → IsSorted m → EachEntry (λ k v. get k m ≡ some v) m
  IsSorted-EachEntry [] s = tt
  IsSorted-EachEntry ((j, w) ∷ m) s = (
    unfold get in ground (arith, ==_refl j),
    EachEntry-map (λ k v. get k m ≡ some v) (λ k v. get k ((j, w) ∷ m) ≡ some v)
        (get-cons j w m (get-Above j m s.0)) m (IsSorted-EachEntry m s.1),
  )

  pub contains_key-insert :
      (k j : K) (v : V) (m : BTreeMap K V)
      → (contains_key j m ≡ true)
      → contains_key j (insert k v m) ≡ true
  contains_key-insert k j v m h = ground (arith, get-insert k j v m)

  pub contains_key-insert_self :
      (k : K) (v : V) (m : BTreeMap K V) → contains_key k (insert k v m) ≡ true
  contains_key-insert_self k v m = ground (arith, get-insert_self k v m)
