-- ===== src/BTree/Sets.antt =====
-- `BTreeSet`: an ordered map whose values carry nothing.
use artificial_intelligence.Base.{
  Bool, List, Ord, [], ap, append-nil, append_assoc, arith, false, if◌then◌else◌, not, refl, sym,
  ◌&&◌, ◌++◌, ◌==◌, ◌||◌, ◌∙◌, ◌∷◌, ◌≡◌, bytes_ord,
}
use artificial_intelligence.BTree.{BTreeMap, keys, get, insert, contains_key}
use artificial_intelligence.BTree.Sorted.{IsSorted, insert-IsSorted, insert_last, Below-middle}
use artificial_intelligence.BTree.Lookup.{get-insert}

abbrev pub BTreeSet {ℓ} : Type ℓ → Type ℓ
BTreeSet K = BTreeMap K (Unit {0})

module _ {ℓ} {K : Type ℓ} ⦃o : Ord K⦄ where
  -- `BTreeSet::contains`
  abbrev pub contains : BTreeSet K → K → Bool
  contains s k = contains_key k s

  -- `collect::<BTreeSet<_>>()` of an iterator, into the set collected so far.
  unfoldable pub collect : BTreeSet K → List K → BTreeSet K
  collect s [] = s
  collect s (k ∷ ks) = collect (insert k tt s) ks

  -- `BTreeSet::difference`
  unfoldable pub difference : BTreeSet K → BTreeSet K → BTreeSet K
  difference [] t = []
  difference ((k, u) ∷ s) t =
      let rest = difference s t in if contains t k then rest else (k, u) ∷ rest

  pub collect-IsSorted : (s : BTreeSet K) (ks : List K) → IsSorted s → IsSorted (collect s ks)
  unfolding collect
  collect-IsSorted s [] h = h
  collect-IsSorted s (k ∷ ks) h = collect-IsSorted (insert k tt s) ks (insert-IsSorted k tt s h)

  -- The membership test on a list.
  abbrev pub mem : K → List K → Bool
  mem k [] = false
  mem k (j ∷ ks) = j == k || mem k ks

  pub contains-collect :
      (s : BTreeSet K) (ks : List K) (k : K)
      → contains (collect s ks) k ≡ (contains s k || mem k ks)
  unfolding collect
  contains-collect s [] k = ground arith
  contains-collect s (j ∷ ks) k =
      ground (arith, contains-collect (insert j tt s) ks k, get-insert j k tt s)

  -- Collecting the rest of a sorted set onto its beginning gives the set.
  collect-keys_onto : (s t : BTreeSet K) → IsSorted (s ++ t) → collect s (keys t) ≡ s ++ t
  unfolding collect
  collect-keys_onto s [] h = sym (append-nil s)
  collect-keys_onto s ((k, u) ∷ t) h =
      ap (λ a. collect a (keys t)) (insert_last k tt s (Below-middle k u s t h))
      ∙ collect-keys_onto (s ++ (k, u) ∷ []) t (rw append_assoc h)
      ∙ append_assoc s ((k, u) ∷ []) t

  -- A sorted set is collected again from its own items.
  pub collect-keys : (s : BTreeSet K) → IsSorted s → collect [] (keys s) ≡ s
  collect-keys s h = collect-keys_onto [] s h

  pub contains-difference :
      (s t : BTreeSet K) (k : K)
      → contains (difference s t) k ≡ (contains s k && not (contains t k))
  unfolding difference get
  contains-difference [] t k = refl
  contains-difference ((j, u) ∷ s) t k = ground (arith, contains-difference s t k, o.eq_of_cmp j k)

  -- A set is empty exactly when it contains nothing.
  pub eq-nil_of_contains : (s : BTreeSet K) → ((k : K) → contains s k ≡ false) → s ≡ []
  unfolding get
  eq-nil_of_contains [] h = refl
  eq-nil_of_contains ((j, u) ∷ s) h = ground (arith, h j, o.cmp_refl j)

  pub mem-keys : (s : BTreeSet K) (k : K) → mem k (keys s) ≡ contains s k
  unfolding get
  mem-keys [] k = refl
  mem-keys ((j, u) ∷ s) k = ground (arith, mem-keys s k)

  pub contains-empty : (k : K) → contains [] k ≡ false
  unfolding get
  contains-empty k = refl

  -- What is collected from a list is what the list holds.
  pub contains-collect_new : (ks : List K) (k : K) → contains (collect [] ks) k ≡ mem k ks
  contains-collect_new ks k = ground (arith, contains-collect [] ks k, contains-empty k)
