-- ===== src/BTree/Sorted.antt =====
-- The invariant of an ordered map: its keys ascend strictly. Every operation keeps it, and a map
-- is rebuilt by inserting its own entries in any accumulated order.
use artificial_intelligence.Base.{Ord, [], arith, none, refl, ◌++◌, ◌∷◌, ◌≡◌, ◌≺◌}
use artificial_intelligence.BTree.Lookup.{remove-absent}
use artificial_intelligence.BTree.{BTreeMap, get, insert, remove}

module _ {ℓ κ} {K : Type ℓ} {V : Type κ} ⦃o : Ord K⦄ where
  -- Every key of the entries lies above `k`.
  abbrev pub Above : K → BTreeMap K V → Type 0
  Above k [] = Unit
  Above k ((j, w) ∷ m) = (k ≺ j) × Above k m

  abbrev pub IsSorted : BTreeMap K V → Type 0
  IsSorted [] = Unit
  IsSorted ((k, v) ∷ m) = Above k m × IsSorted m

  Above-trans : (k j : K) (m : BTreeMap K V) → k ≺ j → Above j m → Above k m
  Above-trans k j [] h a = tt
  Above-trans k j ((i, w) ∷ m) h a = (o.lt_trans k j i h a.0, Above-trans k j m h a.1)

  Above-insert : (b k : K) (v : V) (m : BTreeMap K V) → b ≺ k → Above b m → Above b (insert k v m)
  unfolding insert
  Above-insert b k v [] h a = (h, tt)
  Above-insert b k v ((j, w) ∷ m) h a = ground (arith, Above-insert b k v m)

  pub insert-IsSorted : (k : K) (v : V) (m : BTreeMap K V) → IsSorted m → IsSorted (insert k v m)
  unfolding insert
  insert-IsSorted k v [] s = (tt, tt)
  insert-IsSorted k v ((j, w) ∷ m) s = ground (
    arith,
    insert-IsSorted k v m s.1,
    Above-insert j k v m,
    Above-trans k j m,
    o.eq_of_cmp k j,
    o.lt_of_gt k j,
  )

  Above-remove : (b k : K) (m : BTreeMap K V) → Above b m → Above b (remove k m)
  unfolding remove
  Above-remove b k [] a = tt
  Above-remove b k ((j, w) ∷ m) a = ground (arith, Above-remove b k m a.1)

  pub remove-IsSorted : (k : K) (m : BTreeMap K V) → IsSorted m → IsSorted (remove k m)
  unfolding remove
  remove-IsSorted k [] s = tt
  remove-IsSorted k ((j, w) ∷ m) s = ground (arith, remove-IsSorted k m s.1, Above-remove j k m s.0)

  pub get-Above : (k : K) (m : BTreeMap K V) → Above k m → get k m ≡ none
  unfolding get
  get-Above k [] a = refl
  get-Above k ((j, w) ∷ m) a = ground (arith, get-Above k m a.1, o.eq_of_cmp j k, o.cmp_refl j)

  -- Every key of the entries lies below `k`.
  abbrev pub Below : K → BTreeMap K V → Type 0
  Below k [] = Unit
  Below k ((j, w) ∷ m) = (j ≺ k) × Below k m

  pub get-Below : (k : K) (m : BTreeMap K V) → Below k m → get k m ≡ none
  unfolding get
  get-Below k [] b = refl
  get-Below k ((j, w) ∷ m) b = ground (arith, get-Below k m b.1)

  -- An entry above all others is inserted at the end.
  pub insert_last : (k : K) (v : V) (m : BTreeMap K V) → Below k m → insert k v m ≡ m ++ (k, v) ∷ []
  unfolding insert
  insert_last k v [] b = refl
  insert_last k v ((j, w) ∷ m) b = ground (arith, insert_last k v m b.1, o.gt_of_lt j k b.0)

  Above-middle : (b k : K) (v : V) (m r : BTreeMap K V) → Above b (m ++ (k, v) ∷ r) → b ≺ k
  Above-middle b k v [] r a = a.0
  Above-middle b k v ((j, w) ∷ m) r a = Above-middle b k v m r a.1

  -- In a sorted list of entries all those before an entry have smaller keys.
  pub Below-middle : (k : K) (v : V) (m r : BTreeMap K V) → IsSorted (m ++ (k, v) ∷ r) → Below k m
  Below-middle k v [] r s = tt
  Below-middle k v ((j, w) ∷ m) r s = (Above-middle j k v m r s.0, Below-middle k v m r s.1)

  -- The entry at the head is found, and removing it leaves the tail.
  pub remove_head :
      (k : K) (v : V) (m : BTreeMap K V) → IsSorted ((k, v) ∷ m) → remove k ((k, v) ∷ m) ≡ m
  unfolding remove
  remove_head k v m s = ground (arith, o.cmp_refl k, remove-absent k m (get-Above k m s.0))
