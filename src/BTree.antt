-- ===== src/BTree.antt =====
-- The ordered collections of the standard library as the program uses them: a `BTreeMap` is the
-- list of its entries in key order, a `BTreeSet` is the list of its items in order. Child modules:
-- the laws of lookup, the order of the keys, and the sets.
pub mod Lookup
pub mod Sorted
pub mod Sets
pub mod Entries
use artificial_intelligence.Base.{
  ℕ, Bool, true, false, Option, none, some, List, [], ◌∷◌, map, Ordering, Ord, ◌==◌, is_some,
  if◌then◌else◌,
}
use Prim.Native.Nat.Ordering.{lt, eq, gt}

abbrev pub BTreeMap {ℓ κ} : Type ℓ → Type κ → Type (ℓ ⊔ κ)
BTreeMap K V = List (K × V)

-- `BTreeMap::keys` and `BTreeMap::values`, in key order.
module _ {ℓ κ} {K : Type ℓ} {V : Type κ} where
  abbrev pub keys : BTreeMap K V → List K
  keys [] = []
  keys ((k, v) ∷ m) = k ∷ keys m

  abbrev pub values : BTreeMap K V → List V
  values [] = []
  values ((k, v) ∷ m) = v ∷ values m

module _ {ℓ κ} {K : Type ℓ} {V : Type κ} ⦃o : Ord K⦄ where
  -- `BTreeMap::get`
  unfoldable pub get : K → BTreeMap K V → Option V
  get k [] = none
  get k ((j, v) ∷ m) = if j == k then some v else get k m

  -- `BTreeMap::contains_key`
  abbrev pub contains_key : K → BTreeMap K V → Bool
  contains_key k m = is_some (get k m)

  -- `BTreeMap::insert`: the entry goes to its place in the order, and replaces one of the same key.
  unfoldable pub insert : K → V → BTreeMap K V → BTreeMap K V
  insert k v [] = (k, v) ∷ []
  insert k v ((j, w) ∷ m) =
      let rest = insert k v m in
      elim (o.cmp k j) [ lt ↦ (k, v) ∷ (j, w) ∷ m | eq ↦ (k, v) ∷ m | gt ↦ (j, w) ∷ rest ]

  -- `BTreeMap::remove`
  unfoldable pub remove : K → BTreeMap K V → BTreeMap K V
  remove k [] = []
  remove k ((j, w) ∷ m) = let rest = remove k m in if j == k then rest else (j, w) ∷ rest
