-- ===== src/Base/Order.antt =====
-- The bound `Ord` of Rust with the laws that the trait asks of `cmp`, whose `==` is read as `≡`;
-- the derived order of a one-field struct and the lexicographic order of byte strings.
use Prim.Native.Nat.{ℕ, compare, Ordering}
use Prim.Native.Nat.Ordering.{lt, eq, gt}
use mathlib.Core.Path.{◌≡◌, refl}
use mathlib.Core.Bool.{Bool, true, false}
use mathlib.Core.List.{List, [], ◌∷◌}
use native.Mathlib.Omega.{arith}

pub record Ord {ℓ} (K : Type ℓ) : Type ℓ where
  pub cmp : K → K → Ordering
  pub cmp_refl : (a : K) → cmp a a ≡ eq
  pub eq_of_cmp : (a b : K) → cmp a b ≡ eq → a ≡ b
  pub gt_of_lt : (a b : K) → cmp a b ≡ lt → cmp b a ≡ gt
  pub lt_of_gt : (a b : K) → cmp a b ≡ gt → cmp b a ≡ lt
  pub lt_trans : (a b c : K) → cmp a b ≡ lt → cmp b c ≡ lt → cmp a c ≡ lt

infix 50 ◌==◌ ◌≺◌
abbrev pub ◌==◌ {ℓ} : {K : Type ℓ} ⦃o : Ord K⦄ → K → K → Bool
◌==◌ ⦃o⦄ a b = elim (o.cmp a b) [ eq ↦ true | _ ↦ false ]

abbrev pub ◌≺◌ {ℓ} : {K : Type ℓ} ⦃order : Ord K⦄ → K → K → Type 0
◌≺◌ ⦃order⦄ x y = order.cmp x y ≡ lt

module _ {ℓ} {K : Type ℓ} ⦃o : Ord K⦄ where
  pub ==_refl : (a : K) → (a == a) ≡ true
  ==_refl a = ground (arith, o.cmp_refl a)

  pub eq_of_== : (a b : K) → (a == b) ≡ true → a ≡ b
  eq_of_== a b h = ground (arith, o.eq_of_cmp a b)

  pub ==_comm : (a b : K) → (a == b) ≡ (b == a)
  ==_comm a b =
      ground (arith, o.eq_of_cmp a b, o.eq_of_cmp b a, o.cmp_refl a, o.gt_of_lt a b, o.lt_of_gt a b)

-- `#[derive(Ord)]` on a struct with one field compares the field.
abbrev pub derive_ord {ℓ κ} :
    {A : Type ℓ} {K : Type κ} → Ord K → (f : A → K) → ((a b : A) → f a ≡ f b → a ≡ b) → Ord A
derive_ord o f inj = record {
  cmp = λ a b. o.cmp (f a) (f b);
  cmp_refl = λ a. o.cmp_refl (f a);
  eq_of_cmp = λ a b h. inj a b (o.eq_of_cmp (f a) (f b) h);
  gt_of_lt = λ a b. o.gt_of_lt (f a) (f b);
  lt_of_gt = λ a b. o.lt_of_gt (f a) (f b);
  lt_trans = λ a b c. o.lt_trans (f a) (f b) (f c);
}

-- The order of byte strings: the first difference decides, a proper prefix is smaller.
abbrev pub cmp_bytes : List ℕ → List ℕ → Ordering
cmp_bytes [] [] = eq
cmp_bytes [] (b ∷ y) = lt
cmp_bytes (a ∷ x) [] = gt
cmp_bytes (a ∷ x) (b ∷ y) =
    let rest = cmp_bytes x y in elim (compare a b) [ lt ↦ lt | eq ↦ rest | gt ↦ gt ]

pub cmp_bytes_refl : (x : List ℕ) → cmp_bytes x x ≡ eq
cmp_bytes_refl [] = refl
cmp_bytes_refl (a ∷ x) = ground (arith, cmp_bytes_refl x)

pub eq_of_cmp_bytes : (x y : List ℕ) → cmp_bytes x y ≡ eq → x ≡ y
eq_of_cmp_bytes [] [] h = refl
eq_of_cmp_bytes [] (b ∷ y) h = cc
eq_of_cmp_bytes (a ∷ x) [] h = cc
eq_of_cmp_bytes (a ∷ x) (b ∷ y) h = ground (arith, eq_of_cmp_bytes x y)

pub gt_of_lt_bytes : (x y : List ℕ) → cmp_bytes x y ≡ lt → cmp_bytes y x ≡ gt
gt_of_lt_bytes [] [] h = cc
gt_of_lt_bytes [] (b ∷ y) h = refl
gt_of_lt_bytes (a ∷ x) [] h = cc
gt_of_lt_bytes (a ∷ x) (b ∷ y) h = ground (arith, gt_of_lt_bytes x y)

pub lt_of_gt_bytes : (x y : List ℕ) → cmp_bytes x y ≡ gt → cmp_bytes y x ≡ lt
lt_of_gt_bytes [] [] h = cc
lt_of_gt_bytes [] (b ∷ y) h = cc
lt_of_gt_bytes (a ∷ x) [] h = refl
lt_of_gt_bytes (a ∷ x) (b ∷ y) h = ground (arith, lt_of_gt_bytes x y)

pub lt_trans_bytes : (x y z : List ℕ) → cmp_bytes x y ≡ lt → cmp_bytes y z ≡ lt → cmp_bytes x z ≡ lt
lt_trans_bytes [] [] z h k = cc
lt_trans_bytes [] (b ∷ y) [] h k = cc
lt_trans_bytes [] (b ∷ y) (c ∷ z) h k = refl
lt_trans_bytes (a ∷ x) [] z h k = cc
lt_trans_bytes (a ∷ x) (b ∷ y) [] h k = cc
lt_trans_bytes (a ∷ x) (b ∷ y) (c ∷ z) h k = ground (arith, lt_trans_bytes x y z)

instance abbrev pub bytes_ord : Ord (List ℕ)
bytes_ord = record {
  cmp = cmp_bytes;
  cmp_refl = cmp_bytes_refl;
  eq_of_cmp = eq_of_cmp_bytes;
  gt_of_lt = gt_of_lt_bytes;
  lt_of_gt = lt_of_gt_bytes;
  lt_trans = lt_trans_bytes;
}
