-- ===== src/Signal/Domain/Laws.antt =====
-- What a domain admits, and what its check accepts.
use artificial_intelligence.Base.{
  Result, ap, arith, ok, refl, true, ℕ, ◌%◌, ◌*◌, ◌+◌, ◌-◌, ◌/◌, ◌<◌, ◌↔◌, ◌∙◌, ◌≡◌, ◌≤◌,
}
use native.Mathlib.Nat.{add-mul-mod_self_right, zero-mod}
use artificial_intelligence.BTree.Sets.{contains}
use artificial_intelligence.Contracts.Scalar.{IsU64}
use artificial_intelligence.Contracts.Error.{SchemaViolation}
use artificial_intelligence.Signal.Token.{token_ord}
use artificial_intelligence.Signal.Domain.{
  SignalValue, SignalValues, nil, cons, len, FieldDomain, enumeration, quantized, try_for_each,
  check_measure, check,
}

-- What the types of the source say of a domain, and that the bounds are in order.
abbrev pub IsWellFormed : FieldDomain → Type 0
IsWellFormed (enumeration allowed) = Unit
IsWellFormed (quantized min max step) = (min ≤ max) × (0 < step)
IsWellFormed (FieldDomain.sequence item max_len) = IsU64 max_len × IsWellFormed item

abbrev pub EachValue : (SignalValue → Type 0) → SignalValues → Type 0
EachValue T nil = Unit
EachValue T (cons v vs) = T v × EachValue T vs

-- The values of a domain: the tokens of the set, the numbers a whole number of steps above the
-- lower bound and not above the upper one, the sequences of values of the inner domain up to the
-- length.
abbrev pub Admits : FieldDomain → SignalValue → Type 0
Admits (enumeration allowed) (SignalValue.token t) = contains allowed t ≡ true
Admits (quantized min max step) (SignalValue.measure n) =
    (n ≤ max) × ((k : ℕ) × (n ≡ min + k * step))
Admits (FieldDomain.sequence item max_len) (SignalValue.sequence values) =
    (len values ≤ max_len) × EachValue (λ v. Admits item v) values
Admits _ _ = ⊥

-- Being a whole number of steps above a bound.
pub steps_above :
    (min step n : ℕ)
    → 0 < step
    → ((min ≤ n) × ((n - min) % step ≡ 0)) ↔ ((k : ℕ) × (n ≡ min + k * step))
steps_above min step n h =
    (λ (l, z). ((n - min) / step, omega (arith, l, z)), λ (k, e). (omega (arith, e), multiple k e))
  where
    multiple : (k : ℕ) → n ≡ min + k * step → (n - min) % step ≡ 0
    multiple k e =
        let distance : n - min ≡ 0 + k * step = omega (arith, e) in
        ap (λ m. m % step) distance ∙ add-mul-mod_self_right 0 k step ∙ zero-mod step

check_measure_iff :
    (min max step n : ℕ)
    → 0 < step
    → (check_measure min max step n ≡ ok tt) ↔ ((n ≤ max) × ((k : ℕ) × (n ≡ min + k * step)))
unfolding check_measure
check_measure_iff min max step n h = (
  λ e. (ground arith, (steps_above min step n h).0 (ground arith, ground arith)),
  λ (l, s). ground (arith, (steps_above min step n h).1 s),
)

module _ (f : SignalValue → Result (Unit {0}) SchemaViolation) (T : SignalValue → Type 0)
    (f_iff : (v : SignalValue) → (f v ≡ ok tt) ↔ T v) where
  try_for_each_iff : (vs : SignalValues) → (try_for_each f vs ≡ ok tt) ↔ EachValue T vs
  unfolding try_for_each
  try_for_each_iff nil = (λ h. tt, λ h. refl)
  try_for_each_iff (cons v vs) = (
    λ h. ((f_iff v).0 ground arith, (try_for_each_iff vs).0 ground arith),
    λ (a, b). ground (arith, (f_iff v).1 a, (try_for_each_iff vs).1 b),
  )

-- A well-formed domain accepts exactly the values that it admits.
pub check_iff :
    (d : FieldDomain) (v : SignalValue) → IsWellFormed d → (check d v ≡ ok tt) ↔ Admits d v
unfolding check
check_iff (enumeration allowed) (SignalValue.token t) w = (λ h. ground arith, λ h. ground arith)
check_iff (enumeration allowed) (SignalValue.measure n) w = (λ h. cc, λ h. absurd h)
check_iff (enumeration allowed) (SignalValue.sequence vs) w = (λ h. cc, λ h. absurd h)
check_iff (quantized min max step) (SignalValue.token t) w = (λ h. cc, λ h. absurd h)
check_iff (quantized min max step) (SignalValue.measure n) w = check_measure_iff min max step n w.1
check_iff (quantized min max step) (SignalValue.sequence vs) w = (λ h. cc, λ h. absurd h)
check_iff (FieldDomain.sequence item max_len) (SignalValue.token t) w = (λ h. cc, λ h. absurd h)
check_iff (FieldDomain.sequence item max_len) (SignalValue.measure n) w = (λ h. cc, λ h. absurd h)
check_iff (FieldDomain.sequence item max_len) (SignalValue.sequence vs) w =
    let each =
      try_for_each_iff (λ v. check item v) (λ v. Admits item v) (λ v. check_iff item v w.1) vs in
    (λ h. (ground arith, each.0 (ground arith)), λ (l, a). ground (arith, w.0, each.1 a))
