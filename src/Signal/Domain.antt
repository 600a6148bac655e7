-- ===== src/Signal/Domain.antt =====
-- crates/aiai-signal/src/domain.rs: the bounded sets of values that a field may carry, the check
-- without repair and the generalization with it.
pub mod Laws
pub mod Generalizing
use artificial_intelligence.Base.{
  List, Result, [], eqb, err, if◌then◌else◌, ltb, not, ok, refuse_if, suc, zero, ℕ, ◌%◌, ◌-◌, ◌>>◌,
  ◌||◌, ◌>>=◌,
}
use artificial_intelligence.BTree.Sets.{BTreeSet, contains, collect}
use artificial_intelligence.Contracts.Decimal.{u64_max}
use artificial_intelligence.Contracts.Scalar.{DecimalU64}
use artificial_intelligence.Contracts.Error.{SchemaViolation}
use artificial_intelligence.Contracts.Error.SchemaViolation.{
  value_out_of_domain, excess_precision, excess_cardinality, non_canonical_encoding,
}
use artificial_intelligence.Signal.Token.{Token, token_ord}

-- `SignalValues` is the source's `Vec<SignalValue>`.
mutual
  pub data SignalValue : Type 0 where
    token : Token → SignalValue
    measure : DecimalU64 → SignalValue
    sequence : SignalValues → SignalValue

  pub data SignalValues : Type 0 where
    nil : SignalValues
    cons : SignalValue → SignalValues → SignalValues

-- `values.len()`
abbrev pub len : SignalValues → ℕ
len nil = 0
len (cons v vs) = suc (len vs)

pub data FieldDomain : Type 0 where
  enumeration : BTreeSet Token → FieldDomain
  quantized : DecimalU64 → DecimalU64 → ℕ → FieldDomain
  sequence : FieldDomain → DecimalU64 → FieldDomain

-- The source's constructor functions `enumeration`, `quantized` and `sequence`.
abbrev pub enumeration_of : List Token → FieldDomain
enumeration_of allowed = enumeration (collect [] allowed)

abbrev pub quantized_of : ℕ → ℕ → ℕ → FieldDomain
quantized_of min max step = quantized min max step

abbrev pub sequence_of : FieldDomain → ℕ → FieldDomain
sequence_of item max_len = FieldDomain.sequence item max_len

-- `values.iter().try_for_each(f)`
unfoldable pub try_for_each :
    (SignalValue → Result (Unit {0}) SchemaViolation)
    → SignalValues
    → Result (Unit {0}) SchemaViolation
try_for_each f nil = ok tt
try_for_each f (cons v vs) = let rest = try_for_each f vs in f v >> rest

unfoldable pub check_measure :
    DecimalU64 → DecimalU64 → ℕ → DecimalU64 → Result (Unit {0}) SchemaViolation
check_measure min max step raw = do
  refuse_if (ltb raw min || ltb max raw) value_out_of_domain
  refuse_if (not (eqb ((raw - min) % step) 0)) excess_precision

-- `FieldDomain::check`
unfoldable pub check : FieldDomain → SignalValue → Result (Unit {0}) SchemaViolation
unfolding check_measure try_for_each
check (enumeration allowed) (SignalValue.token t) =
    if contains allowed t then ok tt else err value_out_of_domain
check (quantized min max step) (SignalValue.measure raw) = check_measure min max step raw
check (sequence item max_len) (SignalValue.sequence values) = do
  refuse_if (ltb u64_max (len values)) excess_cardinality
  refuse_if (ltb max_len (len values)) excess_cardinality
  try_for_each (λ v. check item v) values
check _ _ = err non_canonical_encoding

-- Where a computation ends without a value: with an error, or in a panic of the standard library.
pub data Halt (E : Type 0) : Type 0 where
  refused : E → Halt E
  panicked : Halt E

-- `Ord::clamp`, which panics on bounds in the wrong order.
unfoldable pub clamp : ℕ → ℕ → ℕ → Result ℕ (Halt SchemaViolation)
clamp min max n =
    if ltb max min
    then err panicked
    else if ltb n min
    then ok min
    else if ltb max n
    then ok max
    else ok n

unfoldable pub generalize_measure :
    DecimalU64 → DecimalU64 → ℕ → DecimalU64 → Result SignalValue (Halt SchemaViolation)
unfolding clamp
generalize_measure min max step raw = do
  clamped ← clamp min max raw
  ok (SignalValue.measure (clamped - (clamped - min) % step))

-- `values.iter().take(limit).map(f).collect::<Result<Vec<_>, _>>()`
unfoldable pub collect_values :
    (SignalValue → Result SignalValue (Halt SchemaViolation))
    → ℕ
    → SignalValues
    → Result SignalValues (Halt SchemaViolation)
collect_values f zero vs = ok nil
collect_values f (suc n) nil = ok nil
collect_values f (suc n) (cons v vs) =
    let others = collect_values f n vs in do w ← f v; ws ← others; ok (cons w ws)

-- `FieldDomain::generalize`. A list has at most `usize::MAX` items, so that truncation to the
-- length, or to `usize::MAX` where the length does not fit, is truncation to the length.
unfoldable pub generalize : FieldDomain → SignalValue → Result SignalValue (Halt SchemaViolation)
unfolding generalize_measure collect_values
generalize (enumeration allowed) (SignalValue.token t) =
    if contains allowed t then ok (SignalValue.token t) else err (refused value_out_of_domain)
generalize (quantized min max step) (SignalValue.measure raw) = generalize_measure min max step raw
generalize (sequence item max_len) (SignalValue.sequence values) = do
  ws ← collect_values (λ v. generalize item v) max_len values
  ok (SignalValue.sequence ws)
generalize _ _ = err (refused non_canonical_encoding)
