-- ===== src/Signal/Display.antt =====
-- `Display` of the rejection of crates/aiai-signal/src/transform.rs.
use artificial_intelligence.Base.{Bytes, codes, none, some, ◌++◌}
use artificial_intelligence.Contracts.Error.Display.{show_violation}
use artificial_intelligence.Signal.Transform.{TransformRejection}

unfoldable pub show_rejection : TransformRejection → Bytes
unfolding show_violation
show_rejection rejection = elim rejection.field [
  | some field ↦ show_violation rejection.violation ++ codes " at field " ++ field.as_str
  | none ↦ show_violation rejection.violation
]
