-- ===== src/Contracts/Error/Display.antt =====
-- The `Display` implementations of error.rs: what a reader sees of an error.
use artificial_intelligence.Base.{Bytes}
use artificial_intelligence.Contracts.Error.{
  FailureKind, ContextPort, SchemaViolation, FoundationError, code_str, kind_str, port_str,
  violation_str,
}

unfoldable pub show_kind : FailureKind → Bytes
unfolding kind_str
show_kind k = kind_str k

unfoldable pub show_port : ContextPort → Bytes
unfolding port_str
show_port p = port_str p

unfoldable pub show_violation : SchemaViolation → Bytes
unfolding violation_str
show_violation v = violation_str v

unfoldable pub to_string : FoundationError → Bytes
unfolding code_str
to_string error = code_str error.code
