-- ===== src/Host/Violation.antt =====
-- packages/aiai-contracts/src/violation.ts: the exception of a value that is not canonical. Its
-- message, a fixed text of each throw, is left out.
pub data ContractViolationReason : Type 0 where
  non_canonical_capability non_canonical_decimal : ContractViolationReason
  non_canonical_identifier non_canonical_version : ContractViolationReason

pub record ContractViolation : Type 0 where
  pub reason : ContractViolationReason

abbrev pub contract_violation : ContractViolationReason → ContractViolation
contract_violation reason = record { reason = reason }
