-- ===== src/Tests/Contracts.antt =====
-- The theorems on the contract's values applied to concrete texts and versions.

use artificial_intelligence.Contracts.Version.{ContractVersion}
use artificial_intelligence.Contracts.Identifier.{Identifier, IdentifierKind, from_bytes}
use artificial_intelligence.Tests.Fixtures.{repeat}

abbrev later : ContractVersion
later = record { major = 0; minor = 2; patch = 7 }

abbrev some_digest : Identifier IdentifierKind.sha256
some_digest = from_bytes (repeat 32 171)
