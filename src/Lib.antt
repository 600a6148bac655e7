-- ===== src/Lib.antt =====
-- The verification library of the foundation's Rust crates and of the TypeScript package that
-- mirrors their contract: the contract values that every participant of the protocol exchanges, the
-- runtime session that produces proposals, has an authority decide them and turns admissions into
-- effect requests, the behaviour signals that a client abstracts from observations and a receiver
-- validates, and a host's own reading and writing of all that crosses the boundary.
--
-- The parts and their files
--   Base, BTree        the shared helpers: Boolean tests on numbers, results and their `?`, the
--                      order interface, and `BTreeMap` and `BTreeSet` as sorted association lists.
--   Contracts          crates/aiai-contracts/src. Decimal and Scalar: the u64 counters carried as
--                      decimal text (scalar.rs). Version: `ContractVersion`, its text and
--                      `accepts_provider` (version.rs). Handshake: `require_compatible_contract`
--                      (lib.rs). Names and Capability: canonical names (capability.rs).
--                      Identifier: the types that `identifier_type!` generates, as one type over
--                      the macro's arguments (identifier.rs). Error: codes, details and the
--                      constructors of `FoundationError` (error.rs). Envelope: the envelopes
--                      (envelope.rs). Canonical: `canonical_json` and its check of JSON values
--                      (canonical.rs). Wire: the hand-written `Serialize` and `Deserialize`, over
--                      what each file supplies; the texts of the contract's types are in Texts,
--                      and Exact is on reading them.
--   Runtime            crates/aiai-runtime/src. Activation, Continuity, Scope: the state machine,
--                      the subject's binding, the delegation scope. Ports: the four traits, as
--                      interfaces. Action: state passing for `&mut self` methods that may fail.
--                      Session: `RuntimeSession` (session.rs), with child modules Snapshot
--                      (snapshot.rs, `snapshot`, `restore`), Propose (`propose`,
--                      `propose_candidates`, whose commit is in Conclude), Admit (admission.rs, `admit`, `dispatch`,
--                      `release_decided`) and Turn (`turn_ok`). The other child modules are proofs:
--                      Invariant, Restoring, Transaction, Batch, Inferring, Authority, Dispatching,
--                      Failing, Succeeding, Effecting, Commuting, Reporting, Identity, and, over
--                      sequences of calls, History, Retrying, Emission and Boundary. Ledger: a
--                      session's contract on its proposals, without the session, with Settling and
--                      Keeping on what follows from the contract, and Refining and Deciding on the
--                      calls as its steps. Display: the messages of the crate's errors.
--   Signal             crates/aiai-signal/src. Token (token.rs), Domain: `FieldDomain`, `check` and
--                      `generalize` (domain.rs), Schema (schema.rs, signal.rs), Transform
--                      (transform.rs), Validate (validate.rs). Proofs: Domain/Laws,
--                      Domain/Generalizing, Transform/Soundness, Transform/Carrying,
--                      Transform/Loops, Transform/Fields, Transform/Succeeding,
--                      Transform/Idempotence, Transform/Forgetting, Validate/Conformance. Wire and
--                      Display: the token's text on the wire and the message of a rejection.
--   Host               packages/aiai-contracts/src, the TypeScript package of a host. Scalar,
--                      Version, Capability, Identifier, Activation, Violation, Canonical and Error
--                      model the files of those names, Error/Decode both directions of a failure's
--                      wire form. Envelope: the envelopes and the readers of their members, with
--                      Decode, Records and Encode (envelope.ts). Text: one text as UTF-8 bytes and as
--                      UTF-16 code units. Canonical/Write is the writer of canonical.ts, with
--                      Canonical/Order and Canonical/Encodable on it. The modules named Mirror,
--                      Version/Handshake and Canonical/Reordered compare the package with the crates; Laws, Readers,
--                      RoundTrip and Turns are on round trips, and those named Closed,
--                      Envelope/Carried and Envelope/Reports on what is taken and refused.
--   Tests              concrete sessions, ports and values, and the theorems applied to them.
--
-- How the parts interact: the crates write what a host reads and read what it writes, which the
-- comparison of Host with Contracts and Runtime is about. A session holds a binding, a scope, an
-- activation state, two counters and the pending proposals by identifier. Its methods call the
-- ports, which a product implements: each port is a record of functions taken as an instance
-- argument, and the theorems do not choose one. A method on `&mut self` is a function from the
-- session to a result and the session after it, the error case included: what was written before
-- an error stays written. A port that a method borrows mutably is passed and returned in the same
-- way. A clock or an authority, which a method only reads, is passed as it stands at the call, with
-- whatever state it keeps inside; each call of a history brings its own, so that its answers may
-- change from call to call, also with what it was asked before.
--
-- Conventions: a `u64` is a natural number, and `IsU64` says where it must fit; the source adds only
-- through `checked_add`, which is modelled with its overflow. A string is the list of its bytes.
-- The loops are structural recursion over the list or map that the source iterates. Printing a
-- number uses fuel one above the number, which suffices since each step divides it by ten.
-- `generalize` calls `clamp`, which panics on bounds in the wrong order: its model returns `Halt`, a
-- violation or the panic. Payload types are parameters. `Admitted` is moved and never copied in the
-- source: the histories of Runtime/Session/Boundary account for that by taking a dispatched
-- admission out of the caller's hands.
--
-- The crates `serde`, `serde_json` and `unicode_normalization` are parameters: the calls of
-- `Serializer` and `Deserializer`, the conversion to a JSON value and its printing with their
-- errors, and the normalization of a text. In the TypeScript package the platform's `JSON.parse`,
-- `JSON.stringify`, `TextDecoder` and `normalize` are parameters; a thrown exception is an error, a
-- string union the strings themselves, a `bigint` an integer, and a number of a version what
-- `isSafeInteger` shows.
--
-- Not modelled: the derived serde implementations, which are generated code; the re-exports of the
-- crates' lib.rs; the WebLLM package, which is asynchronous glue to a third-party engine beside the
-- contract; tests, fixtures, scripts and probes.
pub mod Base
pub mod BTree
pub mod Contracts
pub mod Host
pub mod Runtime
pub mod Signal
pub mod Tests
