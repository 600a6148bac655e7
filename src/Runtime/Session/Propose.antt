-- ===== src/Runtime/Session/Propose.antt =====
-- `propose` and `propose_candidates` of session.rs. The identifier source and the computation are
-- states of their own, and what they became comes back beside the result also when it is an error.
use artificial_intelligence.Base.{
  Bool, List, Result, [], err, false, if◌then◌else◌, map_err, ok, ok_or, refuse_if, some, ◌++◌,
  ◌==◌, ◌||◌, ◌∷◌, bytes_ord, ◌>>=◌, ◌>>◌,
}
use artificial_intelligence.BTree.{BTreeMap, contains_key}
use artificial_intelligence.Contracts.Scalar.{DecimalU64, next}
use artificial_intelligence.Contracts.Version.{current}
use artificial_intelligence.Contracts.Identifier.{ProposalId, OperationId, identifier_ord}
use artificial_intelligence.Contracts.Error.{FoundationError}
use artificial_intelligence.Contracts.Error.Failures.{
  runtime_inactive, inference_unavailable, duplicate_proposal_id, sequence_exhausted,
}
use artificial_intelligence.Contracts.Envelope.{ProposalEnvelope}
use artificial_intelligence.Runtime.Activation.{may_initiate}
use artificial_intelligence.Runtime.Ports.{PortError, Candidate, IdentifierGeneration, Inference}
use artificial_intelligence.Runtime.Session.{RuntimeSession, port_failure}
use artificial_intelligence.Runtime.Session.Conclude.{conclude}

module _ {P : Type 0} where
  -- `staged.iter().any(|envelope| envelope.proposal_id == proposal_id)`
  abbrev pub is_staged : ProposalId → List (ProposalEnvelope P) → Bool
  is_staged id [] = false
  is_staged id (e ∷ es) = e.proposal_id == id || is_staged id es

  -- The envelope that the session mints for a candidate.
  abbrev pub mint : OperationId → ProposalId → DecimalU64 → Candidate P → ProposalEnvelope P
  mint op id sequence candidate = record {
    contract_version = current;
    operation_id = op;
    proposal_id = id;
    sequence = sequence;
    requested_capability = candidate.requested_capability;
    proposal = candidate.proposal;
  }

  -- The body of the staging loop once the identifier source has answered.
  abbrev pub admit_identifier :
      OperationId
      → BTreeMap ProposalId (ProposalEnvelope P)
      → DecimalU64
      → List (ProposalEnvelope P)
      → Result ProposalId PortError
      → Result (ProposalId × DecimalU64) FoundationError
  admit_identifier op pending sequence staged answer = do
    id ← map_err (port_failure (some op)) answer
    refuse_if (contains_key id pending || is_staged id staged) (duplicate_proposal_id (some op) id)
    following ← ok_or (next sequence) (sequence_exhausted (some op))
    ok (id, following)

  -- The staging loop: it reads the entries of the session and writes none of its state.
  unfoldable pub stage :
      {G : Type 0} ⦃ids : IdentifierGeneration G⦄
      → OperationId
      → BTreeMap ProposalId (ProposalEnvelope P)
      → DecimalU64
      → List (ProposalEnvelope P)
      → List (Candidate P)
      → G
      → Result (DecimalU64 × List (ProposalEnvelope P)) FoundationError × G
  stage op pending sequence staged [] g = (ok (sequence, staged), g)
  stage ⦃ids⦄ op pending sequence staged (candidate ∷ rest) g =
      let (answer, g') = ids.next_proposal_id g in
      elim (admit_identifier op pending sequence staged answer) [
        | err e ↦ (err e, g')
        | ok (id, following) ↦
            stage op pending following (staged ++ mint op id following candidate ∷ []) rest g'
      ]

  -- The staging loop and what follows it.
  abbrev pub propose_active :
      {G : Type 0} ⦃ids : IdentifierGeneration G⦄
      → OperationId
      → List (Candidate P)
      → G
      → RuntimeSession P
      → Result (List ProposalId) FoundationError × G × RuntimeSession P
  propose_active op candidates g s =
      let (staging, g') = stage op s.pending s.sequence [] candidates g in
      let (r, t) = conclude op staging s in (r, g', t)

  unfoldable pub propose_candidates :
      {G : Type 0} ⦃ids : IdentifierGeneration G⦄
      → OperationId
      → List (Candidate P)
      → G
      → RuntimeSession P
      → Result (List ProposalId) FoundationError × G × RuntimeSession P
  propose_candidates op candidates g s =
      if may_initiate s.activation
      then propose_active op candidates g s
      else (err (runtime_inactive (some op)), g, s)

  -- `propose` once the computation has answered.
  abbrev pub propose_answer :
      {I G : Type 0} ⦃ids : IdentifierGeneration G⦄
      → OperationId
      → Result (List (Candidate P)) PortError × I
      → G
      → RuntimeSession P
      → Result (List ProposalId) FoundationError × I × G × RuntimeSession P
  propose_answer op (err e, i) g s = (err (inference_unavailable (some op)), i, g, s)
  propose_answer op (ok candidates, i) g s =
      let (r, g', t) = propose_candidates op candidates g s in (r, i, g', t)

  unfoldable pub propose :
      {I Q G : Type 0} ⦃inf : Inference I Q P⦄ ⦃ids : IdentifierGeneration G⦄
      → OperationId
      → Q
      → I
      → G
      → RuntimeSession P
      → Result (List ProposalId) FoundationError × I × G × RuntimeSession P
  propose ⦃inf⦄ ⦃ids⦄ op request i g s =
      if may_initiate s.activation
      then propose_answer op (inf.propose i request) g s
      else (err (runtime_inactive (some op)), i, g, s)
