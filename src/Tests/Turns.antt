-- ===== src/Tests/Turns.antt =====
-- A turn's report as the TypeScript package exchanges it, and the theorems on turns at it. The
-- payloads are texts.
use artificial_intelligence.Base.{[], arith, codes, err, ok, refl, ◌∷◌}
use artificial_intelligence.Host.Text.{Units}
use artificial_intelligence.Host.Scalar.{pos}
use artificial_intelligence.Host.Identifier.{is_identifier}
use artificial_intelligence.Host.Capability.{is_capability_name}
use artificial_intelligence.Host.Canonical.{
  CanonicalJsonValue, string, array, object, nil, element, end, entry,
}
use artificial_intelligence.Host.Envelope.{PayloadDecoder, ProposalEnvelope, TurnOk, turn_ok}
use artificial_intelligence.Host.Envelope.Decode.{decode_turn_outcome}
use artificial_intelligence.Host.Envelope.Encode.{encode_turn_outcome}
use artificial_intelligence.Host.Envelope.RoundTrip.{Survives}
use artificial_intelligence.Host.Envelope.Turns.{IsTurn, outcome-Survives}
use artificial_intelligence.Host.Envelope.Closed.{Closes}
use artificial_intelligence.Host.Envelope.Reports.{Reports, decode_turn_outcome-Closes}

-- A product whose payloads are texts, and which throws at any other value.
abbrev text_decoder : PayloadDecoder (Unit {0}) Units
text_decoder (string text) = ok text
text_decoder _ = err tt

abbrev suggestion : ProposalEnvelope Units
suggestion = record {
  contract_version = record { major = 0; minor = 2; patch = 0 };
  operation_id = codes "op_0123456789abcdef0123456789abcdef";
  proposal_id = codes "prp_00112233445566778899aabbccddeeff";
  sequence = pos 7;
  requested_capability = codes "message";
  proposal = codes "hello";
}

abbrev one_proposal : TurnOk Units Units
one_proposal = record {
  contract_version = record { major = 0; minor = 2; patch = 0 };
  operation_id = codes "op_0123456789abcdef0123456789abcdef";
  session_revision = pos 3;
  proposals = suggestion ∷ [];
  effect_requests = [];
}

one_proposal-IsTurn : IsTurn string text_decoder string text_decoder one_proposal
unfolding is_identifier is_capability_name
one_proposal-IsTurn = record {
  version = record { major_safe = omega arith; minor_safe = omega arith; patch_safe = omega arith };
  operation_id = refl;
  revision = omega arith;
  proposals = (
    (
      record {
        version = record {
          major_safe = omega arith;
          minor_safe = omega arith;
          patch_safe = omega arith;
        };
        operation_id = refl;
        proposal_id = refl;
        sequence = omega arith;
        capability = refl;
      },
      refl,
    ),
    tt,
  );
  effect_requests = tt;
}

outcome-Survives_example :
    Survives
      (encode_turn_outcome (turn_ok one_proposal) string string)
      (λ json. decode_turn_outcome json text_decoder text_decoder)
      (turn_ok one_proposal)
outcome-Survives_example =
    outcome-Survives string text_decoder string text_decoder (turn_ok one_proposal)
      one_proposal-IsTurn

-- A report with a proposal and without effect requests, as it is received.
abbrev suggested : CanonicalJsonValue
suggested = object (
    entry (codes "contract_version") (string (codes "0.2.0")) (
      entry (codes "operation_id") (string (codes "op_0123456789abcdef0123456789abcdef")) (
        entry (codes "proposal_id") (string (codes "prp_00112233445566778899aabbccddeeff")) (
          entry (codes "sequence") (string (codes "7")) (
            entry (codes "requested_capability") (string (codes "speak"))
              (entry (codes "proposal") (string (codes "hello")) end))))))

abbrev received : CanonicalJsonValue
received = object (
    entry (codes "ok")
      (object (
        entry (codes "contract_version") (string (codes "0.2.0")) (
          entry (codes "operation_id") (string (codes "op_0123456789abcdef0123456789abcdef")) (
            entry (codes "session_revision") (string (codes "4")) (
              entry (codes "proposals") (array (element suggested nil))
                (entry (codes "effect_requests") (array nil) end))))))
      end)

decode_turn_outcome-Closes_example :
    Closes
      (Reports text_decoder text_decoder received)
      (decode_turn_outcome received text_decoder text_decoder)
decode_turn_outcome-Closes_example = decode_turn_outcome-Closes text_decoder text_decoder received
