-- ===== src/Host/Envelope/Carried.antt =====
-- The decoders of a proposal and of an effect request in envelope.ts, member by member.
use artificial_intelligence.Base.{codes, some, ◌≡◌}
use artificial_intelligence.Contracts.Identifier.{operation, proposal}
use artificial_intelligence.Host.Text.{Units}
use artificial_intelligence.Host.Version.{format_contract_version}
use artificial_intelligence.Host.Canonical.{CanonicalJsonValue, Entries, string}
use artificial_intelligence.Host.Error.{get}
use artificial_intelligence.Host.Envelope.{PayloadDecoder, ProposalEnvelope, EffectRequestEnvelope}
use artificial_intelligence.Host.Envelope.Decode.{
  proposal_members, effect_members, decode_proposal_envelope, decode_effect_request_envelope,
}
use artificial_intelligence.Host.Envelope.Readers.{counter_str}
use artificial_intelligence.Host.Envelope.RoundTrip.{IsProposal, IsEffect}
use artificial_intelligence.Host.Envelope.Closed.{
  Closes, closes, Closes-bind, IsClosed, IsPayload, members-Closes, read_identifier-Closes,
  read_version-Closes, read_decimal-Closes, read_capability-Closes, read_payload-Closes,
}

-- The object has a member of that name, and it is that text.
abbrev pub HasText : Entries → Units → Units → Type 0
HasText fields name text = get fields name ≡ some (string text)

module _ {X P : Type 0} (decode : PayloadDecoder X P) where
  -- The value is an object with the members of a proposal, and as many in all, each of the form that
  -- the contract asks, and the envelope is what they say.
  pub record CarriesProposal (source : CanonicalJsonValue) (e : ProposalEnvelope P) : Type 0 where
    pub fields : Entries
    pub closed : IsClosed source proposal_members fields
    pub form : IsProposal e
    pub version :
        HasText fields (codes "contract_version") (format_contract_version e.contract_version)
    pub operation_id : HasText fields (codes "operation_id") e.operation_id
    pub proposal_id : HasText fields (codes "proposal_id") e.proposal_id
    pub sequence : HasText fields (codes "sequence") (counter_str e.sequence)
    pub capability : HasText fields (codes "requested_capability") e.requested_capability
    pub payload : IsPayload decode (get fields (codes "proposal")) e.proposal

  pub decode_proposal_envelope-Closes :
      (source : CanonicalJsonValue)
      → Closes (CarriesProposal source) (decode_proposal_envelope source decode)
  unfolding decode_proposal_envelope
  decode_proposal_envelope-Closes source =
      Closes-bind (members-Closes source proposal_members) λ fields closed.
        Closes-bind (read_version-Closes source _) λ v (safe, hv).
          Closes-bind (read_identifier-Closes source _ operation) λ op (is_op, hop).
            Closes-bind (read_identifier-Closes source _ proposal) λ id (is_id, hid).
              Closes-bind (read_decimal-Closes source _) λ seq (fits, hseq).
                Closes-bind (read_capability-Closes source _) λ cap (is_cap, hcap).
                  Closes-bind (read_payload-Closes source _ decode) λ p hp. closes (record {
                    fields = fields;
                    closed = closed;
                    form = record {
                      version = safe;
                      operation_id = is_op;
                      proposal_id = is_id;
                      sequence = fits;
                      capability = is_cap;
                    };
                    version = hv;
                    operation_id = hop;
                    proposal_id = hid;
                    sequence = hseq;
                    capability = hcap;
                    payload = hp;
                  })

  -- The same of an effect request.
  pub record CarriesEffect (source : CanonicalJsonValue) (e : EffectRequestEnvelope P)
      : Type 0 where
    pub fields : Entries
    pub closed : IsClosed source effect_members fields
    pub form : IsEffect e
    pub version :
        HasText fields (codes "contract_version") (format_contract_version e.contract_version)
    pub operation_id : HasText fields (codes "operation_id") e.operation_id
    pub sequence : HasText fields (codes "sequence") (counter_str e.sequence)
    pub payload : IsPayload decode (get fields (codes "effect")) e.effect

  pub decode_effect_request_envelope-Closes :
      (source : CanonicalJsonValue)
      → Closes (CarriesEffect source) (decode_effect_request_envelope source decode)
  unfolding decode_effect_request_envelope
  decode_effect_request_envelope-Closes source =
      Closes-bind (members-Closes source effect_members) λ fields closed.
        Closes-bind (read_version-Closes source _) λ v (safe, hv).
          Closes-bind (read_identifier-Closes source _ operation) λ op (is_op, hop).
            Closes-bind (read_decimal-Closes source _) λ seq (fits, hseq).
              Closes-bind (read_payload-Closes source _ decode) λ p hp. closes (record {
                fields = fields;
                closed = closed;
                form = record { version = safe; operation_id = is_op; sequence = fits };
                version = hv;
                operation_id = hop;
                sequence = hseq;
                payload = hp;
              })
