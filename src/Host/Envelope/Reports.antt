-- ===== src/Host/Envelope/Reports.antt =====
-- Which payloads are a turn's outcome, and what is thrown at the rest.
use artificial_intelligence.Base.{
  Bool-cases, List, Result, [], ap, codes, eq_of_==, inl, inr, ok, refl, some, true, ◌==◌, ◌∷◌, ◌≡◌,
  bytes_ord,
}
use artificial_intelligence.Contracts.Identifier.{operation}
use artificial_intelligence.Host.Text.{Units}
use artificial_intelligence.Host.Identifier.{is_identifier}
use artificial_intelligence.Host.Version.{format_contract_version}
use artificial_intelligence.Host.Version.Mirror.{IsSafe}
use artificial_intelligence.Host.Canonical.{
  CanonicalJsonValue, Elements, Entries, null, boolean, string, array, object, nil, element, end,
  entry,
}
use artificial_intelligence.Host.Error.{get}
use artificial_intelligence.Host.Error.Decode.{decode_foundation_error}
use artificial_intelligence.Host.Error.Laws.{IsFailure}
use artificial_intelligence.Host.Envelope.{
  Thrown, PayloadDecoder, TurnOk, TurnOutcome, turn_ok, turn_error,
}
use artificial_intelligence.Host.Envelope.Decode.{
  turn_ok_members, decode_each, decode_turn_ok, decode_turn_outcome,
}
use artificial_intelligence.Host.Envelope.Readers.{IsCounter, counter_str}
use artificial_intelligence.Host.Envelope.Closed.{
  Closes, closes, malformed, Closes-bind, IsClosed, members-Closes, read_identifier-Closes,
  read_array-Closes, read_version-Closes, read_decimal-Closes, decode_error-Closes,
}
use artificial_intelligence.Host.Envelope.Carried.{
  HasText, CarriesProposal, CarriesEffect, decode_proposal_envelope-Closes,
  decode_effect_request_envelope-Closes,
}

-- Element for element, the values stand for the items of the list.
abbrev pub Each : {T : Type 0} → (CanonicalJsonValue → T → Type 0) → Elements → List T → Type 0
Each R nil [] = Unit
Each R nil (x ∷ xs) = ⊥
Each R (element v es) [] = ⊥
Each R (element v es) (x ∷ xs) = R v x × Each R es xs

-- A member is an array whose elements stand for the items of the list.
abbrev pub HasEach :
    {T : Type 0} → (CanonicalJsonValue → T → Type 0) → Entries → Units → List T → Type 0
HasEach R fields name items =
    (es : Elements) × (get fields name ≡ some (array es)) × Each R es items

module _ {X : Type 0} where
  decode_each-Closes :
      {T : Type 0} (R : CanonicalJsonValue → T → Type 0)
      (decode : CanonicalJsonValue → Result T (Thrown X))
      → ((v : CanonicalJsonValue) → Closes (R v) (decode v))
      → (es : Elements) → Closes (Each R es) (decode_each decode es)
  unfolding decode_each
  decode_each-Closes R decode h nil = closes tt
  decode_each-Closes R decode h (element v es) =
      Closes-bind (h v)
        λ first p. Closes-bind (decode_each-Closes R decode h es) λ rest ps. closes (p, ps)

module _ {X P F : Type 0} (decode_p : PayloadDecoder X P) (decode_f : PayloadDecoder X F) where
  -- The value is an object with the members of a report, and as many in all, each of the form that
  -- the contract asks, and the report is what they say.
  pub record CarriesReport (source : CanonicalJsonValue) (t : TurnOk P F) : Type 0 where
    pub fields : Entries
    pub closed : IsClosed source turn_ok_members fields
    pub safe : IsSafe t.contract_version
    pub version :
        HasText fields (codes "contract_version") (format_contract_version t.contract_version)
    pub is_operation : is_identifier operation t.operation_id ≡ true
    pub operation_id : HasText fields (codes "operation_id") t.operation_id
    pub is_counter : IsCounter t.session_revision
    pub revision : HasText fields (codes "session_revision") (counter_str t.session_revision)
    pub proposals : HasEach (CarriesProposal decode_p) fields (codes "proposals") t.proposals
    pub effect_requests :
        HasEach (CarriesEffect decode_f) fields (codes "effect_requests") t.effect_requests

  -- The payload has one member, and the outcome is what the member's name and value say.
  abbrev pub Reports : CanonicalJsonValue → TurnOutcome P F → Type 0
  Reports json (turn_ok turn) =
      (value : CanonicalJsonValue) × (json ≡ object (entry (codes "ok") value end))
      × CarriesReport value turn
  Reports json (turn_error error) =
      (value : CanonicalJsonValue) × (json ≡ object (entry (codes "error") value end))
      × IsFailure error
      × (decode_foundation_error value ≡ ok error)

  decode_turn_ok-Closes :
      (source : CanonicalJsonValue)
      → Closes (CarriesReport source) (decode_turn_ok source decode_p decode_f)
  unfolding decode_turn_ok
  decode_turn_ok-Closes source =
      Closes-bind (members-Closes source turn_ok_members) λ fields closed.
        Closes-bind (read_version-Closes source _) λ v (safe, hv).
          Closes-bind (read_identifier-Closes source _ operation) λ op (is_op, hop).
            Closes-bind (read_decimal-Closes source _) λ revision (fits, hrev).
              Closes-bind (read_array-Closes source _) λ entries hentries.
                Closes-bind
                  (decode_each-Closes (CarriesProposal decode_p) _
                    (decode_proposal_envelope-Closes decode_p) entries)
                  λ ps hps. Closes-bind (read_array-Closes source _) λ requests hrequests.
                    Closes-bind
                      (decode_each-Closes (CarriesEffect decode_f) _
                        (decode_effect_request_envelope-Closes decode_f) requests)
                      λ fs hfs. closes (record {
                        fields = fields;
                        closed = closed;
                        safe = safe;
                        version = hv;
                        is_operation = is_op;
                        operation_id = hop;
                        is_counter = fits;
                        revision = hrev;
                        proposals = (entries, hentries, hps);
                        effect_requests = (requests, hrequests, hfs);
                      })

  one_member :
      (name : Units) (value : CanonicalJsonValue)
      → Closes
          (Reports (object (entry name value end)))
          (decode_turn_outcome (object (entry name value end)) decode_p decode_f)
  unfolding decode_turn_outcome
  one_member name value = elim (Bool-cases (name == codes "ok")) [
    | inl e ↦
        let same = eq_of_== name (codes "ok") e in
        rw e (
          Closes-bind (decode_turn_ok-Closes value)
            λ turn h. closes (value, ap (λ (n : Units). object (entry n value end)) same, h))
    | inr e ↦ elim (Bool-cases (name == codes "error")) [
      | inl f ↦
          let same = eq_of_== name (codes "error") f in
          rw e (
            rw f (
              Closes-bind (decode_error-Closes value) λ error (form, read).
                closes (value, ap (λ (n : Units). object (entry n value end)) same, form, read)))
      | inr f ↦ rw e (rw f (malformed refl))
    ]
  ]

  -- A payload of any kind that decodes to a report is an object with `ok` as its one member, and one
  -- that decodes to a failure has `error`. The report's object has the five members of a report, and
  -- five in all; each says what the report has there, as an identifier of its kind, a version in its
  -- canonical print, a counter in its decimal numeral. Its arrays stand element for element for the
  -- proposals and the effect requests: each element is again an object with the members of its kind,
  -- and as many in all, of which one is the payload that the product's decoder read. A failure is what
  -- the closed vocabularies allow, as `decodeFoundationError` read it. Where nothing is decoded, a
  -- malformed envelope is thrown, or what a product's decoder throws.
  pub decode_turn_outcome-Closes :
      (json : CanonicalJsonValue)
      → Closes (Reports json) (decode_turn_outcome json decode_p decode_f)
  unfolding decode_turn_outcome
  decode_turn_outcome-Closes null = malformed refl
  decode_turn_outcome-Closes (boolean b) = malformed refl
  decode_turn_outcome-Closes (string s) = malformed refl
  decode_turn_outcome-Closes (array es) = malformed refl
  decode_turn_outcome-Closes (object end) = malformed refl
  decode_turn_outcome-Closes (object (entry name value end)) = one_member name value
  decode_turn_outcome-Closes (object (entry name value (entry name2 value2 rest))) = malformed refl
