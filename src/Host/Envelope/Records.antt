-- ===== src/Host/Envelope/Records.antt =====
-- `decodeFailureRecord` of packages/aiai-contracts/src/envelope.ts.
use artificial_intelligence.Base.{
  Bool, List, Option, Result, [], all, codes, if◌then◌else◌, is_some, none, not, ok, some, true,
  ◌&&◌, ◌||◌, ◌∷◌, ◌>>=◌, ◌>>◌,
}
use artificial_intelligence.Contracts.Identifier.{session}
use artificial_intelligence.Host.Text.{Units}
use artificial_intelligence.Host.Canonical.{CanonicalJsonValue, Entries, object, end, entry}
use artificial_intelligence.Host.Error.{get, includes, FoundationErrorValue}
use artificial_intelligence.Host.Envelope.{
  Thrown, FailureRecord, refuse, read_identifier, read_decimal, read_version,
}
use artificial_intelligence.Host.Envelope.Decode.{decode_error}

abbrev pub failure_record_required : List Units
failure_record_required =
    codes "contract_version" ∷ codes "recorded_at_unix_ms" ∷ codes "error" ∷ []

abbrev pub failure_record_optional : List Units
failure_record_optional = codes "session_id" ∷ []

-- The first loop of `decodeFailureRecord`: every name is known.
abbrev pub all_known : Entries → Bool
all_known end = true
all_known (entry name value entries) =
    (includes failure_record_required name || includes failure_record_optional name)
    && all_known entries

module _ {X : Type 0} where
  -- The same on a member, which was found to be present.
  abbrev pub read_error :
      CanonicalJsonValue → Option CanonicalJsonValue → Result FoundationErrorValue (Thrown X)
  read_error source none = refuse source
  read_error source (some value) = decode_error value

  -- The check of `session_id`, where it is present.
  abbrev pub read_session :
      CanonicalJsonValue → Option CanonicalJsonValue → Result (Option Units) (Thrown X)
  read_session source none = ok none
  read_session source (some value) = do
    session_id ← read_identifier source (some value) session
    ok (some session_id)

  -- `decodeFailureRecord`, behind the test that the source is an object.
  unfoldable pub decode_record : Entries → Result FailureRecord (Thrown X)
  decode_record fields = do
    let source = object fields
    (if not (all_known fields) then refuse source else ok tt)
    (if not (all (λ name. is_some (get fields name)) failure_record_required)
        then refuse source
        else ok tt)
    contract_version ← read_version source (get fields (codes "contract_version"))
    recorded_at_unix_ms ← read_decimal source (get fields (codes "recorded_at_unix_ms"))
    error ← read_error source (get fields (codes "error"))
    session_id ← read_session source (get fields (codes "session_id"))
    ok (record {
      contract_version = contract_version;
      recorded_at_unix_ms = recorded_at_unix_ms;
      session_id = session_id;
      error = error;
    })

  -- `decodeFailureRecord`
  unfoldable pub decode_failure_record : CanonicalJsonValue → Result FailureRecord (Thrown X)
  unfolding decode_record
  decode_failure_record (object fields) = decode_record fields
  decode_failure_record source = refuse source
