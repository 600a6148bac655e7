-- ===== src/Host/Error/Closed.antt =====
-- That decoding a failure keeps to the vocabularies, and how it refuses.
use artificial_intelligence.Base.{
  ==_comm, All, List, Option, Option-cases, Result, [], arith, codes, err, false≢true, inl, inr,
  none, ok, refl, some, true, ◌==◌, ◌∷◌, ◌≡◌, bytes_ord,
}
use artificial_intelligence.Contracts.Identifier.{operation}
use artificial_intelligence.Host.Text.{Units}
use artificial_intelligence.Host.Identifier.{is_identifier}
use artificial_intelligence.Host.Canonical.{CanonicalJsonValue, Entries, null, object, end, entry}
use artificial_intelligence.Host.Error.{
  error_codes, FoundationErrorDetails, FoundationErrorValue, malformed_envelope, includes,
  correlation_of,
}
use artificial_intelligence.Host.Error.Decode.{
  decode_details, Decoded, nothing_decoded, take_member, ◌>>?◌, members_loop, complete, conclude,
  decode_foundation_error,
}
use artificial_intelligence.Host.Error.Laws.{Passes, PassesDetails, IsFailure}
use artificial_intelligence.Host.Error.Details.{
  OnSome, OnSome-if, OnSome-put, one_of-Passes, identifier_of-Passes, decode_details-PassesDetails,
}

-- What holds of the variables in the loop.
record IsDecoded (p : Decoded) : Type 0 where
  code : Passes (includes error_codes) p.code
  operation_id : Passes (is_identifier operation) p.operation_id
  details : PassesDetails p.details

take_member-IsDecoded :
    (member : Units) (v : CanonicalJsonValue) (p : Decoded)
    → IsDecoded p
    → OnSome IsDecoded (take_member member v p)
unfolding take_member
take_member-IsDecoded member v p h =
    OnSome-if _ (member == codes "code") _ _
      (OnSome-put _ _ _ _ (one_of-Passes error_codes v) (λ u e. ground arith))
      (OnSome-if _ (member == codes "operation_id") _ _
        (OnSome-put _ _ _ _ (identifier_of-Passes operation v) (λ u e. ground arith))
        (OnSome-if _ (member == codes "details") _ _
          (details_put (decode_details v) (decode_details-PassesDetails v)) tt))
  where
    details_put :
        (o : Option FoundationErrorDetails)
        → PassesDetails o
        → OnSome IsDecoded (o >>? λ d. record p { details = some d })
    details_put none k = tt
    details_put (some d) k = record { code = h.code; operation_id = h.operation_id; details = k }

members_loop-IsDecoded :
    (entries : Entries) (p : Decoded) → IsDecoded p → OnSome IsDecoded (members_loop entries p)
unfolding members_loop
members_loop-IsDecoded end p h = h
members_loop-IsDecoded (entry member v entries) p h =
    let step = take_member-IsDecoded member v p h in
    elim (Option-cases (take_member member v p)) [
      | inl e ↦ rw (e, members_loop) tt
      | inr (q, e) ↦ rw (e, members_loop) (members_loop-IsDecoded entries q (rw e at step))
    ]

-- The names of an object's members.
abbrev pub names : Entries → List Units
names end = []
names (entry member v entries) = member ∷ names entries

abbrev pub failure_members : List Units
failure_members = codes "code" ∷ codes "operation_id" ∷ codes "details" ∷ []

take_member-known :
    (member : Units) (v : CanonicalJsonValue) (p q : Decoded)
    → take_member member v p ≡ some q
    → includes failure_members member ≡ true
unfolding take_member
take_member-known member v p q h = ground (
  arith,
  ==_comm member (codes "code"),
  ==_comm member (codes "operation_id"),
  ==_comm member (codes "details"),
)

members_loop-known :
    (entries : Entries) (p q : Decoded)
    → members_loop entries p ≡ some q
    → All (λ member. includes failure_members member ≡ true) (names entries)
unfolding members_loop
members_loop-known end p q h = tt
members_loop-known (entry member v entries) p q h = elim (Option-cases (take_member member v p)) [
  | inl e ↦ absurd (false≢true (cc))
  | inr (r, e) ↦ (take_member-known member v p r e, members_loop-known entries r q (ground arith))
]

-- The members of an object are members of a failure; any other value has none.
abbrev IsClosed : CanonicalJsonValue → Type 0
IsClosed (object entries) = All (λ member. includes failure_members member ≡ true) (names entries)
IsClosed _ = ⊥

complete-IsFailure :
    (p : Decoded) (e : FoundationErrorValue) → IsDecoded p → complete p ≡ some e → IsFailure e
complete-IsFailure p e h k = finish p.code h.code refl
  where
    finish : (o : Option Units) → Passes (includes error_codes) o → p.code ≡ o → IsFailure e
    finish none t q = absurd (false≢true (cc))
    finish (some c) t q = let v : _ = k in ground arith

-- What `decodeFoundationError` returns or throws, on a payload of any kind.
abbrev pub Decodes : CanonicalJsonValue → Result FoundationErrorValue FoundationErrorValue → Type 0
Decodes value (ok e) = IsFailure e × IsClosed value
Decodes value (err refusal) = refusal ≡ malformed_envelope (correlation_of value)

conclude-Decodes :
    (value : CanonicalJsonValue) (o : Option Decoded)
    → OnSome IsDecoded o
    → ((p : Decoded) → o ≡ some p → IsClosed value)
    → Decodes value (conclude value o)
conclude-Decodes value none h k = refl
conclude-Decodes value (some p) h k = elim (Option-cases (complete p)) [
  | inl e ↦ rw e refl
  | inr (f, e) ↦ rw e (complete-IsFailure p f h e, k p refl)
]

-- A payload of any kind either decodes to a failure whose code and details come from their
-- vocabularies and whose identifiers and capability are canonical, and then it is an object with no
-- other members than those of a failure; or it is refused as a malformed envelope, under the
-- operation that the payload canonically names, if any.
pub decode_foundation_error_lem :
    (value : CanonicalJsonValue) → Decodes value (decode_foundation_error value)
unfolding decode_foundation_error
decode_foundation_error_lem (object entries) =
    conclude-Decodes (object entries) (members_loop entries nothing_decoded)
      (members_loop-IsDecoded entries nothing_decoded (ground arith))
      (λ p e. members_loop-known entries nothing_decoded p e)
decode_foundation_error_lem null = refl
decode_foundation_error_lem _ = refl
