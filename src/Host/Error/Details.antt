-- ===== src/Host/Error/Details.antt =====
-- That the details of a failure are decoded inside their vocabularies.
use artificial_intelligence.Base.{
  Bool, Bool-cases, List, Option, Option-cases, arith, codes, false, if◌then◌else◌, inl, inr, none,
  not, some, true, ◌==◌, ◌≡◌, bytes_ord,
}
use artificial_intelligence.Contracts.Identifier.{IdentifierKind, subject, proposal}
use artificial_intelligence.Host.Text.{Units}
use artificial_intelligence.Host.Identifier.{is_identifier}
use artificial_intelligence.Host.Capability.{is_capability_name}
use artificial_intelligence.Host.Canonical.{
  CanonicalJsonValue, Entries, null, string, object, end, entry,
}
use artificial_intelligence.Host.Error.{
  context_ports, variant_kinds, schema_violations, FoundationErrorDetails, no_details, includes,
  one_of, identifier_of,
}
use artificial_intelligence.Host.Error.Decode.{
  detail_members, take_detail, details_loop, decode_details, string_of, capability_of, ◌>>?◌,
}
use artificial_intelligence.Host.Error.Laws.{Passes, IsDetails, PassesDetails, any_text, any-Passes}

-- Where there is a result, it has the property.
abbrev pub OnSome {ℓ κ} : {A : Type ℓ} → (A → Type κ) → Option A → Type κ
OnSome P none = Unit
OnSome P (some a) = P a

pub OnSome-if {ℓ κ} :
    {A : Type ℓ} (P : A → Type κ) (b : Bool) (x y : Option A)
    → OnSome P x
    → OnSome P y
    → OnSome P (if b then x else y)
OnSome-if P true x y hx hy = hx
OnSome-if P false x y hx hy = hy

pub OnSome-put {κ} :
    {A : Type 0} (P : A → Type κ) (test : Units → Bool) (o : Option Units) (put : Units → A)
    → Passes test o
    → ((u : Units) → test u ≡ true → P (put u))
    → OnSome P (o >>? put)
OnSome-put P test none put h keep = tt
OnSome-put P test (some u) put h keep = keep u h

pub one_of-Passes :
    (words : List Units) (v : CanonicalJsonValue) → Passes (includes words) (one_of words v)
unfolding one_of
one_of-Passes words (string u) = elim (Bool-cases (includes words u)) [
  | inl e ↦ rw e e
  | inr e ↦ rw e tt
]
one_of-Passes words null = tt
one_of-Passes words _ = tt

pub identifier_of-Passes :
    (kind : IdentifierKind) (v : CanonicalJsonValue)
    → Passes (is_identifier kind) (identifier_of kind v)
identifier_of-Passes kind (string u) = elim (Bool-cases (is_identifier kind u)) [
  | inl e ↦ rw e e
  | inr e ↦ rw e tt
]
identifier_of-Passes kind null = tt
identifier_of-Passes kind _ = tt

capability_of-Passes : (v : CanonicalJsonValue) → Passes is_capability_name (capability_of v)
capability_of-Passes (string u) = elim (Bool-cases (is_capability_name u)) [
  | inl e ↦ rw e e
  | inr e ↦ rw e tt
]
capability_of-Passes null = tt
capability_of-Passes _ = tt

-- Whatever member is read, the details keep to their types.
take_detail-IsDetails :
    (member : Units) (v : CanonicalJsonValue) (d : FoundationErrorDetails)
    → IsDetails d
    → OnSome IsDetails (take_detail member v d)
unfolding take_detail
take_detail-IsDetails member v d h =
    let is_free = λ (put : Units → FoundationErrorDetails) (k : (u : Units) → IsDetails (put u)).
      OnSome-put IsDetails any_text (string_of v) put (any-Passes (string_of v)) (λ u e. k u) in
    let check =
      λ (test : Units → Bool) (o : Option Units) (put : Units → FoundationErrorDetails)
          (p : Passes test o) (k : (u : Units) → test u ≡ true → IsDetails (put u)).
        OnSome-put IsDetails test o put p k in
    OnSome-if _ (not (includes detail_members member)) _ _ tt (
      OnSome-if _ (member == codes "required_contract_version") _ _ (is_free _ (λ u. ground arith))
        (OnSome-if _ (member == codes "supported_contract_version") _ _
          (is_free _ (λ u. ground arith))
          (OnSome-if _ (member == codes "field") _ _ (is_free _ (λ u. ground arith)) (
            OnSome-if _ (member == codes "port") _ _
              (check _ _ _ (one_of-Passes context_ports v) (λ u e. ground arith))
              (OnSome-if _ (member == codes "variant_kind") _ _
                (check _ _ _ (one_of-Passes variant_kinds v) (λ u e. ground arith))
                (OnSome-if _ (member == codes "schema_violation") _ _
                  (check _ _ _ (one_of-Passes schema_violations v) (λ u e. ground arith))
                  (OnSome-if _ (member == codes "bound_subject_id") _ _
                    (check _ _ _ (identifier_of-Passes subject v) (λ u e. ground arith))
                    (OnSome-if _ (member == codes "attempted_subject_id") _ _
                      (check _ _ _ (identifier_of-Passes subject v) (λ u e. ground arith))
                      (OnSome-if _ (member == codes "proposal_id") _ _
                        (check _ _ _ (identifier_of-Passes proposal v) (λ u e. ground arith))
                        (check _ _ _ (capability_of-Passes v) (λ u e. ground arith)))))))))))

details_loop-IsDetails :
    (entries : Entries) (d : FoundationErrorDetails)
    → IsDetails d
    → OnSome IsDetails (details_loop entries d)
unfolding details_loop
details_loop-IsDetails end d h = h
details_loop-IsDetails (entry member v entries) d h =
    let step = take_detail-IsDetails member v d h in
    elim (Option-cases (take_detail member v d)) [
      | inl e ↦ rw (e, details_loop) tt
      | inr (d', e) ↦ rw (e, details_loop) (details_loop-IsDetails entries d' (rw e at step))
    ]

no_details-IsDetails : IsDetails no_details
no_details-IsDetails = ground arith

pub decode_details-PassesDetails : (v : CanonicalJsonValue) → PassesDetails (decode_details v)
unfolding decode_details
decode_details-PassesDetails (object entries) =
    let kept = details_loop-IsDetails entries no_details no_details-IsDetails in
    elim (Option-cases (details_loop entries no_details)) [
      | inl e ↦ rw e tt
      | inr (d, e) ↦ rw e (rw e at kept)
    ]
decode_details-PassesDetails null = tt
decode_details-PassesDetails _ = tt
