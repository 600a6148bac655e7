-- ===== src/Runtime/Session/Restoring.antt =====
-- Snapshots and restored sessions.
use artificial_intelligence.Base.{
  ==_comm, List, Result-cases, [], ap, append-nil, append_assoc, arith, false, inl, inr, is_ok, ok,
  refl, subst, sym, true, ◌++◌, ◌↔◌, ◌∷◌, ◌≡◌, ◌≤◌,
}
use artificial_intelligence.BTree.{BTreeMap, values, get, insert, contains_key}
use artificial_intelligence.BTree.Sorted.{
  IsSorted, insert-IsSorted, Below-middle, get-Below, insert_last,
}
use artificial_intelligence.BTree.Lookup.{get-insert}
use artificial_intelligence.Runtime.Session.Propose.{is_staged}
use artificial_intelligence.Contracts.Scalar.{DecimalU64, IsU64}
use artificial_intelligence.Contracts.Version.{current, accepts_provider}
use artificial_intelligence.Contracts.Identifier.{ProposalId, identifier_ord}
use artificial_intelligence.Contracts.Envelope.{ProposalEnvelope}
use artificial_intelligence.Runtime.Scope.Laws.{new-capabilities, new-IsSorted}
use artificial_intelligence.Runtime.Session.{RuntimeSession}
use artificial_intelligence.Runtime.Session.Snapshot.{
  SessionSnapshot, snapshot, restore_pending, seat, restore,
}
use artificial_intelligence.Runtime.Session.Invariant.{IsOwned, IsOwned-insert, IsValid}

module _ {P : Type 0} where
  -- The loop rebuilds the rest of a sorted map onto its beginning.
  restore_pending-values :
      (q : DecimalU64) (m r : BTreeMap ProposalId (ProposalEnvelope P))
      → IsSorted (m ++ r)
      → IsOwned q r
      → restore_pending q m (values r) ≡ ok (m ++ r)
  unfolding restore_pending
  restore_pending-values q m [] s o = ap ok (sym (append-nil m))
  restore_pending-values q m ((k, e) ∷ r) s o =
      let below = Below-middle k e m r s in
      let rest = restore_pending-values q (m ++ (k, e) ∷ []) r (rw append_assoc s) o.2 in
      ground
        (arith, get-Below k m below, insert_last k e m below, rest, append_assoc m ((k, e) ∷ []) r)

  -- A valid session is seated again, exactly as it was, on the snapshot taken of it.
  pub restore-snapshot : (s : RuntimeSession P) → IsValid s → restore (snapshot s) ≡ ok s
  unfolding restore snapshot accepts_provider
  restore-snapshot s v = ground (
    arith,
    restore_pending-values s.sequence [] s.pending v.sorted v.owned,
    new-capabilities s.scope v.scope_sorted,
  )

  restore_pending-valid :
      (q : DecimalU64) (m t : BTreeMap ProposalId (ProposalEnvelope P))
      (es : List (ProposalEnvelope P))
      → IsSorted m
      → IsOwned q m
      → restore_pending q m es ≡ ok t
      → IsSorted t × IsOwned q t
  unfolding restore_pending
  restore_pending-valid q m t [] s o h = ground arith
  restore_pending-valid q m t (e ∷ es) s o h =
      restore_pending-valid q (insert e.proposal_id e m) t es (insert-IsSorted e.proposal_id e m s)
        (IsOwned-insert q e m (ground arith) o) (ground arith)

  -- Whatever snapshot is accepted, if its counters fit 64 bits, the session seated on it is valid.
  pub restore-IsValid :
      (n : SessionSnapshot P) (s : RuntimeSession P)
      → IsU64 n.sequence
      → IsU64 n.revision
      → restore n ≡ ok s
      → IsValid s
  unfolding restore
  restore-IsValid n s q r h = elim (Result-cases (restore_pending n.sequence [] n.pending)) [
    | inl (m, e) ↦
        let (sorted, owned) = restore_pending-valid n.sequence [] m n.pending tt tt e in
        let seated : seat n m ≡ s = ground arith in
        subst IsValid seated (record {
          sorted = sorted;
          owned = owned;
          scope_sorted = new-IsSorted n.delegated_capabilities;
          sequence_fits = q;
          revision_fits = r;
        })
    | inr (x, e) ↦ absurd (ground arith)
  ]

  -- The proposals of a snapshot can be seated: no sequence lies above the counter, and no
  -- identifier stands twice.
  abbrev pub IsCoherent : DecimalU64 → List (ProposalEnvelope P) → Type 0
  IsCoherent q [] = Unit
  IsCoherent q (e ∷ es) = (e.sequence ≤ q) × (is_staged e.proposal_id es ≡ false) × IsCoherent q es

  -- No envelope of the list has an identifier that the map holds.
  abbrev IsFresh : BTreeMap ProposalId (ProposalEnvelope P) → List (ProposalEnvelope P) → Type 0
  IsFresh m [] = Unit
  IsFresh m (e ∷ es) = (contains_key e.proposal_id m ≡ false) × IsFresh m es

  IsFresh-insert :
      (e : ProposalEnvelope P) (m : BTreeMap ProposalId (ProposalEnvelope P))
      (es : List (ProposalEnvelope P))
      → IsFresh (insert e.proposal_id e m) es
        ↔ (IsFresh m es × (is_staged e.proposal_id es ≡ false))
  IsFresh-insert e m [] = (λ h. (tt, refl), λ h. tt)
  IsFresh-insert e m (f ∷ es) =
      let at = get-insert e.proposal_id f.proposal_id e m in
      let turn = ==_comm e.proposal_id f.proposal_id in
      let rest = IsFresh-insert e m es in
      (λ h. ground (arith, at, turn, rest), λ h. ground (arith, at, turn, rest))

  restore_pending_iff :
      (q : DecimalU64) (m : BTreeMap ProposalId (ProposalEnvelope P))
      (es : List (ProposalEnvelope P))
      → (is_ok (restore_pending q m es) ≡ true) ↔ (IsCoherent q es × IsFresh m es)
  unfolding restore_pending
  restore_pending_iff q m [] = (λ h. (tt, tt), λ h. refl)
  restore_pending_iff q m (e ∷ es) =
      let rest = restore_pending_iff q (insert e.proposal_id e m) es in
      let fresh = IsFresh-insert e m es in
      (λ h. ground (arith, rest, fresh), λ h. ground (arith, rest, fresh))

  IsFresh-empty : (es : List (ProposalEnvelope P)) → IsFresh [] es
  unfolding get
  IsFresh-empty [] = tt
  IsFresh-empty (e ∷ es) = (refl, IsFresh-empty es)

  -- A snapshot is accepted exactly if its contract line accepts this build and its proposals are
  -- coherent with its counter.
  pub restore_iff :
      (n : SessionSnapshot P)
      → (is_ok (restore n) ≡ true)
        ↔ ((accepts_provider n.contract_version current ≡ true) × IsCoherent n.sequence n.pending)
  unfolding restore
  restore_iff n =
      let rest = restore_pending_iff n.sequence [] n.pending in
      let fresh = IsFresh-empty n.pending in
      (λ h. ground (arith, rest, fresh), λ h. ground (arith, rest, fresh))
