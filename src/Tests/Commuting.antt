-- ===== src/Tests/Commuting.antt =====
-- Two proposals decided in both orders by an authority that records what it was asked.
use artificial_intelligence.Base.{
  ==_refl, List, [], ap, arith, if◌then◌else◌, is_ok, ok, refl, ℕ, ◌==◌, ◌∷◌, ◌≡◌, ◌≢◌, bytes_ord,
}
use artificial_intelligence.Contracts.Identifier.{ProposalId, identifier_ord}
use artificial_intelligence.Runtime.Ports
use artificial_intelligence.Runtime.Ports.{Authority, withhold}
use artificial_intelligence.Runtime.Session.{RuntimeSession}
use artificial_intelligence.Runtime.Session.Admit.{admit}
use artificial_intelligence.Runtime.Session.Commuting.{admissions_commute}
use artificial_intelligence.Tests.Fixtures.{op, first, second, speak, fresh_session, proposal_of}

abbrev two_pending : RuntimeSession ℕ
two_pending = record fresh_session {
  sequence = 2;
  revision = 2;
  pending = (first, proposal_of first 1 7) ∷ (second, proposal_of second 2 8) ∷ [];
}

first-second : first ≢ second
first-second e = ground (arith, ap (λ x. x == second) e, ==_refl second)

-- The proposals that the authority was asked about so far.
record Recording : Type 0 where
  asked : List ProposalId

instance abbrev recording_authority : Authority Recording ℕ
recording_authority = record {
  decide = λ r e. if e.proposal_id == first then ok (Ports.admit speak) else ok withhold;
}

abbrev unasked : Recording
unasked = record { asked = [] }

abbrev asked_first : Recording
asked_first = record { asked = first ∷ [] }

abbrev asked_second : Recording
asked_second = record { asked = second ∷ [] }

-- The first is admitted and the second refused.
admissions_commute_example :
    ((admit op second asked_first (admit op first unasked two_pending).1).1
      ≡ (admit op first asked_second (admit op second unasked two_pending).1).1)
    × (is_ok (admit op second asked_first (admit op first unasked two_pending).1).0
        ≡ is_ok (admit op second unasked two_pending).0)
    × (is_ok (admit op first asked_second (admit op second unasked two_pending).1).0
        ≡ is_ok (admit op first unasked two_pending).0)
admissions_commute_example =
    admissions_commute op op first second unasked asked_first unasked asked_second two_pending
      first-second (λ e h. refl) (λ e h. refl) (omega arith) (omega arith)
