-- ===== src/Contracts/Version/Laws.antt =====
-- The compatibility test as a preorder on versions, and its two lines.
use artificial_intelligence.Base.{Bool-cases, arith, eqb, inl, inr, true, ◌↔◌, ◌≡◌, ◌≢◌, ◌≤◌, ◌⊎◌}
use artificial_intelligence.Contracts.Version.{ContractVersion, accepts_provider}

-- Compatibility is reflexive, and chains: where a version accepts a second and the second a third,
-- the first accepts itself and the third.
pub accepts_provider-preorder :
    (a b c : ContractVersion)
    → accepts_provider a b ≡ true
    → accepts_provider b c ≡ true
    → (accepts_provider a a ≡ true) × (accepts_provider a c ≡ true)
unfolding accepts_provider
accepts_provider-preorder a b c h k = (ground arith, ground arith)

-- A version accepts another exactly if both are of one major line and, before 1.0, of the same
-- minor with a patch not lower, or, from 1.0 on, of a minor not lower.
pub accepts_provider_iff :
    (a b : ContractVersion)
    → (accepts_provider a b ≡ true) ↔ (
        (b.major ≡ a.major)
        × (((a.major ≡ 0) × (b.minor ≡ a.minor) × (a.patch ≤ b.patch))
            ⊎ ((a.major ≢ 0) × (a.minor ≤ b.minor))))
unfolding accepts_provider
accepts_provider_iff a b = (sound, complete)
  where
    sound :
        accepts_provider a b ≡ true
        → (b.major ≡ a.major)
          × (((a.major ≡ 0) × (b.minor ≡ a.minor) × (a.patch ≤ b.patch))
              ⊎ ((a.major ≢ 0) × (a.minor ≤ b.minor)))
    sound h = elim (Bool-cases (eqb a.major 0)) [
      | inl z ↦ (ground arith, inl (ground arith, ground arith, ground arith))
      | inr z ↦ (ground arith, inr (λ e. ground arith, ground arith))
    ]

    complete :
        (b.major ≡ a.major)
          × (((a.major ≡ 0) × (b.minor ≡ a.minor) × (a.patch ≤ b.patch))
              ⊎ ((a.major ≢ 0) × (a.minor ≤ b.minor)))
        → accepts_provider a b ≡ true
    complete (e, inl (z, m, p)) = ground (arith, e, z, m, p)
    complete (e, inr (z, m)) = ground (arith, e, z, m)
