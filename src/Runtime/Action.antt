-- ===== src/Runtime/Action.antt =====
-- Methods that take `&mut self` and may return early with an error: what was written before the
-- error stays written, so the state comes back beside the error too.
use artificial_intelligence.Base.{Bool, Result, err, false, ok, true}
use artificial_intelligence.Contracts.Error.{FoundationError}

abbrev pub Action {ℓ κ} : Type ℓ → Type κ → Type (ℓ ⊔ κ)
Action S A = S → Result A FoundationError × S

module _ {ℓ κ} {S : Type ℓ} {A : Type κ} where
  abbrev pub pure : A → Action S A
  pure a s = (ok a, s)

  -- A `?` on a result that does not touch the state.
  abbrev pub lift : Result A FoundationError → Action S A
  lift r s = (r, s)

  -- `return Err(e)`
  abbrev pub throw : FoundationError → Action S A
  throw e s = (err e, s)

module _ {ℓ} {S : Type ℓ} where
  abbrev pub read : Action S S
  read s = (ok s, s)

  abbrev pub modify : (S → S) → Action S (Unit {0})
  modify f s = (ok tt, f s)

  abbrev pub throw_if : Bool → FoundationError → Action S (Unit {0})
  throw_if true e s = (err e, s)
  throw_if false e s = (ok tt, s)

module _ {ℓ κ μ} {S : Type ℓ} {A : Type κ} {B : Type μ} where
  abbrev pub continue : Result A FoundationError → (A → Action S B) → Action S B
  continue (ok a) f s = f a s
  continue (err e) f s = (err e, s)

  infixl 5 ◌>>=◌ ◌>>◌
  abbrev pub ◌>>=◌ : Action S A → (A → Action S B) → Action S B
  ◌>>=◌ m f s = let (r, t) = m s in continue r f t

  abbrev pub ◌>>◌ : Action S A → Action S B → Action S B
  m >> n = m >>= λ _. n
