-- ===== src/Runtime/Session/Boundary/Guarded.antt =====
-- The backing of effect requests by admissions, over the steps of a history.
use artificial_intelligence.Base.{
  All, List, [], ap, arith, length, ok, refl, subst, suc, sym, ◌++◌, ◌+◌, ◌∙◌, ◌∷◌, ◌≡◌, ◌≤◌,
}
use artificial_intelligence.Contracts.Identifier.{ProposalId, OperationId}
use artificial_intelligence.Runtime.Scope.{DelegationScope}
use artificial_intelligence.Runtime.Ports.{Clock, IdentifierGeneration, Inference, Authority}
use artificial_intelligence.Runtime.Session.{RuntimeSession}
use artificial_intelligence.Runtime.Session.Admit
use artificial_intelligence.Runtime.Session.Admit.{Admitted}
use artificial_intelligence.Runtime.Session.Identity.{
  SameIdentity, admit-SameIdentity, dispatch-SameIdentity,
}
use artificial_intelligence.Runtime.Session.Authority.{admit_iff}
use artificial_intelligence.Runtime.Session.Dispatching.{dispatch-ok}
use artificial_intelligence.Runtime.Session.History.{perform-SameIdentity}
use artificial_intelligence.Runtime.Session.Boundary.{
  World, Step, other, admitted, refused, dispatched, dispatch_failed, dropped, Reaches, start, then,
  IsAuthorized, IsBacked, IsGuarded,
}

-- Items of a list with one of them taken out.
module _ {ℓ κ} {X : Type ℓ} (T : X → Type κ) where
  All-middle : (xs ys : List X) (x : X) → All T (xs ++ x ∷ ys) → T x × All T (xs ++ ys)
  All-middle [] ys x h = (h.0, h.1)
  All-middle (z ∷ xs) ys x h = let (at, rest) = All-middle xs ys x h.1 in (at, (h.0, rest))

length-middle {ℓ} :
    {X : Type ℓ} (xs ys : List X) (x : X) → length (xs ++ x ∷ ys) ≡ suc (length (xs ++ ys))
length-middle [] ys x = refl
length-middle (z ∷ xs) ys x = omega (arith, length-middle xs ys x)

module _ {P A : Type 0} ⦃aut : Authority A P⦄ where
  admission-IsAuthorized :
      (op : OperationId) (id : ProposalId) (authority : A) (s t : RuntimeSession P) (x : Admitted P)
      → Admit.admit op id authority s ≡ (ok x, t)
      → IsAuthorized A s.scope x
  admission-IsAuthorized op id authority s t x h =
      let (e, c, r) = (admit_iff authority op id s t x).0 h in
      subst (IsAuthorized A s.scope) (sym r.carries)
        (authority, e, r.decided, r.permitted, refl, refl)

module _ {P : Type 0} (R C I Q G A : Type 0) ⦃clk : Clock C⦄ ⦃inf : Inference I Q P⦄
    ⦃gen : IdentifierGeneration G⦄ ⦃aut : Authority A P⦄ where
  scope_after :
      {s t u : RuntimeSession P} (scope : DelegationScope)
      → SameIdentity s u
      → u ≡ t
      → s.scope ≡ scope
      → t.scope ≡ scope
  scope_after scope k e h = ap (λ (x : RuntimeSession P). x.scope) (sym e) ∙ k.scope ∙ h

  Step-IsGuarded :
      (scope : DelegationScope) {w v : World P}
      → Step R C I Q G A w v
      → IsGuarded A scope w
      → IsGuarded A scope v
  Step-IsGuarded scope {w = w} (other c q) g = record {
    same_scope = (perform-SameIdentity c w.session).scope ∙ g.same_scope;
    held_authorized = g.held_authorized;
    requests_backed = g.requests_backed;
    granted_authorized = g.granted_authorized;
    at_most_once = g.at_most_once;
  }
  Step-IsGuarded scope {w = w} (admitted op id authority x t h) g =
      let fresh =
        subst (λ s. IsAuthorized A s x) g.same_scope
          (admission-IsAuthorized op id authority w.session t x h) in
      record {
        same_scope =
            scope_after scope (admit-SameIdentity authority op id w.session) (λ i. (h i).1)
              g.same_scope;
        held_authorized = (fresh, g.held_authorized);
        requests_backed = g.requests_backed;
        granted_authorized = (fresh, g.granted_authorized);
        at_most_once = omega (arith, g.at_most_once);
      }
  Step-IsGuarded scope {w = w} (refused op id authority y t h) g = record {
    same_scope =
        scope_after scope (admit-SameIdentity authority op id w.session) (λ i. (h i).1)
          g.same_scope;
    held_authorized = g.held_authorized;
    requests_backed = g.requests_backed;
    granted_authorized = g.granted_authorized;
    at_most_once = g.at_most_once;
  }
  Step-IsGuarded scope {w = w} (dispatched op x before rest e t m h) g =
      let (used, left) =
        All-middle (IsAuthorized A scope) before rest x
          (subst (All (IsAuthorized A scope)) m g.held_authorized) in
      record {
        same_scope =
            scope_after scope (dispatch-SameIdentity op x w.session) (λ i. (h i).1) g.same_scope;
        held_authorized = left;
        requests_backed = ((x, used, (dispatch-ok op x w.session t e h).0), g.requests_backed);
        granted_authorized = g.granted_authorized;
        at_most_once = omega (arith, g.at_most_once, ap length m, length-middle {0} before rest x);
      }
  Step-IsGuarded scope {w = w} (dispatch_failed op x before rest y t m h) g =
      let (used, left) =
        All-middle (IsAuthorized A scope) before rest x
          (subst (All (IsAuthorized A scope)) m g.held_authorized) in
      record {
        same_scope =
            scope_after scope (dispatch-SameIdentity op x w.session) (λ i. (h i).1) g.same_scope;
        held_authorized = left;
        requests_backed = g.requests_backed;
        granted_authorized = g.granted_authorized;
        at_most_once = omega (arith, g.at_most_once, ap length m, length-middle {0} before rest x);
      }
  Step-IsGuarded scope {w = w} (dropped x before rest m) g =
      let (used, left) =
        All-middle (IsAuthorized A scope) before rest x
          (subst (All (IsAuthorized A scope)) m g.held_authorized) in
      record {
        same_scope = g.same_scope;
        held_authorized = left;
        requests_backed = g.requests_backed;
        granted_authorized = g.granted_authorized;
        at_most_once = omega (arith, g.at_most_once, ap length m, length-middle {0} before rest x);
      }

  Reaches-IsGuarded :
      (scope : DelegationScope) {w v : World P}
      → Reaches R C I Q G A w v
      → IsGuarded A scope w
      → IsGuarded A scope v
  Reaches-IsGuarded scope start g = g
  Reaches-IsGuarded scope (then r st) g = Step-IsGuarded scope st (Reaches-IsGuarded scope r g)

  abbrev pub outset : RuntimeSession P → World P
  outset s = record { session = s; held = []; requests = []; granted = [] }

  -- From any session, with no admission in hand and no request made, whatever calls follow and
  -- whatever its caller does with the admissions it gets: every effect request carries the payload
  -- of a proposal that an authority admitted under a capability inside the session's scope, and
  -- there are at most as many requests, together with the admissions still held, as admissions.
  pub Reaches-IsBacked :
      (s : RuntimeSession P) (w : World P)
      → Reaches R C I Q G A (outset s) w
      → All (IsBacked A s.scope) w.requests × (length w.requests + length w.held ≤ length w.granted)
  Reaches-IsBacked s w r =
      let g = Reaches-IsGuarded s.scope r (record {
        same_scope = refl;
        held_authorized = tt;
        requests_backed = tt;
        granted_authorized = tt;
        at_most_once = omega arith;
      }) in
      (g.requests_backed, g.at_most_once)
