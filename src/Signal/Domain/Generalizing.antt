-- ===== src/Signal/Domain/Generalizing.antt =====
-- What generalizing makes of a value.
use artificial_intelligence.Base.{
  Bool-cases, Result, Result-cases, arith, err, inl, inr, ltb, ok, refl, subst, suc, zero, ℕ, ◌%◌,
  ◌*◌, ◌+◌, ◌-◌, ◌/◌, ◌<◌, ◌↔◌, ◌≡◌, ◌≢◌, ◌≤◌,
}
use artificial_intelligence.Contracts.Error.{SchemaViolation}
use artificial_intelligence.Signal.Token.{token_ord}
use artificial_intelligence.Signal.Domain.{
  SignalValue, SignalValues, nil, cons, len, FieldDomain, enumeration, quantized, check, Halt,
  panicked, clamp, generalize_measure, collect_values, generalize,
}
use artificial_intelligence.Signal.Domain.Laws.{
  steps_above, IsWellFormed, EachValue, Admits, check_iff,
}

-- Flooring a clamped value lands on a step inside the bounds.
floor_lem :
    (min max step c : ℕ)
    → min ≤ c
    → c ≤ max
    → 0 < step
    → (c - (c - min) % step ≤ max) × (c - (c - min) % step ≡ min + (c - min) / step * step)
floor_lem min max step c l u h = (omega arith, omega arith)

-- A measure is generalized through a number within the bounds.
generalize_measure_lem :
    (min max step raw : ℕ)
    → min ≤ max
    → (c : ℕ) × (min ≤ c)
      × (c ≤ max)
      × (generalize_measure min max step raw ≡ ok (SignalValue.measure (c - (c - min) % step)))
unfolding generalize_measure clamp
generalize_measure_lem min max step raw l = elim (Bool-cases (ltb raw min)) [
  | inl p ↦ (min, omega arith, l, ground arith)
  | inr p ↦ elim (Bool-cases (ltb max raw)) [
    | inl r ↦ (max, l, omega arith, ground arith)
    | inr r ↦ (raw, ground arith, ground arith, ground arith)
  ]
]

generalize_measure-Admits :
    (min max step raw : ℕ) (w : SignalValue)
    → min ≤ max
    → 0 < step
    → generalize_measure min max step raw ≡ ok w
    → Admits (quantized min max step) w
generalize_measure-Admits min max step raw w l h e =
    let (c, lower, upper, r) = generalize_measure_lem min max step raw l in
    let (u, q) = floor_lem min max step c lower upper h in
    let same : SignalValue.measure (c - (c - min) % step) ≡ w = ground (arith, r, e) in
    subst (Admits (quantized min max step)) same (u, ((c - min) / step, q))

module _ (f : SignalValue → Result SignalValue (Halt SchemaViolation))
    (T : SignalValue → Type 0) where
  collect_values-EachValue :
      ((v w : SignalValue) → f v ≡ ok w → T w)
      → (n : ℕ) (vs ws : SignalValues) → collect_values f n vs ≡ ok ws
      → (len ws ≤ n) × EachValue T ws
  unfolding collect_values
  collect_values-EachValue t zero vs nil e = (omega arith, tt)
  collect_values-EachValue t zero vs (cons w ws) e = absurd (ground arith)
  collect_values-EachValue t (suc n) nil nil e = (omega arith, tt)
  collect_values-EachValue t (suc n) nil (cons w ws) e = absurd (ground arith)
  collect_values-EachValue t (suc n) (cons v vs) nil e = absurd (ground arith)
  collect_values-EachValue t (suc n) (cons v vs) (cons w ws) e =
      let (l, a) = collect_values-EachValue t n vs ws (ground arith) in
      (omega (arith, l), (t v w (ground arith), a))

  collect_values-fixed :
      ((v : SignalValue) → T v → f v ≡ ok v)
      → (n : ℕ) (vs : SignalValues) → len vs ≤ n
      → EachValue T vs
      → collect_values f n vs ≡ ok vs
  unfolding collect_values
  collect_values-fixed t zero nil l a = refl
  collect_values-fixed t (suc n) nil l a = refl
  collect_values-fixed t zero (cons v vs) l a = absurd (omega arith)
  collect_values-fixed t (suc n) (cons v vs) l a =
      ground (arith, t v a.0, collect_values-fixed t n vs (omega arith) a.1)

  collect_values_never_panics :
      ((v : SignalValue) → f v ≢ err panicked)
      → (n : ℕ) (vs : SignalValues) → collect_values f n vs ≢ err panicked
  unfolding collect_values
  collect_values_never_panics t zero vs e = ground arith
  collect_values_never_panics t (suc n) nil e = ground arith
  collect_values_never_panics t (suc n) (cons v vs) e =
      ground (arith, t v, collect_values_never_panics t n vs)

generalize-Admits :
    (d : FieldDomain) (v w : SignalValue) → IsWellFormed d → generalize d v ≡ ok w → Admits d w
unfolding generalize
generalize-Admits (enumeration allowed) (SignalValue.token t) w h e =
    let same : SignalValue.token t ≡ w = ground arith in
    subst (Admits (enumeration allowed)) same (ground arith)
generalize-Admits (quantized min max step) (SignalValue.measure n) w h e =
    generalize_measure-Admits min max step n w h.0 h.1 e
generalize-Admits (FieldDomain.sequence item m) (SignalValue.sequence vs) w h e =
    elim (Result-cases (collect_values (λ v. generalize item v) m vs)) [
      | inl (ws, r) ↦
          let same : SignalValue.sequence ws ≡ w = ground arith in
          subst (Admits (FieldDomain.sequence item m)) same (
            collect_values-EachValue (λ v. generalize item v) (λ v. Admits item v)
              (λ v u k. generalize-Admits item v u h.1 k) m vs ws r)
      | inr (x, r) ↦ absurd (ground arith)
    ]
generalize-Admits (enumeration allowed) (SignalValue.measure n) w h e = absurd (ground arith)
generalize-Admits (enumeration allowed) (SignalValue.sequence vs) w h e = absurd (ground arith)
generalize-Admits (quantized min max step) (SignalValue.token t) w h e = absurd (ground arith)
generalize-Admits (quantized min max step) (SignalValue.sequence vs) w h e = absurd (ground arith)
generalize-Admits (FieldDomain.sequence item m) (SignalValue.token t) w h e = absurd (ground arith)
generalize-Admits (FieldDomain.sequence item m) (SignalValue.measure n) w h e =
    absurd (ground arith)

generalize_measure-fixed :
    (min max step k n : ℕ)
    → 0 < step
    → n ≤ max
    → n ≡ min + k * step
    → generalize_measure min max step n ≡ ok (SignalValue.measure n)
unfolding generalize_measure clamp
generalize_measure-fixed min max step k n h l e =
    let lower : min ≤ n = omega (arith, e) in
    let exact : (n - min) % step ≡ 0 = ((steps_above min step n h).1 (k, e)).1 in
    ground (arith, lower, exact)

Admits-generalize :
    (d : FieldDomain) (v : SignalValue) → IsWellFormed d → Admits d v → generalize d v ≡ ok v
unfolding generalize
Admits-generalize (enumeration allowed) (SignalValue.token t) h a = ground arith
Admits-generalize (quantized min max step) (SignalValue.measure n) h (l, (k, e)) =
    generalize_measure-fixed min max step k n h.1 l e
Admits-generalize (FieldDomain.sequence item m) (SignalValue.sequence vs) h (l, a) = ground (
  arith,
  collect_values-fixed (λ v. generalize item v) (λ v. Admits item v)
      (λ v b. Admits-generalize item v h.1 b) m vs l a,
)
Admits-generalize (enumeration allowed) (SignalValue.measure n) h a = absurd a
Admits-generalize (enumeration allowed) (SignalValue.sequence vs) h a = absurd a
Admits-generalize (quantized min max step) (SignalValue.token t) h a = absurd a
Admits-generalize (quantized min max step) (SignalValue.sequence vs) h a = absurd a
Admits-generalize (FieldDomain.sequence item m) (SignalValue.token t) h a = absurd a
Admits-generalize (FieldDomain.sequence item m) (SignalValue.measure n) h a = absurd a

-- Into a well-formed domain, generalizing never panics: it gives a value or a violation.
pub generalize_never_panics :
    (d : FieldDomain) (v : SignalValue) → IsWellFormed d → generalize d v ≢ err panicked
unfolding generalize
generalize_never_panics (enumeration allowed) (SignalValue.token t) h e = ground arith
generalize_never_panics (quantized min max step) (SignalValue.measure n) h e =
    let (c, lower, upper, r) = generalize_measure_lem min max step n h.0 in cc (r, e)
generalize_never_panics (FieldDomain.sequence item m) (SignalValue.sequence vs) h e = ground (
  arith,
  collect_values_never_panics (λ v. generalize item v) (λ v. Admits item v)
      (λ v k. generalize_never_panics item v h.1 k) m vs,
)
generalize_never_panics (enumeration allowed) (SignalValue.measure n) h e = ground arith
generalize_never_panics (enumeration allowed) (SignalValue.sequence vs) h e = ground arith
generalize_never_panics (quantized min max step) (SignalValue.token t) h e = ground arith
generalize_never_panics (quantized min max step) (SignalValue.sequence vs) h e = ground arith
generalize_never_panics (FieldDomain.sequence item m) (SignalValue.token t) h e = ground arith
generalize_never_panics (FieldDomain.sequence item m) (SignalValue.measure n) h e = ground arith

-- A value generalized into a well-formed domain passes the check, and generalizes to itself.
pub generalize-check :
    (d : FieldDomain) (v w : SignalValue)
    → IsWellFormed d
    → generalize d v ≡ ok w
    → (check d w ≡ ok tt) × (generalize d w ≡ ok w)
generalize-check d v w h e =
    let a = generalize-Admits d v w h e in ((check_iff d w h).1 a, Admits-generalize d w h a)

-- The values that a well-formed domain's check accepts are exactly those that generalize to
-- themselves.
pub check-generalize_iff :
    (d : FieldDomain) (v : SignalValue)
    → IsWellFormed d
    → (check d v ≡ ok tt) ↔ (generalize d v ≡ ok v)
check-generalize_iff d v h = (
  λ e. Admits-generalize d v h ((check_iff d v h).0 e),
  λ e. (check_iff d v h).1 (generalize-Admits d v v h e),
)
