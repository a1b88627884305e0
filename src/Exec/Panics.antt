-- ===== src/Exec/Panics.antt =====
-- Where code may panic: rules for each construct.
use kom_operator.Prelude.{String, Bool, true, false, if◌then◌else◌, ◌≡◌, refl, ap, subst}
use kom_operator.Errors.{Error, Result, ok, err}
use kom_operator.Platform.{Platform}
use kom_operator.Exec.{
  Exec, Sys, Outcome, Request, LoadBalancer, returns, fails, panics, pure, fail, panic, get_lb,
  set_lb, send, lift, try, ◌>>=◌, continue, caught, of_result,
}
use kom_operator.Exec.Inversion.{Returns}

-- If `m` panics from `s`, it does so in a state that satisfies `B`.
pub record PanicsIn {p : Platform} (B : Sys p → Type 0) {A : Type 0} (m : Exec p A) (s : Sys p)
    : Type 0 where
  pub blames : (t : Sys p) (reason : String) → m s ≡ (panics reason, t) → B t

result_calm : {A : Type 0} (r : Result A) (reason : String) → of_result r ≡ panics reason → ⊥
result_calm (ok a) reason h = cc
result_calm (err e) reason h = cc

module _ {p : Platform} {B : Sys p → Type 0} where
  continue_panics :
      {A C : Type 0} (r : Outcome A × Sys p) (f : A → Exec p C)
      → ((t : Sys p) (reason : String) → r ≡ (panics reason, t) → B t)
      → ((a : A) (u : Sys p) → r ≡ (returns a, u) → PanicsIn B (f a) u)
      → (t : Sys p) (reason : String) → continue r f ≡ (panics reason, t)
      → B t
  continue_panics (returns a, u) f first rest t reason h = (rest a u refl).blames t reason h
  continue_panics (fails e, u) f first rest t reason h = absurd (cc (ap (λ x. x.0) h))
  continue_panics (panics why, u) f first rest t reason h =
      first t why (ap (λ (x : _ × Sys p). (panics why, x.1)) h)

  pub PanicsIn-bind :
      {A C : Type 0} {m : Exec p A} {f : A → Exec p C} {s : Sys p}
      → PanicsIn B m s
      → ((a : A) (u : Sys p) → Returns m s a u → PanicsIn B (f a) u)
      → PanicsIn B (m >>= f) s
  unfolding ◌>>=◌
  PanicsIn-bind {m = m} {f = f} {s = s} first rest = record {
    blames = continue_panics (m s) f first.blames rest;
  }

  caught_panics :
      {A : Type 0} (r : Outcome A × Sys p)
      → ((t : Sys p) (reason : String) → r ≡ (panics reason, t) → B t)
      → (t : Sys p) (reason : String) → caught r ≡ (panics reason, t)
      → B t
  caught_panics (returns a, u) first t reason h = absurd (cc (ap (λ x. x.0) h))
  caught_panics (fails e, u) first t reason h = absurd (cc (ap (λ x. x.0) h))
  caught_panics (panics why, u) first t reason h =
      first t why (ap (λ (x : _ × Sys p). (panics why, x.1)) h)

  pub PanicsIn-try : {A : Type 0} {m : Exec p A} {s : Sys p} → PanicsIn B m s → PanicsIn B (try m) s
  unfolding try
  PanicsIn-try {m = m} {s = s} first = record { blames = caught_panics (m s) first.blames }

  pub PanicsIn-returns :
      {A : Type 0} {m : Exec p A} {s : Sys p} {a : A} → (m s).0 ≡ returns a → PanicsIn B m s
  PanicsIn-returns e = record { blames = λ t reason h. absurd (cc (e, ap (λ x. x.0) h)) }

  pub PanicsIn-pure : {A : Type 0} {s : Sys p} (a : A) → PanicsIn B (pure a) s
  unfolding pure
  PanicsIn-pure a = record { blames = λ t reason h. absurd (cc (ap (λ x. x.0) h)) }

  pub PanicsIn-fail : {A : Type 0} {s : Sys p} (e : Error) → PanicsIn B (fail {A = A} e) s
  unfolding fail
  PanicsIn-fail e = record { blames = λ t reason h. absurd (cc (ap (λ x. x.0) h)) }

  pub PanicsIn-get_lb : {s : Sys p} → PanicsIn B get_lb s
  unfolding get_lb
  PanicsIn-get_lb = record { blames = λ t reason h. absurd (cc (ap (λ x. x.0) h)) }

  pub PanicsIn-set_lb : {s : Sys p} (lb : LoadBalancer) → PanicsIn B (set_lb lb) s
  unfolding set_lb
  PanicsIn-set_lb lb = record { blames = λ t reason h. absurd (cc (ap (λ x. x.0) h)) }

  pub PanicsIn-lift : {A : Type 0} {s : Sys p} (r : Result A) → PanicsIn B (lift r) s
  unfolding lift
  PanicsIn-lift r = record {
    blames = λ t reason h. absurd (result_calm r reason (ap (λ x. x.0) h));
  }

  pub PanicsIn-send :
      {A : Type 0} {s : Sys p} (r : Request) (call : p.World → Result A × p.World)
      → PanicsIn B (send r call) s
  unfolding send
  PanicsIn-send {s = s} r call = record {
    blames = λ t reason h. absurd (result_calm (call s.world).0 reason (ap (λ x. x.0) h));
  }

  pub PanicsIn-panic :
      {A : Type 0} {s : Sys p} (why : String) → B s → PanicsIn B (panic {A = A} why) s
  unfolding panic
  PanicsIn-panic why holds = record { blames = λ t reason h. subst B (ap (λ x. x.1) h) holds }

  pub PanicsIn-if :
      {A : Type 0} {m n : Exec p A} {s : Sys p} (b : Bool)
      → (b ≡ true → PanicsIn B m s)
      → (b ≡ false → PanicsIn B n s)
      → PanicsIn B (if b then m else n) s
  PanicsIn-if true first second = first refl
  PanicsIn-if false first second = second refl
