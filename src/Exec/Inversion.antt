-- ===== src/Exec/Inversion.antt =====
-- Inversion: what a run that returned must have done.

use kom_operator.Prelude.{String, ◌≡◌, refl, ap, sym, ◌∷◌}
use kom_operator.Errors.{Result, ok, err}
use kom_operator.Platform.{Platform}
use kom_operator.Exec.{
  Exec, Sys, Outcome, Request, returns, fails, panics, LoadBalancer, pure, panic, get_lb, set_lb,
  send, lift, try, ◌>>=◌, continue, caught, of_result,
}

of_result_inv : {A : Type 0} (r : Result A) (a : A) → of_result r ≡ returns a → r ≡ ok a
of_result_inv (ok x) a h = cc
of_result_inv (err e) a h = cc

module _ {p : Platform} where
  -- `m` starts in `s`, returns `a` and ends in `t`.
  abbrev pub Returns : {A : Type 0} → Exec p A → Sys p → A → Sys p → Type 0
  Returns m s a t = m s ≡ (returns a, t)

  continue_inv :
      {A B : Type 0} (r : Outcome A × Sys p) (f : A → Exec p B) (b : B) (t : Sys p)
      → continue r f ≡ (returns b, t)
      → (a : A) × (u : Sys p) × (r ≡ (returns a, u)) × Returns (f a) u b t
  continue_inv (returns a, u) f b t h = (a, u, refl, h)
  continue_inv (fails e, u) f b t h = absurd (cc (ap (λ x. x.0) h))
  continue_inv (panics e, u) f b t h = absurd (cc (ap (λ x. x.0) h))

  pub >>=-Returns :
      {A B : Type 0} (m : Exec p A) (f : A → Exec p B) (s : Sys p) (b : B) (t : Sys p)
      → Returns (m >>= f) s b t
      → (a : A) × (u : Sys p) × Returns m s a u × Returns (f a) u b t
  unfolding ◌>>=◌
  >>=-Returns m f s b t h = continue_inv (m s) f b t h

  pub send-Returns :
      {A : Type 0} (r : Request) (call : p.World → Result A × p.World) (s : Sys p) (a : A)
      (t : Sys p)
      → Returns (send r call) s a t
      → ((call s.world).0 ≡ ok a)
        × (t.sent ≡ r ∷ s.sent)
        × (t.lb ≡ s.lb)
        × (t.world ≡ (call s.world).1)
  unfolding send
  send-Returns r call s a t h = (
    of_result_inv (call s.world).0 a (ap (λ x. x.0) h),
    sym (ap (λ x. x.1.sent) h),
    sym (ap (λ x. x.1.lb) h),
    sym (ap (λ x. x.1.world) h),
  )

  pub lift-Returns :
      {A : Type 0} (r : Result A) (s : Sys p) (a : A) (t : Sys p)
      → Returns (lift r) s a t
      → (r ≡ ok a) × (t ≡ s)
  unfolding lift
  lift-Returns (ok x) s a t h = (cc (ap (λ x. x.0) h), sym (ap (λ x. x.1) h))
  lift-Returns (err e) s a t h = absurd (cc (ap (λ x. x.0) h))

  pub pure-Returns :
      {A : Type 0} (x : A) (s : Sys p) (a : A) (t : Sys p)
      → Returns (pure x) s a t
      → (x ≡ a) × (t ≡ s)
  unfolding pure
  pure-Returns x s a t h = (cc (ap (λ x. x.0) h), sym (ap (λ x. x.1) h))

  pub get_lb-Returns :
      (s : Sys p) (a : LoadBalancer) (t : Sys p) → Returns get_lb s a t → (a ≡ s.lb) × (t ≡ s)
  unfolding get_lb
  get_lb-Returns s a t h = (cc (ap (λ x. x.0) h), sym (ap (λ x. x.1) h))

  pub set_lb-Returns :
      (lb : LoadBalancer) (s : Sys p) (a : Unit {0}) (t : Sys p)
      → Returns (set_lb lb) s a t
      → (t.lb ≡ lb) × (t.sent ≡ s.sent)
  unfolding set_lb
  set_lb-Returns lb s a t h = (sym (ap (λ x. x.1.lb) h), sym (ap (λ x. x.1.sent) h))

  pub panic-Returns :
      {A : Type 0} (reason : String) (s : Sys p) (a : A) (t : Sys p)
      → ¬ Returns (panic reason) s a t
  unfolding panic
  panic-Returns reason s a t h = cc (ap (λ x. x.0) h)

  pub continue-returns :
      {A B : Type 0} (r : Outcome A × Sys p) (f : A → Exec p B) (a : A)
      → r.0 ≡ returns a
      → continue r f ≡ f a r.1
  continue-returns (returns x, s) f a h = cc
  continue-returns (fails e, s) f a h = cc
  continue-returns (panics e, s) f a h = cc

  caught_inv :
      {A : Type 0} (r : Outcome A × Sys p) (a : A) (t : Sys p)
      → caught r ≡ (returns (ok a), t)
      → r ≡ (returns a, t)
  caught_inv (returns x, u) a t h = cc (h)
  caught_inv (fails e, u) a t h = absurd (cc (ap (λ x. x.0) h))
  caught_inv (panics e, u) a t h = absurd (cc (ap (λ x. x.0) h))

  pub try-Returns :
      {A : Type 0} (m : Exec p A) (s : Sys p) (a : A) (t : Sys p)
      → Returns (try m) s (ok a) t
      → Returns m s a t
  unfolding try
  try-Returns m s a t h = caught_inv (m s) a t h

  caught_reply :
      {A : Type 0} (r x : Result A) (s t : Sys p) → caught (of_result r, s) ≡ (returns x, t) → r ≡ x
  caught_reply (ok a) x s t h = cc (ap (λ z. z.0) h)
  caught_reply (err e) x s t h = cc (ap (λ z. z.0) h)

  pub reply-Returns :
      {A : Type 0} (r : Request) (call : p.World → Result A × p.World) (s : Sys p) (x : Result A)
      (t : Sys p)
      → Returns (try (send r call)) s x t
      → (call s.world).0 ≡ x
  unfolding try send
  reply-Returns r call s x t h = caught_reply (call s.world).0 x _ t h
