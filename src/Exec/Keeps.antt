-- ===== src/Exec/Keeps.antt =====
-- Invariants of Go code: what stays true however it ends, and what holds of the value it returns.
use kom_operator.Prelude.{String, ◌≡◌, refl, subst, Bool, true, false, ◌∷◌, if◌then◌else◌}
use kom_operator.Errors.{Error, Result, ok, err}
use kom_operator.Platform.{Platform}
use kom_operator.Exec.{
  Exec, Sys, Outcome, Request, returns, fails, panics, LoadBalancer, pure, fail, panic, get_lb,
  set_lb, send, try, lift, ◌>>=◌, continue, caught, of_result,
}

abbrev pub Any : {A : Type 0} → A → Type 0
Any a = Unit

-- What `try` gives when the code succeeded.
abbrev pub OnSuccess : {A : Type 0} → (A → Type 0) → Result A → Type 0
OnSuccess Q (ok a) = Q a
OnSuccess Q (err e) = Unit

returns_inj : {A : Type 0} {a b : A} → returns a ≡ returns b → a ≡ b
returns_inj e = cc

of_result_returns : {A : Type 0} (r : Result A) (a : A) → of_result r ≡ returns a → r ≡ ok a
of_result_returns (ok x) a h = cc
of_result_returns (err e) a h = cc

module _ {p : Platform} where
  -- `m` keeps `I` on every way out, and a value that it returns satisfies `Q`.
  pub record Keeps {A : Type 0} (I : Sys p → Type 0) (m : Exec p A) (Q : A → Type 0) : Type 0 where
    pub state : (s : Sys p) → I s → I (m s).1
    pub value : (s : Sys p) → I s → (a : A) → (m s).0 ≡ returns a → Q a

module _ {p : Platform} where
  caught_state :
      (I : Sys p → Type 0) {A : Type 0} {Q : A → Type 0} (r : Outcome A × Sys p)
      → I r.1
      → ((a : A) → r.0 ≡ returns a → Q a)
      → I (caught r).1 × ((b : Result A) → (caught r).0 ≡ returns b → OnSuccess Q b)
  caught_state I {Q = Q} (returns a, s) i q =
      (i, λ b h. subst (OnSuccess Q) (returns_inj h) (q a refl))
  caught_state I {Q = Q} (fails e, s) i q = (i, λ b h. subst (OnSuccess Q) (returns_inj h) tt)
  caught_state I (panics e, s) i q = (i, λ b h. cc)

module _ {p : Platform} {I : Sys p → Type 0} where
  pub Keeps-pure : {A : Type 0} {Q : A → Type 0} (a : A) → Q a → Keeps I (pure a) Q
  unfolding pure
  Keeps-pure {Q = Q} a q = record { state = λ s i. i; value = λ s i b e. subst Q (returns_inj e) q }

  pub Keeps-fail : {A : Type 0} {Q : A → Type 0} (e : Error) → Keeps I (fail e) Q
  unfolding fail
  Keeps-fail e = record { state = λ s i. i; value = λ s i b h. cc }

  pub Keeps-panic : {A : Type 0} {Q : A → Type 0} (reason : String) → Keeps I (panic reason) Q
  unfolding panic
  Keeps-panic reason = record { state = λ s i. i; value = λ s i b h. cc }

  pub Keeps-get_lb : {Q : LoadBalancer → Type 0} → ((s : Sys p) → I s → Q s.lb) → Keeps I get_lb Q
  unfolding get_lb
  Keeps-get_lb {Q = Q} q = record {
    state = λ s i. i;
    value = λ s i b e. subst Q (returns_inj e) (q s i);
  }

  pub Keeps-set_lb :
      (lb : LoadBalancer) → ((s : Sys p) → I s → I (record s { lb = lb })) → Keeps I (set_lb lb) Any
  unfolding set_lb
  Keeps-set_lb lb k = record { state = k; value = λ s i b e. tt }

  pub Keeps-lift :
      {A : Type 0} {Q : A → Type 0} (r : Result A) → ((a : A) → r ≡ ok a → Q a) → Keeps I (lift r) Q
  unfolding lift
  Keeps-lift r q = record { state = λ s i. i; value = λ s i a e. q a (of_result_returns r a e) }

  pub Keeps-send :
      {A : Type 0} {Q : A → Type 0} (r : Request) (call : p.World → Result A × p.World)
      → ((s : Sys p) → I s → I (record s { world = (call s.world).1; sent = r ∷ s.sent }))
      → ((s : Sys p) → I s → (a : A) → (call s.world).0 ≡ ok a → Q a)
      → Keeps I (send r call) Q
  unfolding send
  Keeps-send r call k q = record {
    state = k;
    value = λ s i a e. q s i a (of_result_returns (call s.world).0 a e);
  }

  continue_state :
      {A B : Type 0} {Q : A → Type 0} {R : B → Type 0} (r : Outcome A × Sys p) (f : A → Exec p B)
      → I r.1
      → ((a : A) → r.0 ≡ returns a → Q a)
      → ((a : A) → Q a → Keeps I (f a) R)
      → I (continue r f).1 × ((b : B) → (continue r f).0 ≡ returns b → R b)
  continue_state (returns a, s) f i q k = ((k a (q a refl)).state s i, (k a (q a refl)).value s i)
  continue_state (fails e, s) f i q k = (i, λ b h. cc)
  continue_state (panics e, s) f i q k = (i, λ b h. cc)

  pub Keeps-bind :
      {A B : Type 0} {Q : A → Type 0} {R : B → Type 0} {m : Exec p A} {f : A → Exec p B}
      → Keeps I m Q
      → ((a : A) → Q a → Keeps I (f a) R)
      → Keeps I (m >>= f) R
  unfolding ◌>>=◌
  Keeps-bind {m = m} {f = f} km kf = record {
    state = λ s i. (continue_state (m s) f (km.state s i) (km.value s i) kf).0;
    value = λ s i. (continue_state (m s) f (km.state s i) (km.value s i) kf).1;
  }

  pub Keeps-try :
      {A : Type 0} {Q : A → Type 0} {m : Exec p A} → Keeps I m Q → Keeps I (try m) (OnSuccess Q)
  unfolding try
  Keeps-try {m = m} km = record {
    state = λ s i. (caught_state I (m s) (km.state s i) (km.value s i)).0;
    value = λ s i. (caught_state I (m s) (km.state s i) (km.value s i)).1;
  }

  pub Keeps-if :
      {A : Type 0} {Q : A → Type 0} (b : Bool) {m n : Exec p A}
      → (b ≡ true → Keeps I m Q)
      → (b ≡ false → Keeps I n Q)
      → Keeps I (if b then m else n) Q
  Keeps-if true k l = k refl
  Keeps-if false k l = l refl

  -- The value may be forgotten.
  pub Keeps-Any : {A : Type 0} {Q : A → Type 0} {m : Exec p A} → Keeps I m Q → Keeps I m Any
  Keeps-Any k = record { state = k.state; value = λ s i a e. tt }

  -- What the first step brings about, the rest keeps.
  pub bind_reaches :
      {A B : Type 0} {Q : A → Type 0} {R : B → Type 0} (m : Exec p A) (f : A → Exec p B) (s : Sys p)
      → I (m s).1
      → ((a : A) → (m s).0 ≡ returns a → Q a)
      → ((a : A) → Q a → Keeps I (f a) R)
      → I ((m >>= f) s).1
  unfolding ◌>>=◌
  bind_reaches m f s i q kf = (continue_state (m s) f i q kf).0

module _ {p : Platform} (I : Sys p → Type 0) where
  pub try_reaches : {A : Type 0} (m : Exec p A) (s : Sys p) → I (m s).1 → I (try m s).1
  unfolding try
  try_reaches m s i = (caught_state I {Q = Any} (m s) i (λ a e. tt)).0
