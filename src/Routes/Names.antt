-- ===== src/Routes/Names.antt =====
-- The keys under which the routes of a microservice stand.
use Prim.Native.String.{◌++◌}
use text.Mathlib.TextLemmas.{append_assoc, nil-append, append_cancel_left}
use kom_operator.Prelude.{String, ◌+◌, ◌≡◌, ◌↔◌, subst, sym, ap, ◌∙◌, true, false, ℤ, arith}
use kom_operator.Text.{contains}
use kom_operator.Text.Contains.{contains-append, contains_sound}
use kom_operator.Text.Underscores.{
  underscores, underscores-append, underscores_one, split_at_underscore,
}
use kom_operator.Decimal.{itoa}
use kom_operator.Decimal.RoundTrip.{itoa_inj}
use kom_operator.Decimal.Plain.{underscores-itoa}
use kom_operator.Routes.{is_internal, router_name, router_prefix}

-- A name as Kubernetes accepts it for a namespace or a service: no underscore stands in it.
abbrev pub IsPlain : String → Type 0
IsPlain s = underscores s ≡ 0

module _ (namespace service : String) (external : is_internal service ≡ false) where
  pub router_name_lem :
      (port : ℤ)
      → router_name namespace service port ≡ namespace ++ ("_" ++ (service ++ ("_" ++ itoa port)))
  unfolding router_name
  router_name_lem port = rw external

  pub router_name-prefix :
      (port : ℤ) → router_name namespace service port ≡ router_prefix namespace service ++ itoa port
  unfolding router_prefix
  router_name-prefix port =
      router_name_lem port
      ∙ sym (
          append_assoc namespace ("_" ++ (service ++ "_")) (itoa port)
          ∙ ap (◌++◌ namespace) (
              append_assoc "_" (service ++ "_") (itoa port)
              ∙ ap (◌++◌ "_") (append_assoc service "_" (itoa port))))

  pub contains-router_name :
      (port : ℤ)
      → contains (router_name namespace service port) (router_prefix namespace service) ≡ true
  contains-router_name port =
      subst (λ x. contains x (router_prefix namespace service) ≡ true)
        (nil-append _ ∙ sym (router_name-prefix port))
        (contains-append "" (router_prefix namespace service) (itoa port))

  -- Two routes of a microservice have the same key only on the same port.
  pub router_name_inj :
      (p q : ℤ) → router_name namespace service p ≡ router_name namespace service q → p ≡ q
  router_name_inj p q e = itoa_inj p q (
      append_cancel_left (router_prefix namespace service) (itoa p) (itoa q)
        (sym (router_name-prefix p) ∙ (e ∙ router_name-prefix q)))

underscores-sum :
    (a b c : String)
    → underscores (a ++ ("_" ++ (b ++ ("_" ++ c))))
      ≡ underscores a + underscores b + underscores c + 2
underscores-sum a b c = omega (
  arith,
  underscores_one,
  underscores-append a ("_" ++ (b ++ ("_" ++ c))),
  underscores-append "_" (b ++ ("_" ++ c)),
  underscores-append b ("_" ++ c),
  underscores-append "_" c,
)

regroup :
    (a n s u : String)
    → a ++ ((n ++ ("_" ++ (s ++ "_"))) ++ u) ≡ (a ++ n) ++ ("_" ++ (s ++ ("_" ++ u)))
regroup a n s u = simp append_assoc

prefix_inside : (a n s u : String) → router_prefix (a ++ n) s ++ u ≡ a ++ (router_prefix n s ++ u)
unfolding router_prefix
prefix_inside a n s u = simp append_assoc

-- What follows from a key of one microservice holding the prefix of another.
module _ (n s n' s' : String) (port : ℤ) (plain : IsPlain n × IsPlain s × IsPlain n' × IsPlain s')
    (external : is_internal s' ≡ false) where
  open plain use {0 as plain_n, 1 as plain_s, 2 as plain_n', 3 as plain_s'}

  same_text :
      (a u : String)
      → router_name n' s' port ≡ a ++ (router_prefix n s ++ u)
      → n' ++ ("_" ++ (s' ++ ("_" ++ itoa port))) ≡ (a ++ n) ++ ("_" ++ (s ++ ("_" ++ u)))
  unfolding router_prefix
  same_text a u e = sym (router_name_lem n' s' external port) ∙ (e ∙ regroup a n s u)

  prefix_split :
      (a u : String)
      → router_name n' s' port ≡ a ++ (router_prefix n s ++ u)
      → (n' ≡ a ++ n) × (s' ≡ s)
  prefix_split a u e =
      let same = same_text a u e in
      let free : underscores (a ++ n) ≡ 0 = omega (
        arith,
        underscores-sum n' s' (itoa port),
        underscores-sum (a ++ n) s u,
        ap underscores same,
        underscores-itoa port,
      ) in
      let (eq_n, rest) = split_at_underscore n' (a ++ n) _ _ plain_n' free same in
      (eq_n, (split_at_underscore s' s _ _ plain_s' plain_s rest).0)

  name_inside :
      (a : String)
      → n' ≡ a ++ n
      → s' ≡ s
      → router_name n' s' port ≡ a ++ (router_prefix n s ++ itoa port)
  name_inside a eq_n eq_s =
      router_name-prefix n' s' external port
      ∙ (ap (λ x. router_prefix x s' ++ itoa port) eq_n
          ∙ (ap (λ y. router_prefix (a ++ n) y ++ itoa port) eq_s
              ∙ prefix_inside a n s (itoa port)))

  -- For names without underscores and an owner of the key that is not internal, the key of a route
  -- of `s'` in `n'` contains the prefix of `s` in `n` exactly when the two services have the same
  -- name and the namespace `n'` ends in `n`.
  pub router_name-contains-prefix_iff :
      (contains (router_name n' s' port) (router_prefix n s) ≡ true)
      ↔ ((a : String) × (n' ≡ a ++ n) × (s' ≡ s))
  router_name-contains-prefix_iff = (
    λ h.
        let (a, u, e) = contains_sound (router_name n' s' port) (router_prefix n s) h in
        let (eq_n, eq_s) = prefix_split a u e in (a, eq_n, eq_s),
    λ (a, eq_n, eq_s).
        subst (λ x. contains x (router_prefix n s) ≡ true) (sym (name_inside a eq_n eq_s))
          (contains-append a (router_prefix n s) (itoa port)),
  )
