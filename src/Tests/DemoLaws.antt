-- ===== src/Tests/DemoLaws.antt =====
-- The demonstration platform as a server that the theorems on the system rely on.
use text.Mathlib.Text.{◌==◌ as str_eq}
use kom_operator.Prelude.{
  String, ◌≡◌, refl, ap, sym, ◌∙◌, subst, false, ◌&&◌, Option, some, Bool-cases, inl, inr, eq_iff,
  if◌then◌else◌,
}
use kom_operator.Errors.{Result, ok, ok_inj}
use kom_operator.Kube.{ConfigMap, ObjectMeta}
use kom_operator.Api.{Microservice}
use kom_operator.Exec.{Request, create_config_map, update_config_map}
use kom_operator.LoadBalancer.Controller.Held.{StoresConfigs}
use kom_operator.Cluster.{world_after, writes_config, ConfigStore, Written}
use kom_operator.Cluster.Names.{NamesKept, Named}
use kom_operator.Tests.Demo.{demo, replies, Replies, accept, refused, demo-StoresConfigs}

-- A server with one microservice, or with none, in an environment.
abbrev pub lookup_by : {T : Type 0} → (T → ObjectMeta) → T → String → String → Result T
lookup_by meta x namespace name =
    if str_eq (meta x).namespace namespace && str_eq (meta x).name name then ok x else refused

abbrev pub lookup_one : Microservice → String → String → Result Microservice
lookup_one = lookup_by (λ m. m.meta)

abbrev pub with_one : Microservice → Replies
with_one m = record replies { microservice = lookup_one m }

abbrev pub in_mode : String → Replies
in_mode mode = record replies { environment = λ name. some mode }

abbrev pub Stored : Replies → Type 0
Stored r = (c : ConfigMap) → r.update_config c ≡ ok c

pub held_after :
    (r : Replies) (q : Request) (w : ConfigMap)
    → writes_config q ≡ false
    → some (world_after (demo r) q w) ≡ some w
unfolding world_after
held_after r (create_config_map c) w h = cc
held_after r (update_config_map c) w h = cc
held_after r _ w h = refl

pub updates_config :
    (reply : Result ConfigMap) (c : ConfigMap) (before : Option ConfigMap)
    → reply ≡ ok c
    → Written c reply before (some c)
updates_config reply c before e = subst (λ x. Written c x before (some c)) (sym e) (refl, refl)

unfoldable pub demo_store :
    (r : Replies) (namespace name : String) → Stored r → ConfigStore (demo r) namespace name
demo_store r namespace name stored = record {
  held = λ w. some w;
  replies = λ w c e. ap (λ x. some x) (ok_inj e);
  leaves = held_after r;
  updates = λ c w ns n. updates_config (r.update_config c) c (some w) (stored c);
  creates = λ c w ns n. (refl, refl);
}

pub lookup_by_names :
    {T : Type 0} (meta : T → ObjectMeta) (x y : T) (namespace name : String)
    → lookup_by meta x namespace name ≡ ok y
    → ((meta y).namespace ≡ namespace) × ((meta y).name ≡ name)
lookup_by_names {T = T} meta x y namespace name e =
    elim (Bool-cases (str_eq (meta x).namespace namespace)) [
      | inl a ↦ elim (Bool-cases (str_eq (meta x).name name)) [
        | inl b ↦
            let same : x ≡ y = ok_inj (rw (a, b) at e) in
            (
              ap (λ (z : T). (meta z).namespace) (sym same)
                  ∙ (eq_iff (meta x).namespace namespace).0 a,
              ap (λ (z : T). (meta z).name) (sym same) ∙ (eq_iff (meta x).name name).0 b,
            )
        | inr b ↦ absurd (cc (rw (a, b) at e))
      ]
      | inr a ↦ absurd (cc (rw a at e))
    ]

nothing_Named :
    {T : Type 0} (meta : T → ObjectMeta)
    → Named {W = ConfigMap} meta (record {
      get = λ namespace name w. (refused, w);
      create = λ x w. (accept x, w);
      update = λ x w. (accept x, w);
      delete = λ x w. (ok tt, w);
    })
nothing_Named meta = record {
  get = λ namespace name w x e. cc;
  create = λ x y w e.
      (ap (λ z. (meta z).namespace) (sym (ok_inj e)), ap (λ z. (meta z).name) (sym (ok_inj e)));
  update = λ x y w e.
      (ap (λ z. (meta z).namespace) (sym (ok_inj e)), ap (λ z. (meta z).name) (sym (ok_inj e)));
}

-- The laws on names, where the server has no deployments, services and autoscalers.
pub demo_names :
    (found : String → String → Result Microservice) (environment : String → Option String)
    → ((namespace name : String) (x : Microservice)
        → found namespace name ≡ ok x
        → (x.meta.namespace ≡ namespace) × (x.meta.name ≡ name))
    → NamesKept (demo (record replies { microservice = found; environment = environment }))
demo_names found environment named = record {
  owners = record {
    referenced =
        λ m a b e. (ap (λ x. x.name) (sym (ok_inj e)), ap (λ x. x.namespace) (sym (ok_inj e)));
  };
  microservices = record {
    get = λ namespace name w x e. named namespace name x e;
    create = λ x y w e.
        (ap (λ z. z.meta.namespace) (sym (ok_inj e)), ap (λ z. z.meta.name) (sym (ok_inj e)));
    update = λ x y w e.
        (ap (λ z. z.meta.namespace) (sym (ok_inj e)), ap (λ z. z.meta.name) (sym (ok_inj e)));
  };
  status = λ m n w e.
      (ap (λ z. z.meta.namespace) (sym (ok_inj e)), ap (λ z. z.meta.name) (sym (ok_inj e)));
  deployments = nothing_Named (λ d. d.meta);
  services = nothing_Named (λ d. d.meta);
  scalers = nothing_Named (λ d. d.meta);
}

pub with_one_names : (m : Microservice) → NamesKept (demo (with_one m))
with_one_names m =
    demo_names (lookup_one m) replies.environment
      (λ namespace name x e. lookup_by_names (λ (z : Microservice). z.meta) m x namespace name e)

pub in_mode_names : (mode : String) → NamesKept (demo (in_mode mode))
in_mode_names mode = demo_names replies.microservice (λ name. some mode) (λ namespace name x e. cc)

pub demo_configs :
    (found : String → String → Result Microservice) (environment : String → Option String)
    → StoresConfigs (demo (record replies { microservice = found; environment = environment }))
demo_configs found environment = record {
  reads_back = demo-StoresConfigs.reads_back;
  stores = λ c d w e. ap (λ x. x.entries) (sym (ok_inj e));
}
