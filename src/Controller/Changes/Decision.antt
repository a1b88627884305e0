-- ===== src/Controller/Changes/Decision.antt =====
-- What `hasChanges` decides.
use mathlib.Core.Logic.Or
use mathlib.Core.List.{Mem, mem-cons, not-mem-nil}
use text.Mathlib.Text.{◌==◌ as str_eq}
use kom_operator.Prelude.{
  ◌≡◌, ◌↔◌, refl, ap, ◌∙◌, Bool, true, false, not, ◌||◌, ◌&&◌, List, [], ◌∷◌, map, arith, ℤ, int_eq,
  int_eq_iff, All, inl, inr, Bool-cases, eq_iff, option_beq_iff, string_eq, list_eq, option_eq,
  if◌then◌else◌, some, none, Option-cases,
}
use kom_operator.Kube.{Deployment, PodContainer, ResourceRequirements}
use kom_operator.Api.{Microservice, Container}
use kom_operator.Util.{equals}
use kom_operator.Controller.Changes.{
  has_changes, service_changed, resources_beq, container_differs, scan_containers,
  containers_changed, deployment_changed,
}

resources_beq_iff : (a b : ResourceRequirements) → (resources_beq a b ≡ true) ↔ (a ≡ b)
unfolding resources_beq
resources_beq_iff a b = ground (
  arith,
  option_beq_iff a.limits b.limits,
  option_beq_iff a.requests b.requests,
  option_beq_iff a.claims b.claims,
)

-- The container of a pod runs what the microservice asks for.
pub record RunsAsWanted (wanted : Container) (c : PodContainer) : Type 0 where
  pub args : wanted.args ≡ c.args
  pub command : wanted.command ≡ c.command
  pub resources : wanted.resources ≡ c.resources

module _ (wanted : Container) where
  container_differs_iff :
      (c : PodContainer) → (container_differs wanted c ≡ false) ↔ RunsAsWanted wanted c
  unfolding container_differs
  container_differs_iff c = (
    λ h. record {
      args = ground (arith, option_beq_iff wanted.args c.args);
      command = ground (arith, option_beq_iff wanted.command c.command);
      resources = ground (arith, resources_beq_iff wanted.resources c.resources);
    },
    λ r. ground (
      arith,
      (option_beq_iff wanted.args c.args).1 r.args,
      (option_beq_iff wanted.command c.command).1 r.command,
      (resources_beq_iff wanted.resources c.resources).1 r.resources,
    ),
  )

  has_image : List PodContainer → Bool
  has_image [] = false
  has_image (c ∷ cs) = str_eq wanted.image c.image || has_image cs

  some_differs : List PodContainer → Bool
  some_differs [] = false
  some_differs (c ∷ cs) =
      str_eq wanted.image c.image && container_differs wanted c || some_differs cs

  scan_containers_lem :
      (cs : List PodContainer) (found changed : Bool)
      → scan_containers wanted cs found changed
        ≡ (found || has_image cs, changed || some_differs cs)
  unfolding scan_containers has_image some_differs
  scan_containers_lem [] found changed = ground arith
  scan_containers_lem (c ∷ cs) found changed = scan_containers_lem cs _ _ ∙ ground arith

  containers_changed_lem :
      (cs : List PodContainer)
      → containers_changed wanted cs ≡ (if not (has_image cs) then true else some_differs cs)
  unfolding containers_changed
  containers_changed_lem cs =
      ap (λ (r : Bool × Bool). if not r.0 then true else r.1) (scan_containers_lem cs false false)

  has_image_sound :
      (cs : List PodContainer) → has_image cs ≡ true → Mem wanted.image (map (λ c. c.image) cs)
  unfolding has_image
  has_image_sound [] h = cc
  has_image_sound (c ∷ cs) h = elim (Bool-cases (str_eq wanted.image c.image)) [
    | inl same ↦ mem-cons.1 (Or.inl ((eq_iff wanted.image c.image).0 same))
    | inr other ↦ mem-cons.1 (Or.inr (has_image_sound cs (rw other at h)))
  ]

  has_image_complete :
      (cs : List PodContainer) → Mem wanted.image (map (λ c. c.image) cs) → has_image cs ≡ true
  unfolding has_image
  has_image_complete [] m = absurd (not-mem-nil m)
  has_image_complete (c ∷ cs) m =
      Or.elim (hlevel) (mem-cons.0 m) (λ e. rw ((eq_iff wanted.image c.image).1 e))
        (λ later. ground (arith, has_image_complete cs later))

  abbrev pub Runs : PodContainer → Type 0
  Runs c = wanted.image ≡ c.image → RunsAsWanted wanted c

  same_everywhere : (cs : List PodContainer) → some_differs cs ≡ false → All Runs cs
  unfolding some_differs
  same_everywhere [] h = tt
  same_everywhere (c ∷ cs) h = (
    λ e. (container_differs_iff c).0 (ground (arith, (eq_iff wanted.image c.image).1 e)),
    same_everywhere cs (ground arith),
  )

  none_differs : (cs : List PodContainer) → All Runs cs → some_differs cs ≡ false
  unfolding some_differs
  none_differs [] h = refl
  none_differs (c ∷ cs) h = elim (Bool-cases (str_eq wanted.image c.image)) [
    | inl same ↦
        rw (same, (container_differs_iff c).1 (h.0 ((eq_iff wanted.image c.image).0 same)))
          (none_differs cs h.1)
    | inr other ↦ rw other (none_differs cs h.1)
  ]

-- What leaves the deployment unchanged.
pub record IsCurrent (instance : Microservice) (existing : Deployment) (replicas : ℤ) : Type 0 where
  pub replicas_wanted : replicas ≡ instance.spec.autoscaling.min
  pub account : existing.pod.service_account_name ≡ instance.spec.service_account_name
  pub image : Mem instance.spec.container.image (map (λ c. c.image) existing.pod.containers)
  pub runs : All (Runs instance.spec.container) existing.pod.containers

module _ (instance : Microservice) (existing : Deployment) (replicas : ℤ) where
  abbrev wanted : Container
  wanted = instance.spec.container

  abbrev cs : List PodContainer
  cs = existing.pod.containers

  current_tests :
      deployment_changed instance existing replicas ≡ false
      → (int_eq replicas instance.spec.autoscaling.min ≡ true)
        × (str_eq existing.pod.service_account_name instance.spec.service_account_name ≡ true)
        × (has_image wanted cs ≡ true)
        × (some_differs wanted cs ≡ false)
  unfolding deployment_changed
  current_tests h =
      let e = containers_changed_lem wanted cs in
      (ground (arith, e), ground (arith, e), ground (arith, e), ground (arith, e))

  -- `hasChanges` leaves a deployment alone exactly when its replica count is the minimum of the
  -- specification, its service account is the wanted one, some container has the wanted image, and
  -- all containers with that image have the wanted arguments, command and resources.
  pub deployment_changed_iff :
      (deployment_changed instance existing replicas ≡ false) ↔ IsCurrent instance existing replicas
  unfolding deployment_changed
  deployment_changed_iff = (
    λ h.
        let (same_replicas, same_account, found, same) = current_tests h in
        record {
          replicas_wanted = (int_eq_iff replicas instance.spec.autoscaling.min).0 same_replicas;
          account =
              (eq_iff existing.pod.service_account_name instance.spec.service_account_name).0
                same_account;
          image = has_image_sound wanted cs found;
          runs = same_everywhere wanted cs same;
        },
    λ c. ground (
      arith,
      containers_changed_lem wanted cs,
      (int_eq_iff replicas instance.spec.autoscaling.min).1 c.replicas_wanted,
      (eq_iff existing.pod.service_account_name instance.spec.service_account_name).1 c.account,
      has_image_complete wanted cs c.image,
      none_differs wanted cs c.runs,
    ),
  )

  -- Nothing changed.
  pub unchanged :
      existing.replicas ≡ some replicas
      → IsCurrent instance existing replicas
      → equals instance.status.routing instance.spec.container.routing ≡ true
      → has_changes instance existing ≡ some (false, false)
  unfolding has_changes service_changed
  unchanged count current routed = ground (arith, deployment_changed_iff.1 current)

-- The comparison panics only for want of a replica count.
pub uncounted :
    (instance : Microservice) (existing : Deployment)
    → has_changes instance existing ≡ none
    → existing.replicas ≡ none
unfolding has_changes
uncounted instance existing h = elim (Option-cases existing.replicas) [
  | inl e ↦ e
  | inr (n, e) ↦ absurd (cc (rw e at h))
]

pub has_changes-some :
    (instance : Microservice) (existing : Deployment) (replicas : ℤ)
    → existing.replicas ≡ some replicas
    → has_changes instance existing
      ≡ some (deployment_changed instance existing replicas, service_changed instance)
unfolding has_changes
has_changes-some instance existing replicas count = rw count refl

pub service_unchanged :
    (instance : Microservice)
    → service_changed instance ≡ false
    → equals instance.status.routing instance.spec.container.routing ≡ true
unfolding service_changed
service_unchanged instance h = ground (arith, h)

pub routing_changed :
    (instance : Microservice) (existing : Deployment) (replicas : ℤ)
    → existing.replicas ≡ some replicas
    → IsCurrent instance existing replicas
    → equals instance.status.routing instance.spec.container.routing ≡ false
    → has_changes instance existing ≡ some (false, true)
unfolding has_changes service_changed
routing_changed instance existing replicas count current routed =
    ground (arith, (deployment_changed_iff instance existing replicas).1 current)
