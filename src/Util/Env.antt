-- ===== src/Util/Env.antt =====
-- util/k8sutil.go and util/komutil.go: what the operator reads from its environment variables, and
-- the namespace file that Kubernetes mounts.
use text.Mathlib.Text.{◌==◌ as str_eq}
use Prim.Native.Char.{Char, code}
use Prim.Native.String.{[], ◌∷◌}
use kom_operator.Prelude.{
  ℕ, String, Bool, ◌||◌, ◌&&◌, Option, none, some, ℤ, pos, eqb, leb, if◌then◌else◌, ◌≡◌, refl,
}
use kom_operator.Decimal.{atoi}
use kom_operator.Errors.{Result, ok, err, env_not_set, env_empty}
use kom_operator.Platform.{Platform}

abbrev pub watch_namespace_env_var : String
watch_namespace_env_var = "WATCH_NAMESPACE"

abbrev pub operator_name_env_var : String
operator_name_env_var = "OPERATOR_NAME"

abbrev pub pod_name_env_var : String
pod_name_env_var = "POD_NAME"

abbrev pub loadbalancer_published_service_var : String
loadbalancer_published_service_var = "LOADBALANCER_PUBLISHED_SERVICE"

abbrev pub loadbalancer_replica_count_var : String
loadbalancer_replica_count_var = "LOADBALANCER_REPLICA_COUNT"

abbrev pub kom_operator_run_mode_env_var : String
kom_operator_run_mode_env_var = "KOM_OPERATOR_RUNMODE"

-- The white space of Unicode, as `strings.TrimSpace` has it.
is_space : ℕ → Bool
is_space c =
    leb 9 c && leb c 13
    || eqb c 32
    || eqb c 0x85
    || eqb c 0xa0
    || eqb c 0x1680
    || leb 0x2000 c && leb c 0x200a
    || eqb c 0x2028
    || eqb c 0x2029
    || eqb c 0x202f
    || eqb c 0x205f
    || eqb c 0x3000

trim_left : String → String
unfolding is_space
trim_left [] = []
trim_left (c ∷ s) = let rest = trim_left s in if is_space (code c) then rest else c ∷ s

-- A character before a trimmed text.
keep_text : Char → String → String
unfolding is_space
keep_text c [] = if is_space (code c) then [] else c ∷ []
keep_text c (d ∷ s) = c ∷ d ∷ s

trim_right : String → String
unfolding keep_text
trim_right [] = []
trim_right (c ∷ s) = keep_text c (trim_right s)

-- `strings.TrimSpace`
unfoldable pub trim_space : String → String
unfolding trim_left trim_right
trim_space s = trim_right (trim_left s)

module _ (p : Platform) where
  abbrev or_not_set : String → Option String → Result String
  or_not_set name none = err (env_not_set name)
  or_not_set name (some s) = ok s

  -- `GetWatchNamespace`
  pub get_watch_namespace : Result String
  get_watch_namespace = or_not_set watch_namespace_env_var (p.lookup_env watch_namespace_env_var)

  -- `GetLoadbalancerPublishedService`
  unfoldable pub get_loadbalancer_published_service : String
  get_loadbalancer_published_service = elim (p.lookup_env loadbalancer_published_service_var) [
    | none ↦ ""
    | some service ↦ service
  ]

  abbrev count_or_one : Option ℤ → ℤ
  count_or_one none = pos 1
  count_or_one (some n) = n

  abbrev count_of : Option String → ℤ
  count_of none = pos 1
  count_of (some replicas) = count_or_one (atoi replicas)

  -- `GetLoadbalancerReplicaCount`
  unfoldable pub get_loadbalancer_replica_count : ℤ
  get_loadbalancer_replica_count = count_of (p.lookup_env loadbalancer_replica_count_var)

  -- `GetOperatorNamespace`, which never fails
  unfoldable pub get_operator_namespace : String
  get_operator_namespace = elim p.namespace_file [
    | none ↦ "default"
    | some content ↦ trim_space content
  ]

  abbrev name_or_error : Option String → Result String
  name_or_error none = err (env_not_set operator_name_env_var)
  name_or_error (some name) =
      if str_eq name "" then err (env_empty operator_name_env_var) else ok name

  -- `GetOperatorName`
  pub get_operator_name : Result String
  get_operator_name = name_or_error (p.lookup_env operator_name_env_var)

  -- `IsRunModeLocal`; `none` is its panic, when the mode is not set.
  unfoldable pub is_run_mode_local : Option Bool
  is_run_mode_local = elim (p.lookup_env kom_operator_run_mode_env_var) [
    | none ↦ none
    | some mode ↦ some (str_eq mode "local")
  ]

module _ (p : Platform) where
  -- `GetOperatorSdkVersion`: a variable that is not set reads as the empty text.
  pub get_operator_sdk_version : String
  get_operator_sdk_version = elim (p.lookup_env "OPERATOR_SDK_DL_URL") [
    | none ↦ ""
    | some url ↦ url
  ]

trims : trim_space " kom-system " ≡ "kom-system"
unfolding trim_space
trims = refl
