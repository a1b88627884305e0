-- ===== src/Main.antt =====
-- cmd/main.go: the process from its flags to the manager's end, `NewReconciler` and
-- `SetupWithManager` of internal/controller/microservice_controller.go, and `os.Setenv`.
pub mod Started
pub mod Scheme
use text.Mathlib.Text.{◌==◌ as str_eq}
use Prim.Native.Char.{code}
use Prim.Native.String.{[], ◌∷◌}
use kom_operator.Prelude.{
  ℕ, String, Bool, true, false, not, ◌&&◌, ◌||◌, if◌then◌else◌, eqb, Option, none, some, List, [],
  ◌∷◌, ◌≡◌, refl,
}
use kom_operator.Errors.{Result, ok, err}
use kom_operator.Kube.{ObjectMeta}
use kom_operator.Platform.{Platform}
use kom_operator.Exec.{LoadBalancer, Outcome, returns, fails, panics}
use kom_operator.Controller.Events.{passes_update}
use kom_operator.Util.Env.{kom_operator_run_mode_env_var}
use kom_operator.LoadBalancer.Init.{init_load_balancer}

-- The variables that `flag.Parse` sets.
pub record Flags : Type 0 where
  pub metrics_addr : String
  pub probe_addr : String
  pub mode : String
  pub enable_leader_election : Bool

-- What they are where the command line does not name them.
abbrev pub default_flags : Flags
default_flags = record {
  metrics_addr = ":8080";
  probe_addr = ":8081";
  mode = "cluster";
  enable_leader_election = false;
}

-- `ctrl.Options`, less the scheme.
pub record ManagerOptions : Type 0 where
  pub metrics_bind_address : String
  pub health_probe_bind_address : String
  pub leader_election : Bool
  pub leader_election_id : String

abbrev pub options_of : Flags → ManagerOptions
options_of flags = record {
  metrics_bind_address = flags.metrics_addr;
  health_probe_bind_address = flags.probe_addr;
  leader_election = flags.enable_leader_election;
  leader_election_id = "01825d50.kaiso.github.io";
}

-- What `SetupWithManager` hands to the builder: the kind of objects and the filter of their updates.
pub record Setup : Type 0 where
  pub kind : String
  pub passes : ObjectMeta → ObjectMeta → Bool

-- The calls of controller-runtime that can fail.
pub data Call : Type 0 where
  new_manager : ManagerOptions → Call
  add : Option LoadBalancer → Call
  complete : Setup → Call
  add_healthz_check add_readyz_check : String → Call
  start : Call

-- controller-runtime: whether there is a configuration of the client, and how the last of some calls
-- ends, the last one first.
pub record Runtime : Type 0 where
  pub has_config : Bool
  pub reply : List Call → Result (Unit {0})

-- The environment, the load balancer that `GetInstance` returns, and the calls so far, the last one
-- first.
pub record Process : Type 0 where
  pub environ : String → Option String
  pub instance_held : Option LoadBalancer
  pub calls : List Call

-- The code goes on, or the process ends, by `os.Exit` or a panic.
pub data Ending (A : Type 0) : Type 0 where
  goes : A → Ending A
  exits : ℕ → Ending A
  crashes : String → Ending A

abbrev pub Proc : Type 0 → Type 0
Proc A = Process → Ending A × Process

abbrev pub proceed : {A B : Type 0} → Ending A × Process → (A → Proc B) → Ending B × Process
proceed (goes a, s) f = f a s
proceed (exits n, s) f = (exits n, s)
proceed (crashes reason, s) f = (crashes reason, s)

infixl 5 ◌>>=◌ ◌>>◌
unfoldable pub ◌>>=◌ : {A B : Type 0} → Proc A → (A → Proc B) → Proc B
◌>>=◌ m f s = proceed (m s) f

abbrev pub ◌>>◌ : {B : Type 0} → Proc (Unit {0}) → Proc B → Proc B
m >> n = m >>= λ _. n

unfoldable pub exit : {A : Type 0} → ℕ → Proc A
exit n s = (exits n, s)

unfoldable pub skip : Proc (Unit {0})
skip s = (goes tt, s)

has_char : ℕ → String → Bool
has_char n [] = false
has_char n (c ∷ s) = eqb (code c) n || has_char n s

-- What `os.Setenv` accepts: no NUL anywhere, and a key that is not empty and has no `=`.
unfoldable pub can_set : String → String → Bool
unfolding has_char
can_set key value =
    not (str_eq key "" || has_char 61 key || has_char 0 key) && not (has_char 0 value)

-- `os.Setenv`, whose error is ignored.
unfoldable pub setenv : String → String → (String → Option String) → String → Option String
setenv key value env name =
    if can_set key value then (if str_eq name key then some value else env name) else env name

-- The platform of a process with this environment.
abbrev pub in_env : Platform → (String → Option String) → Platform
in_env p env = record p { lookup_env = env }

unfoldable pub set_run_mode : String → Proc (Unit {0})
set_run_mode mode s =
    (goes tt, record s { environ = setenv kom_operator_run_mode_env_var mode s.environ })

-- What the reconciler watches.
abbrev pub setup : Setup
setup = record { kind = "Microservice"; passes = passes_update }

module _ (p : Platform) (r : Runtime) where
  unfoldable pub call : Call → Proc (Result (Unit {0}))
  call c s = (goes (r.reply (c ∷ s.calls)), record s { calls = c ∷ s.calls })

  abbrev pub exit_on_error : Result (Unit {0}) → Proc (Unit {0})
  exit_on_error (ok done) = skip
  exit_on_error (err e) = exit 1

  unfoldable pub call_or_exit : Call → Proc (Unit {0})
  call_or_exit c = call c >>= exit_on_error

  -- `GetConfigOrDie`
  unfoldable pub get_config_or_die : Proc (Unit {0})
  get_config_or_die = if r.has_config then skip else exit 1

  -- `InitLoadBalancer` in the environment of the process, its error and its panic.
  abbrev pub hold : Outcome LoadBalancer → Proc (Unit {0})
  hold (returns lb) s = (goes tt, record s { instance_held = some lb })
  hold (fails e) s = (exits 1, s)
  hold (panics reason) s = (crashes reason, s)

  unfoldable pub init_instance : String → Proc (Unit {0})
  init_instance name s = hold (init_load_balancer (in_env p s.environ) name s.instance_held) s

  unfoldable pub get_instance : Proc (Option LoadBalancer)
  get_instance s = (goes s.instance_held, s)

  -- From the parsed flags to the end of the manager.
  unfoldable pub main : Flags → Proc (Unit {0})
  main flags = do
    get_config_or_die
    call_or_exit (new_manager (options_of flags))
    set_run_mode flags.mode
    init_instance "kom-loadbalancer"
    instance ← get_instance
    ignored ← call (add instance)
    call_or_exit (complete setup)
    call_or_exit (add_healthz_check "healthz")
    call_or_exit (add_readyz_check "readyz")
    call_or_exit start

-- The process as the operating system starts it.
abbrev pub fresh_process : (String → Option String) → Process
fresh_process env = record { environ = env; instance_held = none; calls = [] }
