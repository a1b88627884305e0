-- ===== src/Tests/MainWitnesses.antt =====
-- The theorems on the start of the process, at concrete inputs.
use kom_operator.Prelude.{String, true, ◌≡◌, ◌↔◌, ◌⊎◌, refl, Option, none, some, List, ◌∷◌}
use kom_operator.Errors.{Result, ok, err, library_error}
use kom_operator.Platform.{Platform}
use kom_operator.Exec.{returns}
use kom_operator.Util.Env.{kom_operator_run_mode_env_var, is_run_mode_local}
use kom_operator.LoadBalancer.Init.{init_in, init_load_balancer}
use kom_operator.Main.{
  Flags, default_flags, Call, add, Runtime, goes, exits, ◌>>=◌, exit, skip, can_set, setenv, in_env,
  set_run_mode, call, call_or_exit, get_config_or_die, init_instance, get_instance, main,
  fresh_process,
}
use kom_operator.Main.Started.{
  first_instance, was_started, Succeeds, started, main_goes_iff, main_lem,
}
use kom_operator.Tests.Demo.{demo, replies}

-- A runtime that refuses the load balancer and nothing else.
abbrev reply : List Call → Result (Unit {0})
reply (add lb ∷ rest) = err (library_error "already started")
reply _ = ok tt

abbrev runtime : Runtime
runtime = record { has_config = true; reply = reply }

abbrev local_flags : Flags
local_flags = record default_flags { mode = "local" }

abbrev no_variables : String → Option String
no_variables name = none

abbrev platform : Platform
platform = demo replies

local_can_be_set : can_set kom_operator_run_mode_env_var "local" ≡ true
unfolding can_set
local_can_be_set = refl

main_goes_example :
    (((main platform runtime local_flags (fresh_process no_variables)).0 ≡ goes tt)
      ⊎ ((main platform runtime local_flags (fresh_process no_variables)).0 ≡ exits 1))
    × (((main platform runtime local_flags (fresh_process no_variables)).0 ≡ goes tt)
        ↔ Succeeds local_flags (first_instance platform "local") runtime)
main_goes_example = main_goes_iff platform runtime local_flags no_variables local_can_be_set

local_starts :
    was_started (main platform runtime local_flags (fresh_process no_variables)).1.calls ≡ true
unfolding main call_or_exit ◌>>=◌ call get_config_or_die set_run_mode init_instance get_instance
    exit skip setenv can_set init_load_balancer init_in is_run_mode_local
local_starts = refl

main_example :
    ((main platform runtime local_flags (fresh_process no_variables)).1.calls
      ≡ started local_flags (first_instance platform "local"))
    × ((main platform runtime local_flags (fresh_process no_variables)).1.instance_held
        ≡ some (first_instance platform "local"))
    × (init_load_balancer
          (in_env platform
            (main platform runtime local_flags (fresh_process no_variables)).1.environ)
          "kom-loadbalancer"
          none
        ≡ returns (first_instance platform "local"))
main_example = main_lem platform runtime local_flags no_variables local_can_be_set local_starts
