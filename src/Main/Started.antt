-- ===== src/Main/Started.antt =====
-- How a process starts, and when its manager does.
use text.Mathlib.Text.{◌==◌ as str_eq}
use kom_operator.Prelude.{
  String, Bool, true, false, if◌then◌else◌, Option, none, some, List, [], ◌∷◌, ◌≡◌, refl, ap, ◌∙◌,
  ◌↔◌, ◌⊎◌, arith, eq_iff,
}
use kom_operator.Errors.{ok}
use kom_operator.Platform.{Platform}
use kom_operator.Exec.{LoadBalancer, returns}
use kom_operator.Util.Env.{kom_operator_run_mode_env_var, get_operator_namespace, is_run_mode_local}
use kom_operator.LoadBalancer.Init.{new_load_balancer, init_in, init_load_balancer}
use kom_operator.Main.{
  Flags, options_of, Call, new_manager, add, complete, add_healthz_check, add_readyz_check, start,
  Runtime, Process, goes, exits, ◌>>=◌, exit, skip, can_set, setenv, in_env, set_run_mode, setup,
  call, call_or_exit, get_config_or_die, init_instance, get_instance, main, fresh_process, hold,
}

-- The load balancer of the process, by the run mode.
abbrev pub first_instance : Platform → String → LoadBalancer
first_instance p mode =
    new_load_balancer p "kom-loadbalancer"
      (if str_eq mode "local" then "default" else get_operator_namespace p)

-- Whether the manager was started.
abbrev pub was_started : List Call → Bool
was_started [] = false
was_started (start ∷ rest) = true
was_started (c ∷ rest) = was_started rest

module _ (flags : Flags) (lb : LoadBalancer) where
  -- The calls before the manager and those up to each further one, the last one first.
  abbrev pub managed : List Call
  managed = new_manager (options_of flags) ∷ []

  abbrev pub completed : List Call
  completed = complete setup ∷ add (some lb) ∷ managed

  abbrev pub live : List Call
  live = add_healthz_check "healthz" ∷ completed

  abbrev pub ready : List Call
  ready = add_readyz_check "readyz" ∷ live

  abbrev pub started : List Call
  started = start ∷ ready

  -- Everything that has to succeed does: all but the addition of the load balancer.
  abbrev pub Succeeds : Runtime → Type 0
  Succeeds r =
      (r.has_config ≡ true)
      × (r.reply managed ≡ ok tt)
      × (r.reply completed ≡ ok tt)
      × (r.reply live ≡ ok tt)
      × (r.reply ready ≡ ok tt)
      × (r.reply started ≡ ok tt)

module _ (p : Platform) where
  setenv_lem :
      (key value : String) (env : String → Option String)
      → can_set key value ≡ true
      → setenv key value env key ≡ some value
  unfolding setenv
  setenv_lem key value env h = ground (arith, eq_iff key key)

  abbrev env_of : Flags → (String → Option String) → String → Option String
  env_of flags env = setenv kom_operator_run_mode_env_var flags.mode env

  init_in_mode :
      (b : Bool) (env : String → Option String)
      → init_in (in_env p env) "kom-loadbalancer" (some b)
        ≡ returns (
            new_load_balancer p "kom-loadbalancer"
              (if b then "default" else get_operator_namespace p))
  unfolding init_in new_load_balancer get_operator_namespace
  init_in_mode true env = refl
  init_in_mode false env = refl

  local_by_mode :
      (mode : String) (env : String → Option String)
      → env kom_operator_run_mode_env_var ≡ some mode
      → is_run_mode_local (in_env p env) ≡ some (str_eq mode "local")
  unfolding is_run_mode_local
  local_by_mode mode env h = ground arith

  init_by_mode :
      (mode : String) (env : String → Option String)
      → env kom_operator_run_mode_env_var ≡ some mode
      → init_load_balancer (in_env p env) "kom-loadbalancer" none ≡ returns (first_instance p mode)
  unfolding init_load_balancer
  init_by_mode mode env h =
      ap (init_in (in_env p env) "kom-loadbalancer") (local_by_mode mode env h)
      ∙ init_in_mode (str_eq mode "local") env

module _ (p : Platform) (r : Runtime) where
  init_instance_lem :
      (mode : String) (s : Process)
      → s.environ kom_operator_run_mode_env_var ≡ some mode
      → s.instance_held ≡ none
      → init_instance p r "kom-loadbalancer" s
        ≡ (goes tt, record s { instance_held = some (first_instance p mode) })
  unfolding init_instance
  init_instance_lem mode s set fresh =
      ap (λ held. hold p r (init_load_balancer (in_env p s.environ) "kom-loadbalancer" held) s)
        fresh
      ∙ ap (λ o. hold p r o s) (init_by_mode p mode s.environ set)

  module _ (flags : Flags) (env : String → Option String) where
    abbrev lb : LoadBalancer
    lb = first_instance p flags.mode

    abbrev run_env : String → Option String
    run_env = setenv kom_operator_run_mode_env_var flags.mode env

    abbrev initialised : Process
    initialised = record { environ = run_env; instance_held = some lb; calls = managed flags lb }

    init_flags :
        can_set kom_operator_run_mode_env_var flags.mode ≡ true
        → init_instance p r "kom-loadbalancer"
            (record { environ = run_env; instance_held = none; calls = managed flags lb })
          ≡ (goes tt, initialised)
    init_flags h =
        init_instance_lem flags.mode _ (setenv_lem p kom_operator_run_mode_env_var flags.mode env h)
          refl

    -- Where the run mode can be put into the environment, the process never panics before the
    -- manager runs: it ends with the manager or exits with 1, and it ends with the manager exactly
    -- when the client is configured and every call of controller-runtime succeeds except for the
    -- addition of the load balancer, whose result does not matter.
    pub main_goes_iff :
        can_set kom_operator_run_mode_env_var flags.mode ≡ true
        → (((main p r flags (fresh_process env)).0 ≡ goes tt)
            ⊎ ((main p r flags (fresh_process env)).0 ≡ exits 1))
          × (((main p r flags (fresh_process env)).0 ≡ goes tt) ↔ Succeeds flags lb r)
    unfolding main call_or_exit ◌>>=◌ call get_config_or_die set_run_mode get_instance exit skip
    main_goes_iff h = (ground (arith, init_flags h), ground (arith, init_flags h))

    started_process :
        can_set kom_operator_run_mode_env_var flags.mode ≡ true
        → was_started (main p r flags (fresh_process env)).1.calls ≡ true
        → (main p r flags (fresh_process env)).1 ≡ record initialised { calls = started flags lb }
    unfolding main call_or_exit ◌>>=◌ call get_config_or_die set_run_mode get_instance exit skip
    started_process h up = ground (arith, init_flags h)

    -- Where the run mode can be put into the environment, a process that has started its manager
    -- has before, in this order, made the manager, added the load balancer, completed the
    -- controller, and added the two checks, and nothing else; its load balancer has the namespace
    -- `default` in the mode `local` and the operator's own in any other, and is the one that
    -- `InitLoadBalancer` makes in the environment that the process leaves.
    pub main_lem :
        can_set kom_operator_run_mode_env_var flags.mode ≡ true
        → was_started (main p r flags (fresh_process env)).1.calls ≡ true
        → ((main p r flags (fresh_process env)).1.calls ≡ started flags lb)
          × ((main p r flags (fresh_process env)).1.instance_held ≡ some lb)
          × (init_load_balancer
                (in_env p (main p r flags (fresh_process env)).1.environ)
                "kom-loadbalancer"
                none
              ≡ returns lb)
    main_lem h up =
        let e = started_process h up in
        (
          ap (λ (s : Process). s.calls) e,
          ap (λ (s : Process). s.instance_held) e,
          ap (λ (s : Process). init_load_balancer (in_env p s.environ) "kom-loadbalancer" none) e
              ∙ init_by_mode p flags.mode run_env
                  (setenv_lem p kom_operator_run_mode_env_var flags.mode env h),
        )
