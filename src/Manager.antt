-- ===== src/Manager.antt =====
-- main.go: the scheme, the manager, the registration of the three controllers and the start.
pub mod Types
pub mod Registrations
pub mod Starts
pub mod Watched
pub mod Woken
use kink.Base.{
  ℕ, String, Bool, false, List, [], ◌∷◌, ◌++◌, Try, success, failed, ok, err, panic, Action, ◌>>=◌,
  ◌>>◌, wrapping,
}
use kink.Manager.Types.{
  SchemeGroup, client_go_group, cluster_api_group, control_plane_alpha, infrastructure_alpha,
  control_plane_beta, infrastructure_beta,
}
use kink.Manager.Registrations.{
  Registration, control_plane_registration, machine_registration, cluster_registration,
}

-- The variables that the command line sets.
pub record Flags : Type 0 where
  pub metrics_addr : String
  pub probe_addr : String
  pub enable_leader_election : Bool

abbrev pub default_flags : Flags
default_flags = record {
  metrics_addr = ":8080";
  probe_addr = ":8081";
  enable_leader_election = false;
}

-- `ctrl.Options`
pub record Options : Type 0 where
  pub metrics_bind_address : String
  pub port : ℕ
  pub health_probe_bind_address : String
  pub leader_election : Bool
  pub leader_election_id : String

abbrev pub options_of : Flags → Options
options_of flags = record {
  metrics_bind_address = flags.metrics_addr;
  port = 9443;
  health_probe_bind_address = flags.probe_addr;
  leader_election = flags.enable_leader_election;
  leader_election_id = "kink.cluster.x-k8s.io";
}

-- What the program asks of the controller runtime.
pub data Command : Type 0 where
  add_to_scheme : SchemeGroup → Command
  -- `ctrl.GetConfigOrDie()`, which itself ends the process where it fails.
  get_config_or_die : Command
  new_manager : Options → Command
  set_up_with_manager : Registration → Command
  add_healthz_check add_readyz_check : String → Command
  -- Returns when the manager has stopped.
  start : Command

-- The controller runtime: any state, and any answer to a command.
pub record Runtime : Type 1 where
  pub State : Type 0
  pub perform : Command → State → Try (Unit {0}) × State

pub record Process (R : Runtime) : Type 0 where
  pub state : R.State
  -- The commands so far, in order.
  pub commands : List Command

module _ {R : Runtime} where
  abbrev pub performed : Command → Process R → Process R
  performed c p = record { state = (R.perform c p.state).1; commands = p.commands ++ (c ∷ []) }

  -- An error ends the process with status 1.
  abbrev pub perform : Command → Action (Process R) (Unit {0})
  perform c p = elim (R.perform c p.state).0 [
    | success _ ↦ (ok tt, performed c p)
    | failed e ↦ (err e, performed c p)
  ]

  -- `utilruntime.Must(g.AddToScheme(scheme))`
  abbrev pub must_add : SchemeGroup → Action (Process R) (Unit {0})
  must_add g p =
      let (r, p') = perform (add_to_scheme g) p in elim r [ ok _ ↦ (ok tt, p') | _ ↦ (panic, p') ]

  -- `if err := m; err != nil { setupLog.Error(err, text); os.Exit(1) }`
  abbrev pub or_exit : Command → String → Action (Process R) (Unit {0})
  or_exit c text = wrapping text (perform c)

  unfoldable pub init : Action (Process R) (Unit {0})
  init = do
    must_add client_go_group
    must_add cluster_api_group
    must_add control_plane_alpha
    must_add infrastructure_alpha
    must_add control_plane_beta
    must_add infrastructure_beta

  unfoldable pub main : Flags → Action (Process R) (Unit {0})
  main flags = do
    perform get_config_or_die
    or_exit (new_manager (options_of flags)) "unable to start manager"
    or_exit (set_up_with_manager control_plane_registration) "unable to create controller"
    or_exit (set_up_with_manager machine_registration) "unable to create controller"
    or_exit (set_up_with_manager cluster_registration) "unable to create controller"
    or_exit (add_healthz_check "healthz") "unable to set up health check"
    or_exit (add_readyz_check "readyz") "unable to set up ready check"
    or_exit start "problem running manager"

  -- Go runs the `init` functions before `main`.
  unfoldable pub program : Flags → Action (Process R) (Unit {0})
  unfolding init main
  program flags = init >> main flags
