-- ===== src/Controllers/Main.antt =====
-- `main` and `logOutput` of cmd/main.go. The manager is kept in a world of its own; a failure is the
-- message with which the program exits.
use node_disruption_controll.Prelude.{
  ℕ, String, Bool, Option, none, some, List, str_eq, if◌then◌else◌,
}
use node_disruption_controll.Prelude.Int.{ℤ}
use node_disruption_controll.Client.Monad.{failure, Result, ok, err, Action, raise, ◌>>◌}
use node_disruption_controll.Disruption.Settings.{Config}
use node_disruption_controll.Controllers.Startup.{Flags, Startup, configure}

-- `lumberjack.Logger`
pub record Rotation : Type 0 where
  pub filename : String
  pub max_size : ℤ
  pub max_backups : ℤ
  pub compress : Bool

-- The writers of the log: none is given, or a file, with the console or without.
pub data LogWriter : Type 0 where
  console : LogWriter
  file : Rotation → LogWriter
  file_and_console : Rotation → LogWriter

-- `ctrl.Options`, as far as flags set it.
pub record ManagerOptions : Type 0 where
  pub metrics_bind_address : String
  pub webhook_port : ℕ
  pub health_probe_bind_address : String
  pub leader_election : Bool
  pub leader_election_id : String

pub record MainFlags : Type 0 where
  pub metrics_bind_address : String
  pub health_probe_bind_address : String
  pub leader_elect : Bool
  pub reconcilers : Flags
  pub log_console : Bool
  pub log_path : String
  pub log_max_size : ℤ
  pub log_max_backups : ℤ
  pub log_compress : Bool

-- controller-runtime's manager.
pub record Manager : Type 1 where
  pub World : Type 0
  pub set_logger : LogWriter → World → World
  pub new_manager : ManagerOptions → Action World (Unit {0})
  pub setup_node_disruption : Config → Action World (Unit {0})
  pub setup_application_disruption_budget : List String → Action World (Unit {0})
  pub setup_node_disruption_budget : List String → Action World (Unit {0})
  pub add_healthz_check : String → Action World (Unit {0})
  pub add_readyz_check : String → Action World (Unit {0})
  pub start : Action World (Unit {0})

-- `logOutput`
pub log_output : Bool → String → ℤ → ℤ → Bool → LogWriter
log_output log_console log_path log_max_size log_max_backups log_compress =
    let w : Rotation = record {
      filename = log_path;
      max_size = log_max_size;
      max_backups = log_max_backups;
      compress = log_compress;
    } in
    if str_eq log_path "" then console else if log_console then file_and_console w else file w

abbrev pub manager_options : MainFlags → ManagerOptions
manager_options flags = record {
  metrics_bind_address = flags.metrics_bind_address;
  webhook_port = 9443;
  health_probe_bind_address = flags.health_probe_bind_address;
  leader_election = flags.leader_elect;
  leader_election_id = "493e6e3e.criteo.com";
}

-- `if err := …; err != nil { setupLog.Error(err, message); os.Exit(1) }`
abbrev exit_by : {W : Type 0} → String → Result (Unit {0}) × W → Result (Unit {0}) × W
exit_by message (ok _, w) = (ok tt, w)
exit_by message (err e, w) = (err (failure message), w)

abbrev or_exit : {W : Type 0} → Action W (Unit {0}) → String → Action W (Unit {0})
or_exit call message w = exit_by message (call w)

module _ (m : Manager) where
  -- From the accepted configuration to the end.
  run_controllers : Startup → Action m.World (Unit {0})
  run_controllers started =
      or_exit (m.setup_node_disruption started.config) "unable to create controller"
      >> or_exit (m.setup_application_disruption_budget started.default_types)
          "unable to create controller"
      >> or_exit (m.setup_node_disruption_budget started.default_types)
          "unable to create controller"
      >> or_exit (m.add_healthz_check "healthz") "unable to set up health check"
      >> or_exit (m.add_readyz_check "readyz") "unable to set up ready check"
      >> or_exit m.start "problem running manager"

  unfoldable pub run_configured : Option Startup → Action m.World (Unit {0})
  unfolding run_controllers
  run_configured none = raise (failure "invalid configuration")
  run_configured (some started) = run_controllers started

  -- `main`, from the parsed flags.
  unfoldable pub main : MainFlags → Action m.World (Unit {0})
  unfolding log_output configure run_configured
  main flags w =
      let output =
        log_output flags.log_console flags.log_path flags.log_max_size flags.log_max_backups
          flags.log_compress in
      (or_exit (m.new_manager (manager_options flags)) "unable to start manager"
          >> run_configured (configure flags.reconcilers))
        (m.set_logger output w)
