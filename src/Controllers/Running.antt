-- ===== src/Controllers/Running.antt =====
-- Starts of the program that its flags do not allow.
use node_disruption_controll.Prelude.{false, ◌≡◌, arith, all, contains, length, ◌<◌}
use node_disruption_controll.Client.Monad.{failure, Result, ok, err}
use node_disruption_controll.Controllers.Startup.{split_types}
use node_disruption_controll.Controllers.Types.{configure-refused}
use node_disruption_controll.Controllers.Main.{
  MainFlags, Manager, manager_options, log_output, run_configured, main,
}

module _ (m : Manager) (flags : MainFlags) where
  -- The result of making the manager, which comes before the check of the types.
  abbrev manager_made : m.World → Result (Unit {0}) × m.World
  manager_made w = m.new_manager (manager_options flags) (
      m.set_logger
        (log_output flags.log_console flags.log_path flags.log_max_size flags.log_max_backups
          flags.log_compress)
        w)

  -- The exit of a start that is refused.
  abbrev pub refusal : Result (Unit {0}) → Result (Unit {0})
  refusal (ok _) = err (failure "invalid configuration")
  refusal (err e) = err (failure "unable to start manager")

  -- If the flag of the allowed types has some and one of the default types is not among them, the
  -- program fails right after the manager has been made: no controller is set up, no check is
  -- added and the manager is not started. It reports the manager's failure if that could not be
  -- made, and an invalid configuration otherwise.
  pub main-refused :
      (w : m.World)
      → (let types = split_types flags.reconcilers.node_disruption_types in 0 < length types)
      → all
          (contains (split_types flags.reconcilers.node_disruption_types))
          (split_types flags.reconcilers.default_node_disruption_types)
        ≡ false
      → main m flags w ≡ (refusal (manager_made w).0, (manager_made w).1)
  unfolding main run_configured
  main-refused w n h = ground (arith, configure-refused flags.reconcilers n h)
