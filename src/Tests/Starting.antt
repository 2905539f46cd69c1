-- ===== src/Tests/Starting.antt =====
-- A start of the program with a manager that writes down its calls.
use node_disruption_controll.Prelude.{
  String, true, false, List, [], ◌∷◌, ◌++◌, ◌≡◌, arith, refl, str_eq,
}
use node_disruption_controll.Prelude.Int.{pos}
use node_disruption_controll.Client.Monad.{failure, ok, err}
use node_disruption_controll.Controllers.Main.{Manager, MainFlags, main}
use node_disruption_controll.Controllers.Running.{main-refused}

abbrev written_down : Manager
written_down = record {
  World = List String;
  set_logger = λ output w. w ++ ("log" ∷ []);
  new_manager = λ options w. (ok tt, w ++ ("manager" ∷ []));
  setup_node_disruption = λ config w. (ok tt, w ++ ("disruptions" ∷ []));
  setup_application_disruption_budget = λ types w. (ok tt, w ++ ("applications" ∷ []));
  setup_node_disruption_budget = λ types w. (ok tt, w ++ ("pools" ∷ []));
  add_healthz_check = λ name w. (ok tt, w ++ (name ∷ []));
  add_readyz_check = λ name w. (ok tt, w ++ (name ∷ []));
  start = λ w. (ok tt, w ++ ("start" ∷ []));
}

abbrev flags : MainFlags
flags = record {
  metrics_bind_address = ":8080";
  health_probe_bind_address = ":8081";
  leader_elect = false;
  reconcilers = record {
    reject_empty_node_disruption = false;
    retry_interval = pos 60;
    reject_overlapping_disruption = false;
    health_hook_timeout = pos 60;
    node_disruption_types = "drain,reboot";
    default_node_disruption_types = "drain";
  };
  log_console = true;
  log_path = "";
  log_max_size = pos 10;
  log_max_backups = pos 1;
  log_compress = false;
}

-- The same with a default type that is not allowed.
abbrev foreign_flags : MainFlags
foreign_flags = record flags {
  reconcilers = record (flags.reconcilers) { default_node_disruption_types = "drain,scrap" };
}

abbrev calls : List String
calls =
    "log" ∷ "manager" ∷ "disruptions" ∷ "applications" ∷ "pools" ∷ "healthz" ∷ "readyz" ∷ "start"
    ∷ []

main-calls : main written_down flags [] ≡ (ok tt, calls)
unfolding main str_eq
main-calls = refl

main-refused_example :
    main written_down foreign_flags []
    ≡ (err (failure "invalid configuration"), "log" ∷ "manager" ∷ [])
unfolding main str_eq
main-refused_example = main-refused written_down foreign_flags [] (omega arith) refl
