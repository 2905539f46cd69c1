-- ===== src/Tests/Endings.antt =====
-- Terminations, stored statuses, metrics and events on concrete objects.
use node_disruption_controll.Prelude.{
  String, Bool, true, false, none, some, List, [], ◌∷◌, ◌≡◌, ◌⊎◌, refl, any, map, contains, str_eq,
  arith,
}
use node_disruption_controll.Prelude.Int.{pos}
use node_disruption_controll.Api.{
  pending, granted, NodeDisruption, ApplicationDisruptionBudget, NamespacedName,
}
use node_disruption_controll.Api.Slice.{of, items}
use node_disruption_controll.Api.Equality.{disruption_status_equal}
use node_disruption_controll.Metrics.Updates.{prune_budget_status_metrics}
use node_disruption_controll.Metrics.Budgets.{prune_adb_metrics, prune_ndb_metrics}
use node_disruption_controll.Metrics.Labels.{can_match, prune_budget_metrics-can_match}
use node_disruption_controll.Client.{Env}
use node_disruption_controll.Client.Monad.{failure, Result, ok, err}
use node_disruption_controll.AppManager.{terminate_disruption}
use node_disruption_controll.Budget
use node_disruption_controll.Budget.{application}
use node_disruption_controll.Budget.Hooks.{call_terminate_hook}
use node_disruption_controll.Controllers.Startup.{Flags, Startup, configure, split_types}
use node_disruption_controll.Controllers.Types.{configure-defaults_allowed}
use node_disruption_controll.Controllers.Watch.{WatchedObject, pod, adb_requests}
use node_disruption_controll.Controllers.Events.{adb_requests-panic}
use node_disruption_controll.Disruption.{store_status}
use node_disruption_controll.Disruption.Settings.{finalizer_name}
use node_disruption_controll.Disruption.Termination.{
  terminate_status, terminate_all_impacted_budgets, handle_finalizer,
}
use node_disruption_controll.Disruption.Finalizer.{
  outcomes, terminate_all-outcomes, handle_finalizer-continues, handle_finalizer-dropped, IsRemoved,
}
use node_disruption_controll.Disruption.Reconciling.{
  Changes, NeedsNoWrite, answer_of, reconcile_and_store-Step,
}
use node_disruption_controll.Disruption.Transition.{reconcile_single}
use node_disruption_controll.Disruption.States.{Step}
use node_disruption_controll.Client.Monad.{handle}
use node_disruption_controll.Tests.World.{Journal, start, env_of}
use node_disruption_controll.Tests.Fixtures.{config, disruption, budget, cluster}

abbrev hooked : ApplicationDisruptionBudget
hooked = budget "db" 2 "https://db"

abbrev good : Env
good = env_of (record cluster { adbs = hooked ∷ [] })

-- The same where the application manager fails.
abbrev failing : Env
failing = env_of (record cluster { adbs = hooked ∷ []; hook_status = 500 })

-- A granted disruption that is being deleted and has prepared the budget.
abbrev deleted : NodeDisruption
deleted =
    let nd = disruption "second" granted ("n2" ∷ []) in
    record nd {
      meta = record (nd.meta) { deletion_timestamp = 7 };
      status = record (nd.status) {
        disrupted_disruption_budgets = of (
            record {
              reference = Budget.get_namespaced_name (application hooked);
              reason = "";
              preparing = true;
              ok = true;
            }
            ∷ []);
      };
    }

has_finalizer : contains deleted.meta.finalizers finalizer_name ≡ true
unfolding str_eq
has_finalizer = refl

failed_outcomes :
    any
      (λ f. f)
      (outcomes failing deleted (items deleted.status.disrupted_disruption_budgets) start).0
    ≡ true
unfolding outcomes call_terminate_hook terminate_disruption str_eq terminate_status
    Budget.get_namespaced_name
failed_outcomes = refl

terminate_all-outcomes_example : terminate_all_impacted_budgets failing deleted start ≡ (
  err (failure "failed to terminate all budgets"),
  (outcomes failing deleted (items deleted.status.disrupted_disruption_budgets) start).1,
)
unfolding outcomes call_terminate_hook terminate_disruption str_eq terminate_status
    Budget.get_namespaced_name
terminate_all-outcomes_example = terminate_all-outcomes failing deleted start

dropped_run : Result Bool × Journal
unfolding handle_finalizer call_terminate_hook terminate_disruption str_eq
dropped_run = handle_finalizer good deleted start

dropped_run-ok : dropped_run ≡ (ok false, dropped_run.1)
unfolding dropped_run Budget.get_namespaced_name
dropped_run-ok = refl

handle_finalizer-dropped_example :
    (false ≡ false)
    × (any
          (λ f. f)
          (outcomes good deleted (items deleted.status.disrupted_disruption_budgets) start).0
        ≡ false)
    × IsRemoved good deleted
        (good.remove_finalizer deleted.meta.finalizers finalizer_name)
        (outcomes good deleted (items deleted.status.disrupted_disruption_budgets) start).1
        dropped_run.1
unfolding dropped_run Budget.get_namespaced_name
handle_finalizer-dropped_example =
    handle_finalizer-dropped good deleted start refl has_finalizer dropped_run-ok

-- There, one write is the last thing that has happened, and no finalizer is left.
dropped_run-stored :
    map (λ (nd : NodeDisruption). nd.meta.finalizers) dropped_run.1.stored ≡ [] ∷ []
unfolding dropped_run Budget.get_namespaced_name
dropped_run-stored = refl

abbrev second : NodeDisruption
second = disruption "second" pending ("n2" ∷ [])

live_run : handle_finalizer good second start ≡ (ok true, start)
unfolding handle_finalizer str_eq
live_run = refl

handle_finalizer-continues_example :
    (true ≡ true)
    × (good.contains_finalizer second.meta.finalizers finalizer_name ≡ true)
    × (start ≡ start)
handle_finalizer-continues_example = handle_finalizer-continues good second start live_run

abbrev moved : NodeDisruption
moved = record second { status = record (second.status) { state = granted } }

reconcile_and_store-Step_example :
    ((nd' : NodeDisruption) × (between : Journal) × (reconcile_single good config second start
        ≡ (ok nd', between))
      × Changes good second nd'
      × Step second.status.state nd'.status.state
      × (let (written, after) = good.update_node_disruption_status nd' between in
          handle (reconcile_single good config second) (store_status good second) start
          ≡ (answer_of good second written, after)))
    ⊎ (NeedsNoWrite good second (reconcile_single good config second start).0
        × (handle (reconcile_single good config second) (store_status good second) start
            ≡ (ok (pos 0), (reconcile_single good config second start).1)))
reconcile_and_store-Step_example = reconcile_and_store-Step good second config start

-- A server that refuses the write of a status.
abbrev refusing : Env
refusing = record good { update_node_disruption_status = λ nd w. (err (failure "conflict"), w) }

refused_write : store_status refusing second (ok moved) start ≡ (err (failure "conflict"), start)
unfolding store_status disruption_status_equal
refused_write = refl

abbrev db : NamespacedName
db = record { namespace = "ns"; name = "db"; kind = "ApplicationDisruptionBudget" }

prune_budget_metrics-can_match_example :
    (map can_match (prune_adb_metrics db)
      ≡ false ∷ map (λ u. true) (prune_budget_status_metrics db))
    × (map can_match (prune_ndb_metrics db)
        ≡ false ∷ false ∷ map (λ u. true) (prune_budget_status_metrics db))
prune_budget_metrics-can_match_example = prune_budget_metrics-can_match db

abbrev flags : Flags
flags = record {
  reject_empty_node_disruption = true;
  retry_interval = pos 60;
  reject_overlapping_disruption = true;
  health_hook_timeout = pos 60;
  node_disruption_types = "drain,reboot";
  default_node_disruption_types = "drain";
}

abbrev started : Startup
started = record {
  config = record {
    reject_empty_node_disruption = true;
    retry_interval = pos 60;
    reject_overlapping_disruption = true;
    health_hook_timeout = pos 60;
    node_disruption_types = "drain" ∷ "reboot" ∷ [];
  };
  default_types = "drain" ∷ [];
}

configured : configure flags ≡ some started
unfolding configure str_eq
configured = refl

configure-defaults_allowed_example :
    (true ≡ true)
    × (◌≡◌ {A = List String} ("drain" ∷ "reboot" ∷ []) (split_types "drain,reboot"))
    × (◌≡◌ {A = List String} ("drain" ∷ []) (split_types "drain"))
unfolding str_eq
configure-defaults_allowed_example = configure-defaults_allowed flags configured (omega arith)

abbrev watched_pod : WatchedObject
watched_pod = record { object_type = pod; namespace = "ns"; labels = ("app", "db") ∷ [] }

-- A machinery that accepts no selector.
abbrev no_selectors : Env
no_selectors = record good { label_selector_as_selector = λ s. err (failure "not a selector") }

adb_requests-panic_example : adb_requests no_selectors watched_pod (hooked ∷ hooked ∷ []) ≡ none
adb_requests-panic_example =
    adb_requests-panic no_selectors watched_pod (hooked ∷ []) [] hooked refl refl

split_types-commas : split_types ",reboot,,drain," ≡ "reboot" ∷ "drain" ∷ []
unfolding split_types str_eq
split_types-commas = refl
