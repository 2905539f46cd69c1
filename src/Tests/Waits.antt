-- ===== src/Tests/Waits.antt =====
-- A disruption without retries whose application is in preparation: the application's hook says to come
-- back later, the status stays as it is, and nothing makes the controller look again.
use node_disruption_controll.Prelude.{false, true, itoa, [], ◌∷◌, ◌≡◌, ◌≢◌, ◌⊎◌, refl, str_eq}
use node_disruption_controll.Prelude.Int.{ℤ, pos, wrap64, ◌-ℤ◌}
use node_disruption_controll.Api.{pending, NodeDisruption, DisruptedBudgetStatus}
use node_disruption_controll.Api.Slice.{of, items}
use node_disruption_controll.Api.Equality.{disruption_status_equal, name_equal}
use node_disruption_controll.NodeSet.{
  new_node_set_from_string_list, node_set_to_string_list, overlaps,
}
use node_disruption_controll.Client.Monad.{Result, ok, err}
use node_disruption_controll.Resolver.{
  get_nodes_from_namespaced_pod_selector, get_nodes_from_namespaced_pvc_selector,
  get_node_from_node_selector,
}
use node_disruption_controll.Budget
use node_disruption_controll.Budget.Hooks
use node_disruption_controll.AppManager.{check_readiness}
use node_disruption_controll.Disruption.{reconcile}
use node_disruption_controll.Disruption.Transition.{reconcile_single}
use node_disruption_controll.Disruption.Termination.{handle_finalizer}
use node_disruption_controll.Disruption.Waiting.{is_preparing, reconcile_single-waits}
use node_disruption_controll.Tests.World.{Cluster, Journal, start, env_of}
use node_disruption_controll.Tests.Fixtures.{cluster, config, disruption, budget}

abbrev in_preparation : DisruptedBudgetStatus
in_preparation = record {
  reference = record { namespace = ""; name = "db"; kind = "ApplicationDisruptionBudget" };
  reason = "";
  preparing = true;
  ok = false;
}

abbrev second : NodeDisruption
second = disruption "second" pending ("n2" ∷ [])

abbrev waiting : NodeDisruption
waiting = record second {
  status = record (second.status) { disrupted_disruption_budgets = of (in_preparation ∷ []) };
}

abbrev early : Cluster
early = record cluster {
  adbs = budget "db" 2 "https://db" ∷ [];
  disruptions = waiting ∷ [];
  hook_status = 425;
}

abbrev disruption_of : Result NodeDisruption → NodeDisruption
disruption_of (ok nd) = nd
disruption_of (err e) = second

attempt : Result NodeDisruption × Journal
unfolding reconcile_single str_eq Budget.get_all_budgets_in_sync Budget.is_impacted
    Budget.tolerate_disruption Budget.v2_hooks_ready Budget.call_ready_hook
    Budget.Hooks.call_ready_hook check_readiness get_nodes_from_namespaced_pod_selector
    get_nodes_from_namespaced_pvc_selector get_node_from_node_selector new_node_set_from_string_list
    node_set_to_string_list overlaps wrap64 ◌-ℤ◌ name_equal Budget.call_health_hook
attempt = reconcile_single (env_of early) config waiting start

attempt-ok : attempt ≡ (ok (disruption_of attempt.0), attempt.1)
unfolding attempt
attempt-ok = refl

attempt-state : (disruption_of attempt.0).status.state ≡ pending
unfolding attempt
attempt-state = refl

attempt-undated : (disruption_of attempt.0).status.next_retry_date ≡ 0
unfolding attempt
attempt-undated = refl

reconcile_single-waits_example :
    ((disruption_of attempt.0).status.next_retry_date ≢ 0)
    ⊎ (is_preparing (items (disruption_of attempt.0).status.disrupted_disruption_budgets) ≡ true)
unfolding attempt
reconcile_single-waits_example =
    reconcile_single-waits (env_of early) config waiting start {nd' = disruption_of attempt.0}
      {w' = attempt.1} attempt-ok refl attempt-state

-- The cluster once that status has been stored.
abbrev stored : Cluster
stored = record early { disruptions = disruption_of attempt.0 ∷ [] }

again : Result ℤ × Journal
unfolding attempt reconcile handle_finalizer disruption_status_equal
again = reconcile (env_of stored) config "second" start

again-no_requeue : again.0 ≡ ok (pos 0)
unfolding again itoa
again-no_requeue = refl

again-no_write : again.1.stored ≡ []
unfolding again itoa
again-no_write = refl
