-- ===== src/Tests/Outcomes.antt =====
-- Attempts that must grant or reject, replies, parameters and flags, at concrete data.
use node_disruption_controll.Prelude.{true, List, [], ◌∷◌, ◌≡◌, ◌≢◌, ◌⊎◌, inl, refl, arith, str_eq}
use node_disruption_controll.Prelude.Int.{wrap64, ◌-ℤ◌}
use node_disruption_controll.Api.{granted, rejected, pending, DisruptedBudgetStatus, NodeDisruption}
use node_disruption_controll.Api.Slice.{nil, items}
use node_disruption_controll.NodeSet.{
  new_node_set_from_string_list, node_set_to_string_list, overlaps,
}
use node_disruption_controll.Client.Monad.{Result, ok, err}
use node_disruption_controll.Resolver.{
  get_nodes_from_namespaced_pod_selector, get_nodes_from_namespaced_pvc_selector,
  get_node_from_node_selector,
}
use node_disruption_controll.Budget
use node_disruption_controll.Budget.{Budget}
use node_disruption_controll.Budget.Hooks
use node_disruption_controll.Disruption.Settings.{get_retry_date}
use node_disruption_controll.Disruption.Constraints.{validate_with_internal_constraints}
use node_disruption_controll.Disruption.Validation.{
  Selection, blocked, impacted, select_budgets, check_budgets,
}
use node_disruption_controll.Disruption.Transition.{try_transition_to_granted, reconcile_single}
use node_disruption_controll.Disruption.Approval.{try_transition_to_granted-approved}
use node_disruption_controll.Disruption.Progress.{IsOverdue, Answers, reconcile_single-ends}
use node_disruption_controll.Tests.World.{Journal, start, env_of}
use node_disruption_controll.Tests.Fixtures.{cluster, config, disruption}
use node_disruption_controll.Tests.Counts.{nodes_of, stable}

abbrev second : NodeDisruption
second = disruption "second" pending ("n2" ∷ [])

-- The parts of an attempt to grant the second disruption.
read : Result (List Budget) × Journal
unfolding Budget.get_all_budgets_in_sync get_nodes_from_namespaced_pod_selector
    get_nodes_from_namespaced_pvc_selector get_node_from_node_selector new_node_set_from_string_list
    node_set_to_string_list overlaps str_eq wrap64 ◌-ℤ◌
read = Budget.get_all_budgets_in_sync (env_of cluster) start

abbrev listed : Result (List Budget) → List Budget
listed (ok bs) = bs
listed (err e) = []

abbrev chosen : Selection → List Budget
chosen (blocked b) = []
chosen (impacted bs) = bs

abbrev answered : Result (List DisruptedBudgetStatus) → List DisruptedBudgetStatus
answered (ok statuses) = statuses
answered (err e) = []

selection : Selection
unfolding select_budgets read Budget.is_impacted Budget.tolerate_disruption str_eq
    new_node_set_from_string_list overlaps wrap64 ◌-ℤ◌
selection = select_budgets (env_of cluster) second ("n2" ∷ []) (listed read.0)

checks : Result (List DisruptedBudgetStatus) × Journal
unfolding check_budgets selection Budget.call_health_hook Budget.Hooks.call_health_hook str_eq
checks = check_budgets (env_of cluster) config second [] (chosen selection) read.1

try_transition_to_granted-approved_example :
    (nd' : NodeDisruption) × ((try_transition_to_granted (env_of cluster) config second start).0
      ≡ ok nd')
    × (nd'.status.state ≡ granted)
    × (items nd'.status.disrupted_disruption_budgets ≡ answered checks.0)
unfolding read selection checks str_eq new_node_set_from_string_list get_retry_date
    validate_with_internal_constraints
try_transition_to_granted-approved_example =
    try_transition_to_granted-approved (env_of cluster) config second start start read.1 read.1
      checks.1 0 (listed read.0) (chosen selection) nil (answered checks.0) refl refl refl refl refl
      refl (inl refl)

-- The same disruption with retries until a date that has passed.
abbrev late_second : NodeDisruption
late_second = record second {
  spec = record (second.spec) { retry = record { enabled = true; deadline = 5 } };
}

late_second-IsOverdue : IsOverdue (env_of cluster) late_second.spec.retry
late_second-IsOverdue = (refl, ((λ e. omega (arith, e)), (λ w. omega arith)))

cluster_answers : Answers (env_of cluster)
unfolding read
cluster_answers = record {
  nodes_answer = λ selector w. (nodes_of selector, stable selector w);
  budgets_answer = λ w. (listed read.0, refl);
}

reconcile_single-ends_example :
    (once : NodeDisruption) × (twice : NodeDisruption) × ((reconcile_single
        (env_of cluster)
        config
        late_second
        start).0
      ≡ ok once)
    × ((reconcile_single (env_of cluster) config once start).0 ≡ ok twice)
    × (((pending ≡ granted) × (twice.status.state ≡ granted))
        ⊎ ((pending ≢ granted) × (twice.status.state ≡ rejected)))
reconcile_single-ends_example =
    reconcile_single-ends (env_of cluster) config late_second start start late_second-IsOverdue
      cluster_answers
