-- ===== src/Tests/Grants.antt =====
-- Runs of a disruption through its states.
use node_disruption_controll.Prelude.{true, arith, List, [], ◌∷◌, ◌++◌, ◌≡◌, ◌≢◌, refl, map, str_eq}
use node_disruption_controll.Api.{
  pending, granted, NodeDisruption, ApplicationDisruptionBudget, NodeDisruptionBudget,
  DisruptedBudgetStatus,
}
use node_disruption_controll.Api.Slice.{nil, of, items}
use node_disruption_controll.Client.Monad.{Result, ok, err}
use node_disruption_controll.Budget
use node_disruption_controll.Budget.{Budget, application, pool}
use node_disruption_controll.Budget.Synced.{identity, get_all_budgets-identity}
use node_disruption_controll.Budget.Hooks
use node_disruption_controll.Budget.Application
use node_disruption_controll.Budget.Pool
use node_disruption_controll.NodeSet.{
  new_node_set_from_string_list, node_set_to_string_list, overlaps,
}
use node_disruption_controll.Prelude.Int.{pos, wrap64, ◌-ℤ◌, ◌≤ℤ◌}
use node_disruption_controll.Resolver.{
  get_nodes_from_namespaced_pod_selector, get_nodes_from_namespaced_pvc_selector,
  get_node_from_node_selector,
}
use node_disruption_controll.Disruption.Granting.{IsGrounded, try_transition_to_granted-IsGrounded}
use node_disruption_controll.Disruption.Capacity.{IsGrounded-fits}
use node_disruption_controll.Disruption.Constraints.{validate_with_internal_constraints}
use node_disruption_controll.Disruption.Transition.{try_transition_to_granted}
use node_disruption_controll.Disruption.Transition.{reconcile_single}
use node_disruption_controll.Disruption.States.{
  Step, reconcile_single-Step, here, reconciled, Run-granted,
}
use node_disruption_controll.Disruption.History.{WasGrounded, Run-WasGrounded}
use node_disruption_controll.Disruption.Validation.{select_budgets}
use node_disruption_controll.Disruption.Selection.{
  concerns, refuses, selection_of, select_budgets-eq-selection_of,
}
use node_disruption_controll.Tests.World.{Journal, start, env_of}
use node_disruption_controll.Tests.Fixtures.{disruption, budget, pool_budget, cluster, config}

abbrev second : NodeDisruption
second = disruption "second" pending ("n2" ∷ [])

pub run : Result NodeDisruption × Journal
unfolding try_transition_to_granted str_eq Budget.get_all_budgets_in_sync Budget.is_impacted
    Budget.tolerate_disruption Budget.call_health_hook Budget.Hooks.call_health_hook
    get_nodes_from_namespaced_pod_selector get_nodes_from_namespaced_pvc_selector
    get_node_from_node_selector new_node_set_from_string_list node_set_to_string_list overlaps
    wrap64 ◌-ℤ◌
run = try_transition_to_granted (env_of cluster) config second start

-- The disruption as the run leaves it.
abbrev result_of : Result NodeDisruption → NodeDisruption
result_of (ok nd) = nd
result_of (err e) = second

-- The second disruption fits: both budgets have one left.
run-ok : run ≡ (ok (result_of run.0), run.1)
unfolding run
run-ok = refl

try_transition_to_granted-IsGrounded_example :
    IsGrounded
      (env_of cluster)
      config
      second
      (items (result_of run.0).status.disrupted_disruption_budgets)
unfolding run
try_transition_to_granted-IsGrounded_example =
    try_transition_to_granted-IsGrounded (env_of cluster) config second start run-ok refl

-- The same run by the reconciler, which looks the nodes up first.
reconciled_run : Result NodeDisruption × Journal
unfolding reconcile_single run
reconciled_run = reconcile_single (env_of cluster) config second start

reconciled_run-ok : reconciled_run ≡ (ok (result_of reconciled_run.0), reconciled_run.1)
unfolding reconciled_run
reconciled_run-ok = refl

reconcile_single-Step_example : Step pending granted
unfolding reconciled_run
reconcile_single-Step_example =
    reconcile_single-Step (env_of cluster) config second start reconciled_run-ok

pending≢granted : pending ≢ granted
pending≢granted e = cc

Run-WasGrounded_example : WasGrounded (env_of cluster) config second (result_of reconciled_run.0)
unfolding reconciled_run
Run-WasGrounded_example =
    Run-WasGrounded (env_of cluster) config {nd = second} {nd' = result_of reconciled_run.0}
      (reconciled {a = second} start reconciled_run.1 here reconciled_run-ok) pending≢granted refl

abbrev first : NodeDisruption
first = disruption "first" granted ("n1" ∷ [])

first_run : Result NodeDisruption × Journal
unfolding reconcile_single run
first_run = reconcile_single (env_of cluster) config first start

first_run-ok : first_run ≡ (ok (result_of first_run.0), first_run.1)
unfolding first_run
first_run-ok = refl

Run-granted_example :
    ((result_of first_run.0).status.state ≡ granted)
    × ((result_of first_run.0).status.disrupted_disruption_budgets ≡ nil)
unfolding first_run
Run-granted_example =
    Run-granted (env_of cluster) config {nd = first} {nd' = result_of first_run.0}
      (reconciled {a = first} start first_run.1 here first_run-ok) refl

-- The two budgets as they are read.
budgets_run : Result (List Budget) × Journal
unfolding run Budget.get_all_budgets_in_sync
budgets_run = Budget.get_all_budgets_in_sync (env_of cluster) start

abbrev budgets_of : Result (List Budget) → List Budget
budgets_of (ok bs) = bs
budgets_of (err e) = []

select_budgets-eq-selection_of_example :
    select_budgets (env_of cluster) second ("n2" ∷ []) (budgets_of budgets_run.0)
    ≡ selection_of (env_of cluster) second ("n2" ∷ []) (budgets_of budgets_run.0)
select_budgets-eq-selection_of_example =
    select_budgets-eq-selection_of (env_of cluster) second ("n2" ∷ []) (budgets_of budgets_run.0)

budgets_run-ok : budgets_run ≡ (ok (budgets_of budgets_run.0), budgets_run.1)
unfolding budgets_run
budgets_run-ok = refl

get_all_budgets-identity_example :
    (adbs : List ApplicationDisruptionBudget) × (ndbs : List NodeDisruptionBudget) × (w₁ : Journal)
    × (w₂ : Journal) × (◌≡◌ {A = Result (List ApplicationDisruptionBudget) × Journal}
        (ok cluster.adbs, start)
        (ok adbs, w₁))
    × (◌≡◌ {A = Result (List NodeDisruptionBudget) × Journal} (ok cluster.ndbs, w₁) (ok ndbs, w₂))
    × (map identity (budgets_of budgets_run.0)
        ≡ map identity (map application adbs ++ map pool ndbs))
unfolding budgets_run
get_all_budgets-identity_example =
    get_all_budgets-identity (env_of cluster) start {budgets = budgets_of budgets_run.0}
      budgets_run-ok

-- The grounds of that grant, written out, and the application's budget among them.
granted_statuses : List DisruptedBudgetStatus
unfolding run
granted_statuses = items (result_of run.0).status.disrupted_disruption_budgets

grounds : IsGrounded (env_of cluster) config second granted_statuses
unfolding granted_statuses budgets_run validate_with_internal_constraints refuses
grounds = record {
  budgets = budgets_of budgets_run.0;
  before_read = start;
  after_read = start;
  budgets_read = refl;
  constraints = nil;
  after_check = start;
  constraints_hold = refl;
  none_refuses = refl;
  all_approve = refl;
  one_for_each = refl;
}

abbrev read_budget : ApplicationDisruptionBudget
read_budget =
    let db = budget "db" 2 "" in
    record db {
      status = record {
        watched_nodes = of ("n1" ∷ "n2" ∷ []);
        disruptions_allowed = pos 1;
        current_disruptions = pos 1;
        disruptions = of (
            record { name = "first"; state = "granted" }
            ∷ record { name = "second"; state = "pending" }
            ∷ []);
      };
    }

abbrev read_pool : NodeDisruptionBudget
read_pool =
    let pool = pool_budget "pool" 2 1 ("n1" ∷ "n2" ∷ "n3" ∷ []) in
    record pool {
      status = record {
        watched_nodes = of ("n1" ∷ "n2" ∷ "n3" ∷ []);
        disruptions_allowed = pos 1;
        current_disruptions = pos 1;
        disruptions = of (
            record { name = "first"; state = "granted" }
            ∷ record { name = "second"; state = "pending" }
            ∷ []);
      };
    }

grounds-budgets : grounds.budgets ≡ [] ++ (application read_budget ∷ pool read_pool ∷ [])
unfolding grounds Application.with_status Pool.with_status
grounds-budgets = refl

read_budget-concerned :
    concerns (env_of cluster) second ("n2" ∷ []) (application read_budget) ≡ true
unfolding concerns run
read_budget-concerned = refl

IsGrounded-fits_example : pos 2 ≤ℤ pos 2
unfolding new_node_set_from_string_list
IsGrounded-fits_example =
    IsGrounded-fits (env_of cluster) config second granted_statuses grounds [] (pool read_pool ∷ [])
      read_budget 1 grounds-budgets read_budget-concerned refl (omega arith, omega arith)
      (omega arith)
