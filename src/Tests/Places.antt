-- ===== src/Tests/Places.antt =====
-- The ledger of the cluster's budget, over a grant.
use node_disruption_controll.Prelude.{
  String, List, [], ◌∷◌, ◌≡◌, refl, sym, ap, ◌∙◌, arith, contains, str_eq,
}
use node_disruption_controll.Prelude.Int.{pos, ◌≤ℤ◌, wrap64, ◌-ℤ◌}
use node_disruption_controll.Api.{NodeDisruption, ApplicationDisruptionBudget, granted, pending}
use node_disruption_controll.Client.Monad.{Result, ok, err}
use node_disruption_controll.Resolver.{
  get_nodes_from_namespaced_pod_selector, get_nodes_from_namespaced_pvc_selector,
  get_node_from_node_selector,
}
use node_disruption_controll.Budget.Application
use node_disruption_controll.Cluster.Reads.{Setting, holders, IsBudget, Shows}
use node_disruption_controll.Cluster.Ledger
use node_disruption_controll.Cluster.Steps.{
  Run, here, then_step, reconciles, Run-refines, Run-holders,
}
use node_disruption_controll.Disruption.Transition.{reconcile_single}
use node_disruption_controll.NodeSet.{
  new_node_set_from_string_list, node_set_to_string_list, overlaps,
}
use node_disruption_controll.Budget
use node_disruption_controll.Budget.Hooks
use node_disruption_controll.Tests.Sets.{list_sets-IsLawful}
use node_disruption_controll.Tests.World.{Journal, start, env_of}
use node_disruption_controll.Tests.Counts.{nodes_of, stable}
use node_disruption_controll.Tests.Fixtures.{budget, cluster, config, disruption}

-- The cluster's budget, which follows the pods on the first two nodes.
abbrev setting : Setting
setting = record {
  nodes_of = nodes_of;
  meta = (budget "db" 2 "").meta;
  spec = (budget "db" 2 "").spec;
  selected = "n2" ∷ "n1" ∷ [];
}

result_nodes :
    {a b : List String} {w w' : Journal}
    → ◌≡◌ {A = Result (List String) × Journal} (ok a, w) (ok b, w')
    → b ≡ a
result_nodes h = ground arith

result_names : {a b : List String} → ◌≡◌ {A = Result (List String)} (ok a) (ok b) → b ≡ a
result_names h = ground arith

result_adbs :
    {a b : List ApplicationDisruptionBudget} {w w' : Journal}
    → ◌≡◌ {A = Result (List ApplicationDisruptionBudget) × Journal} (ok a, w) (ok b, w')
    → b ≡ a
result_adbs h = ground arith

result_nds :
    {a b : List NodeDisruption} {w w' : Journal}
    → ◌≡◌ {A = Result (List NodeDisruption) × Journal} (ok a, w) (ok b, w')
    → b ≡ a
result_nds h = ground arith

selected_nodes :
    (w : Journal)
    → Application.get_selected_nodes (env_of cluster) (budget "db" 2 "") w
      ≡ (ok ("n2" ∷ "n1" ∷ []), w)
unfolding Application.get_selected_nodes str_eq get_nodes_from_namespaced_pod_selector
    get_nodes_from_namespaced_pvc_selector
selected_nodes w = refl

selected_same :
    (adb : ApplicationDisruptionBudget) (w : Journal)
    → IsBudget setting adb
    → Application.get_selected_nodes (env_of cluster) adb w ≡ (ok ("n2" ∷ "n1" ∷ []), w)
unfolding Application.get_selected_nodes
selected_same adb w is_budget =
    (λ i.
      Application.get_selected_nodes (env_of cluster)
        (record { meta = is_budget.0 i; spec = is_budget.1 i; status = adb.status }) w)
    ∙ selected_nodes w

cluster_shown : Shows (env_of cluster) setting cluster.disruptions
cluster_shown = record {
  lawful = list_sets-IsLawful;
  disruptions_shown = λ w found w' h. result_nds h;
  nodes_shown = λ selector w nodes w' h a.
      ap (λ l. contains l a) (result_names (sym (stable selector w) ∙ ap (λ r. r.0) h));
  selected_shown = λ adb w nodes w' is_budget h a.
      ap (λ l. contains l a) (result_nodes (sym (selected_same adb w is_budget) ∙ h));
  budget_shown = λ w adbs w' h. ([], budget "db" 2 "", [], result_adbs h, (refl, refl));
}

abbrev first : NodeDisruption
first = disruption "first" granted ("n1" ∷ [])

abbrev disruption_of : Result NodeDisruption → NodeDisruption
disruption_of (ok nd) = nd
disruption_of (err e) = first

abbrev second : NodeDisruption
second = disruption "second" pending ("n2" ∷ [])

pub run : Result NodeDisruption × Journal
unfolding reconcile_single str_eq Budget.get_all_budgets_in_sync Budget.is_impacted
    Budget.tolerate_disruption Budget.call_health_hook Budget.Hooks.call_health_hook
    get_nodes_from_namespaced_pod_selector get_nodes_from_namespaced_pvc_selector
    get_node_from_node_selector new_node_set_from_string_list node_set_to_string_list overlaps
    wrap64 ◌-ℤ◌
run = reconcile_single (env_of cluster) config second start

-- The second disruption is granted.
abbrev granted_second : NodeDisruption
granted_second = disruption_of run.0

run-ok : run ≡ (ok granted_second, run.1)
unfolding run
run-ok = refl

grant_second : Run setting cluster.disruptions (first ∷ granted_second ∷ [])
unfolding nodes_of str_eq run
grant_second = then_step here (
    reconciles (first ∷ []) [] second granted_second (env_of cluster) config start run.1 refl refl
      cluster_shown refl run-ok)

holders-counted : holders setting (first ∷ granted_second ∷ []) ≡ 2
unfolding nodes_of str_eq run
holders-counted = refl

Run-refines_example :
    Ledger.Run
      (pos 2)
      (holders setting cluster.disruptions)
      (holders setting (first ∷ granted_second ∷ []))
unfolding nodes_of str_eq
Run-refines_example = Run-refines setting grant_second (omega arith, omega arith) (omega arith)

Run-holders_example : pos (holders setting (first ∷ granted_second ∷ [])) ≤ℤ pos 2
unfolding nodes_of str_eq
Run-holders_example = Run-holders setting grant_second (omega arith, omega arith) (omega arith)
