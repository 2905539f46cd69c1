-- ===== src/Metrics/Budgets.antt =====
-- What the reconcilers of the budgets set and delete: `UpdateBudgetStatusMetrics` (budget.go),
-- `UpdateADBMetrics` and `PruneADBMetrics` (applicationdisruptionbudget_controller.go), `UpdateNDBMetrics`
-- and `PruneNDBMetrics` (nodedisruptionbudget_controller.go), in the order in which they are made.
use node_disruption_controll.Prelude.{String, List, [], ◌∷◌, ◌++◌, map, str_eq, if◌then◌else◌}
use node_disruption_controll.Prelude.Int.{ℤ, pos, negsuc}
use node_disruption_controll.Prelude.Float.{to_float64}
use node_disruption_controll.Api.{
  NamespacedName, Disruption, DisruptionBudgetStatus, ApplicationDisruptionBudget,
  NodeDisruptionBudget,
}
use node_disruption_controll.Api.Slice.{items}
use node_disruption_controll.Metrics.{
  disruption_budget_max_disruptions, disruption_budget_current_disruptions,
  disruption_budget_disruptions_allowed, disruption_budget_max_disrupted_nodes,
  disruption_budget_min_undisrupted_nodes, disruption_budget_watched_nodes,
  disruption_budget_disruptions, MetricUpdate, set, delete_partial_match,
}
use node_disruption_controll.Metrics.Updates.{status_labels, prune_budget_status_metrics}

abbrev pub ref_values : NamespacedName → List String
ref_values ref = ref.namespace ∷ ref.name ∷ ref.kind ∷ []

-- The `switch` on the text of a disruption's state.
pub disruption_value : String → ℤ
disruption_value state =
    if str_eq state "pending"
    then pos 0
    else if str_eq state "rejected"
    then negsuc 0
    else if str_eq state "granted"
    then pos 1
    else pos 0

unfoldable pub update_budget_status_metrics :
    NamespacedName → DisruptionBudgetStatus → List MetricUpdate
unfolding disruption_value to_float64
update_budget_status_metrics ref status =
    (delete_partial_match disruption_budget_watched_nodes (status_labels ref)
      ∷ map (λ node. set disruption_budget_watched_nodes (ref_values ref ++ (node ∷ [])) (pos 1))
          (items status.watched_nodes))
    ++ ((delete_partial_match disruption_budget_disruptions (status_labels ref)
          ∷ map
              (λ (d : Disruption).
                set disruption_budget_disruptions (ref_values ref ++ (d.name ∷ []))
                  (disruption_value d.state))
              (items status.disruptions))
        ++ (set disruption_budget_disruptions_allowed (ref_values ref)
              (to_float64 status.disruptions_allowed)
            ∷ set disruption_budget_current_disruptions (ref_values ref)
                (to_float64 status.current_disruptions)
            ∷ []))

unfoldable pub update_adb_metrics : NamespacedName → ApplicationDisruptionBudget → List MetricUpdate
unfolding update_budget_status_metrics
update_adb_metrics ref adb =
    set disruption_budget_max_disruptions (ref_values ref) (to_float64 adb.spec.max_disruptions)
    ∷ update_budget_status_metrics ref adb.status

unfoldable pub update_ndb_metrics : NamespacedName → NodeDisruptionBudget → List MetricUpdate
unfolding update_budget_status_metrics
update_ndb_metrics ref ndb =
    set disruption_budget_max_disrupted_nodes (ref_values ref)
      (to_float64 ndb.spec.max_disrupted_nodes)
    ∷ set disruption_budget_min_undisrupted_nodes (ref_values ref)
        (to_float64 ndb.spec.min_undisrupted_nodes)
    ∷ update_budget_status_metrics ref ndb.status

-- The labels by which the metrics of a budget's spec are deleted, spelled as in the code.
abbrev spec_labels : NamespacedName → List (String × String)
spec_labels ref =
    ("budget_disruption_namespace", ref.namespace)
    ∷ ("budget_disruption_name", ref.name)
    ∷ ("budget_disruption_kind", ref.kind)
    ∷ []

unfoldable pub prune_adb_metrics : NamespacedName → List MetricUpdate
unfolding prune_budget_status_metrics
prune_adb_metrics ref =
    delete_partial_match disruption_budget_max_disruptions (spec_labels ref)
    ∷ prune_budget_status_metrics ref

unfoldable pub prune_ndb_metrics : NamespacedName → List MetricUpdate
unfolding prune_budget_status_metrics
prune_ndb_metrics ref =
    delete_partial_match disruption_budget_max_disrupted_nodes (spec_labels ref)
    ∷ delete_partial_match disruption_budget_min_undisrupted_nodes (spec_labels ref)
    ∷ prune_budget_status_metrics ref
