-- ===== src/Metrics/Updates.antt =====
-- What the three reconcilers set and delete: `UpdateNodeDisruptionMetrics` and
-- `PruneNodeDisruptionMetrics` (nodedisruption_controller.go), `UpdateBudgetStatusMetrics` and
-- `PruneBudgetStatusMetrics` (budget.go), and those of each budget. The updates are listed in the
-- order in which they are made.
use node_disruption_controll.Prelude.{ℕ, ◌/◌, String, List, [], ◌∷◌, ◌++◌, map, ◌==◌, if◌then◌else◌}
use node_disruption_controll.Prelude.Int.{ℤ, pos, negsuc, ◌-ℤ◌}
use node_disruption_controll.Api.{
  NamespacedName, NodeDisruptionState, unknown, pending, granted, rejected, NodeDisruption,
}
use node_disruption_controll.Api.Slice.{items}
use node_disruption_controll.Metrics.{
  node_disruption_state_as_value, node_disruption_state_as_label, node_disruption_created,
  node_disruption_deadline, node_disruption_impacted_nodes, node_disruption_type,
  disruption_budget_check_health_hook_status_code_total,
  disruption_budget_check_health_hook_error_total, disruption_budget_rejected_total,
  disruption_budget_granted_total, disruption_budget_current_disruptions,
  disruption_budget_disruptions_allowed, disruption_budget_watched_nodes,
  disruption_budget_disruptions, MetricUpdate, set, delete_partial_match,
}

-- `t.Unix()`: the seconds since 1970 of a time in nanoseconds since Go's zero time.
abbrev unix : ℕ → ℤ
unix t = pos (t / 1_000_000_000) -ℤ pos 62_135_596_800

-- The three gauges of the state, in the order of the code for each state.
unfoldable pub state_label_updates : NodeDisruptionState → String → String → List MetricUpdate
state_label_updates unknown name type_name = []
state_label_updates pending name type_name =
    set node_disruption_state_as_label (name ∷ "pending" ∷ type_name ∷ []) (pos 1)
    ∷ set node_disruption_state_as_label (name ∷ "granted" ∷ type_name ∷ []) (pos 0)
    ∷ set node_disruption_state_as_label (name ∷ "rejected" ∷ type_name ∷ []) (pos 0)
    ∷ []
state_label_updates rejected name type_name =
    set node_disruption_state_as_label (name ∷ "pending" ∷ type_name ∷ []) (pos 0)
    ∷ set node_disruption_state_as_label (name ∷ "rejected" ∷ type_name ∷ []) (pos 1)
    ∷ set node_disruption_state_as_label (name ∷ "granted" ∷ type_name ∷ []) (pos 0)
    ∷ []
state_label_updates granted name type_name =
    set node_disruption_state_as_label (name ∷ "pending" ∷ type_name ∷ []) (pos 0)
    ∷ set node_disruption_state_as_label (name ∷ "rejected" ∷ type_name ∷ []) (pos 0)
    ∷ set node_disruption_state_as_label (name ∷ "granted" ∷ type_name ∷ []) (pos 1)
    ∷ []

-- pending is 0, rejected -1 and granted 1.
state_value : NodeDisruptionState → ℤ
state_value unknown = pos 0
state_value pending = pos 0
state_value rejected = negsuc 0
state_value granted = pos 1

unfoldable pub update_node_disruption_metrics : NodeDisruption → List MetricUpdate
unfolding state_label_updates state_value ◌-ℤ◌
update_node_disruption_metrics nd =
    let name = nd.meta.name in
    let type_name = nd.spec.type_name in
    let deadline = nd.spec.retry.deadline in
    state_label_updates nd.status.state name type_name
    ++ (set node_disruption_state_as_value (name ∷ type_name ∷ []) (state_value nd.status.state)
        ∷ set node_disruption_created (name ∷ type_name ∷ []) (unix nd.meta.creation_timestamp)
        ∷ set node_disruption_deadline (name ∷ type_name ∷ [])
            (if deadline == 0 then pos 0 else unix deadline)
        ∷ map (λ node. set node_disruption_impacted_nodes (name ∷ node ∷ type_name ∷ []) (pos 1))
            (items nd.status.disrupted_nodes))

unfoldable pub prune_node_disruption_metrics : String → List MetricUpdate
prune_node_disruption_metrics nd_name =
    map (λ metric. delete_partial_match metric (("node_disruption_name", nd_name) ∷ []))
      (node_disruption_state_as_value ∷ node_disruption_state_as_label ∷ node_disruption_created
        ∷ node_disruption_deadline ∷ node_disruption_impacted_nodes ∷ node_disruption_type ∷ [])

-- The labels by which the status metrics of a budget are deleted.
abbrev pub status_labels : NamespacedName → List (String × String)
status_labels ref =
    ("disruption_budget_namespace", ref.namespace)
    ∷ ("disruption_budget_name", ref.name)
    ∷ ("disruption_budget_kind", ref.kind)
    ∷ []

unfoldable pub prune_budget_status_metrics : NamespacedName → List MetricUpdate
prune_budget_status_metrics ref =
    map (λ metric. delete_partial_match metric (status_labels ref))
      (disruption_budget_disruptions ∷ disruption_budget_watched_nodes
        ∷ disruption_budget_disruptions_allowed ∷ disruption_budget_current_disruptions
        ∷ disruption_budget_rejected_total ∷ disruption_budget_granted_total
        ∷ disruption_budget_check_health_hook_status_code_total
        ∷ disruption_budget_check_health_hook_error_total ∷ [])
