-- ===== src/Metrics.antt =====
-- The Prometheus collectors of internal/controller/metrics.go, and the updates that the code makes of
-- them. The registry is outside the repository: an update is a value that is handed to it.
pub mod Updates
pub mod Budgets
pub mod Labels
use node_disruption_controll.Prelude.{String, ◌<>◌, List, [], ◌∷◌}
use node_disruption_controll.Prelude.Int.{ℤ}

pub data Metric : Type 0 where
  node_disruption_granted_total node_disruption_rejected_total : Metric
  node_disruption_state_as_value node_disruption_state_as_label node_disruption_created : Metric
  node_disruption_deadline node_disruption_impacted_nodes node_disruption_type : Metric
  disruption_budget_check_health_hook_status_code_total : Metric
  disruption_budget_check_prepare_hook_status_code_total : Metric
  disruption_budget_check_ready_hook_status_code_total : Metric
  disruption_budget_check_terminate_hook_status_code_total : Metric
  disruption_budget_check_health_hook_error_total disruption_budget_rejected_total : Metric
  disruption_budget_granted_total disruption_budget_max_disruptions : Metric
  disruption_budget_current_disruptions disruption_budget_disruptions_allowed : Metric
  disruption_budget_max_disrupted_nodes disruption_budget_min_undisrupted_nodes : Metric
  disruption_budget_watched_nodes disruption_budget_disruptions : Metric

-- `METIC_PREFIX`
abbrev metric_prefix : String
metric_prefix = "node_disruption_controller_"

-- The collector's name, behind the prefix.
metric_name : Metric → String
metric_name node_disruption_granted_total = metric_prefix <> "node_disruption_granted_total"
metric_name node_disruption_rejected_total = metric_prefix <> "node_disruption_rejected_total"
metric_name node_disruption_state_as_value = metric_prefix <> "node_disruption_state_value"
metric_name node_disruption_state_as_label = metric_prefix <> "node_disruption_state_label"
metric_name node_disruption_created = metric_prefix <> "node_disruption_created"
metric_name node_disruption_deadline = metric_prefix <> "node_disruption_deadline"
metric_name node_disruption_impacted_nodes = metric_prefix <> "node_disruption_impacted_node"
metric_name node_disruption_type = metric_prefix <> "node_disruption_type"
metric_name disruption_budget_check_health_hook_status_code_total =
    metric_prefix <> "disruption_budget_health_hook_status_code_total"
metric_name disruption_budget_check_prepare_hook_status_code_total =
    metric_prefix <> "disruption_budget_prepare_hook_status_code_total"
metric_name disruption_budget_check_ready_hook_status_code_total =
    metric_prefix <> "disruption_budget_ready_hook_status_code_total"
metric_name disruption_budget_check_terminate_hook_status_code_total =
    metric_prefix <> "disruption_budget_terminate_hook_status_code_total"
metric_name disruption_budget_check_health_hook_error_total =
    metric_prefix <> "disruption_budget_health_hook_error_total"
metric_name disruption_budget_rejected_total = metric_prefix <> "disruption_budget_rejected_total"
metric_name disruption_budget_granted_total = metric_prefix <> "disruption_budget_granted_total"
metric_name disruption_budget_max_disruptions = metric_prefix <> "disruption_budget_max_disruptions"
metric_name disruption_budget_current_disruptions =
    metric_prefix <> "disruption_budget_current_disruptions"
metric_name disruption_budget_disruptions_allowed =
    metric_prefix <> "disruption_budget_disruptions_allowed"
metric_name disruption_budget_max_disrupted_nodes =
    metric_prefix <> "disruption_budget_max_disrupted_nodes"
metric_name disruption_budget_min_undisrupted_nodes =
    metric_prefix <> "disruption_budget_min_undisrupted_nodes"
metric_name disruption_budget_watched_nodes = metric_prefix <> "node_disruption_watched_nodes"
metric_name disruption_budget_disruptions = metric_prefix <> "budget_disruption_disruptions"

-- The labels that the collector is declared with.
abbrev pub label_names : Metric → List String
label_names node_disruption_granted_total = "type" ∷ []
label_names node_disruption_rejected_total = "type" ∷ []
label_names node_disruption_state_as_value = "node_disruption_name" ∷ "type" ∷ []
label_names node_disruption_state_as_label = "node_disruption_name" ∷ "state" ∷ "type" ∷ []
label_names node_disruption_created = "node_disruption_name" ∷ "type" ∷ []
label_names node_disruption_deadline = "node_disruption_name" ∷ "type" ∷ []
label_names node_disruption_impacted_nodes = "node_disruption_name" ∷ "node_name" ∷ "type" ∷ []
label_names node_disruption_type = "node_disruption_name" ∷ "type" ∷ []
label_names disruption_budget_check_health_hook_status_code_total =
    "disruption_budget_namespace" ∷ "disruption_budget_name" ∷ "disruption_budget_kind"
    ∷ "status_code" ∷ []
label_names disruption_budget_check_prepare_hook_status_code_total =
    "disruption_budget_namespace" ∷ "disruption_budget_name" ∷ "disruption_budget_kind"
    ∷ "status_code" ∷ []
label_names disruption_budget_check_ready_hook_status_code_total =
    "disruption_budget_namespace" ∷ "disruption_budget_name" ∷ "disruption_budget_kind"
    ∷ "status_code" ∷ []
label_names disruption_budget_check_terminate_hook_status_code_total =
    "disruption_budget_namespace" ∷ "disruption_budget_name" ∷ "disruption_budget_kind"
    ∷ "status_code" ∷ []
label_names disruption_budget_check_health_hook_error_total =
    "disruption_budget_namespace" ∷ "disruption_budget_name" ∷ "disruption_budget_kind" ∷ []
label_names disruption_budget_rejected_total =
    "disruption_budget_namespace" ∷ "disruption_budget_name" ∷ "disruption_budget_kind" ∷ "type"
    ∷ []
label_names disruption_budget_granted_total =
    "disruption_budget_namespace" ∷ "disruption_budget_name" ∷ "disruption_budget_kind" ∷ "type"
    ∷ []
label_names disruption_budget_max_disruptions =
    "disruption_budget_namespace" ∷ "disruption_budget_name" ∷ "disruption_budget_kind" ∷ []
label_names disruption_budget_current_disruptions =
    "disruption_budget_namespace" ∷ "disruption_budget_name" ∷ "disruption_budget_kind" ∷ []
label_names disruption_budget_disruptions_allowed =
    "disruption_budget_namespace" ∷ "disruption_budget_name" ∷ "disruption_budget_kind" ∷ []
label_names disruption_budget_max_disrupted_nodes =
    "disruption_budget_namespace" ∷ "disruption_budget_name" ∷ "disruption_budget_kind" ∷ []
label_names disruption_budget_min_undisrupted_nodes =
    "disruption_budget_namespace" ∷ "disruption_budget_name" ∷ "disruption_budget_kind" ∷ []
label_names disruption_budget_watched_nodes =
    "disruption_budget_namespace" ∷ "disruption_budget_name" ∷ "disruption_budget_kind"
    ∷ "node_name" ∷ []
label_names disruption_budget_disruptions =
    "disruption_budget_namespace" ∷ "disruption_budget_name" ∷ "disruption_budget_kind"
    ∷ "node_disruption_name" ∷ []

-- `WithLabelValues(…).Inc()`, `WithLabelValues(…).Set(v)` and `DeletePartialMatch(labels)`.
pub data MetricUpdate : Type 0 where
  inc : Metric → List String → MetricUpdate
  set : Metric → List String → ℤ → MetricUpdate
  delete_partial_match : Metric → List (String × String) → MetricUpdate
