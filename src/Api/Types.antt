-- ===== src/Api/Types.antt =====
-- The types of api/v1alpha1.
use node_disruption_controll.Prelude.{ℕ, String, Bool, List}
use node_disruption_controll.Prelude.Int.{ℤ}
use node_disruption_controll.Api.Slice.{Slice}

pub record NamespacedName : Type 0 where
  pub namespace : String
  pub name : String
  pub kind : String

-- The strings "", "pending", "granted" and "rejected"; the resource's schema allows no others.
pub data NodeDisruptionState : Type 0 where
  unknown pending granted rejected : NodeDisruptionState

-- `string(state)`
abbrev pub state_string : NodeDisruptionState → String
state_string unknown = ""
state_string pending = "pending"
state_string granted = "granted"
state_string rejected = "rejected"

-- `metav1.LabelSelector`, as the resources' schema gives it.
pub record LabelSelectorRequirement : Type 0 where
  pub key : String
  pub operator : String
  pub values : List String

pub record LabelSelector : Type 0 where
  pub match_labels : List (String × String)
  pub match_expressions : List LabelSelectorRequirement

pub record RetrySpec : Type 0 where
  pub enabled : Bool
  pub deadline : ℕ

pub record NodeDisruptionSpec : Type 0 where
  pub node_selector : LabelSelector
  pub start_date : ℕ
  pub do_not_grant_before : ℕ
  pub duration : ℤ
  pub retry : RetrySpec
  pub type_name : String

pub record DisruptedBudgetStatus : Type 0 where
  pub reference : NamespacedName
  pub reason : String
  pub preparing : Bool
  pub ok : Bool

pub record NodeDisruptionStatus : Type 0 where
  pub state : NodeDisruptionState
  pub disrupted_disruption_budgets : Slice DisruptedBudgetStatus
  pub disrupted_nodes : Slice String
  pub next_retry_date : ℕ

-- What the code reads of `metav1.TypeMeta` and `metav1.ObjectMeta`.
pub record ObjectMeta : Type 0 where
  pub kind : String
  pub namespace : String
  pub name : String
  pub uid : String
  pub labels : List (String × String)
  pub creation_timestamp : ℕ
  pub deletion_timestamp : ℕ
  pub finalizers : List String

pub record NodeDisruption : Type 0 where
  pub meta : ObjectMeta
  pub spec : NodeDisruptionSpec
  pub status : NodeDisruptionStatus

pub record HookSpec : Type 0 where
  pub ca_bundle : String
  pub url : String

pub record ApplicationDisruptionBudgetSpec : Type 0 where
  pub max_disruptions : ℤ
  pub pod_selector : LabelSelector
  pub pvc_selector : LabelSelector
  pub health_hook : HookSpec
  pub hook_v2_base_path : HookSpec
  pub supported_node_disruption_types : List String

pub record Disruption : Type 0 where
  pub name : String
  pub state : String

pub record DisruptionBudgetStatus : Type 0 where
  pub watched_nodes : Slice String
  pub disruptions_allowed : ℤ
  pub current_disruptions : ℤ
  pub disruptions : Slice Disruption

pub record ApplicationDisruptionBudget : Type 0 where
  pub meta : ObjectMeta
  pub spec : ApplicationDisruptionBudgetSpec
  pub status : DisruptionBudgetStatus

pub record NodeDisruptionBudgetSpec : Type 0 where
  pub max_disrupted_nodes : ℤ
  pub min_undisrupted_nodes : ℤ
  pub node_selector : LabelSelector
  pub supported_node_disruption_types : List String

pub record NodeDisruptionBudget : Type 0 where
  pub meta : ObjectMeta
  pub spec : NodeDisruptionBudgetSpec
  pub status : DisruptionBudgetStatus
