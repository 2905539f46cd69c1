-- ===== src/DeepCopy/Objects.antt =====
-- The API's types with their slices as references to arrays, and the copies that the generated code makes
-- of them. The types of the API machinery, with their own copies, are given.
use node_disruption_controll.Prelude.{String, Bool, List, []}
use node_disruption_controll.Prelude.Int.{ℤ}
use node_disruption_controll.Api.{HookSpec, Disruption, DisruptedBudgetStatus, NodeDisruptionState}
use node_disruption_controll.DeepCopy.Heap.{Ref}

-- `metav1.ObjectMeta`, `metav1.ListMeta`, `metav1.LabelSelector` and `metav1.Time`, and the arrays that
-- they refer to.
pub record Machinery : Type 1 where
  pub ObjectMeta : Type 0
  pub ListMeta : Type 0
  pub LabelSelector : Type 0
  pub Time : Type 0
  pub Block : Type 0

-- `metav1.TypeMeta`
pub record TypeMeta : Type 0 where
  pub kind : String
  pub api_version : String

module _ (m : Machinery) where
  pub record RetrySpec : Type 0 where
    pub enabled : Bool
    pub deadline : m.Time

  pub record NodeDisruptionSpec : Type 0 where
    pub node_selector : m.LabelSelector
    pub start_date : m.Time
    pub do_not_grant_before : m.Time
    pub duration : ℤ
    pub retry : RetrySpec
    pub type_name : String

  pub record NodeDisruptionStatus : Type 0 where
    pub state : NodeDisruptionState
    pub disrupted_disruption_budgets : Ref
    pub disrupted_nodes : Ref
    pub next_retry_date : m.Time

  pub record ApplicationDisruptionBudgetSpec : Type 0 where
    pub max_disruptions : ℤ
    pub pod_selector : m.LabelSelector
    pub pvc_selector : m.LabelSelector
    pub health_hook : HookSpec
    pub hook_v2_base_path : HookSpec
    pub supported_node_disruption_types : Ref

  pub record NodeDisruptionBudgetSpec : Type 0 where
    pub max_disrupted_nodes : ℤ
    pub min_undisrupted_nodes : ℤ
    pub node_selector : m.LabelSelector
    pub supported_node_disruption_types : Ref

  pub record DisruptionBudgetStatus : Type 0 where
    pub watched_nodes : Ref
    pub disruptions_allowed : ℤ
    pub current_disruptions : ℤ
    pub disruptions : Ref

  -- An object, by the types of its spec and its status.
  pub record Resource (Spec Status : Type 0) : Type 0 where
    pub type_meta : TypeMeta
    pub object_meta : m.ObjectMeta
    pub spec : Spec
    pub status : Status

  -- A list of objects; they are in an array.
  pub record ResourceList : Type 0 where
    pub type_meta : TypeMeta
    pub list_meta : m.ListMeta
    pub items : Ref

  abbrev pub NodeDisruption : Type 0
  NodeDisruption = Resource NodeDisruptionSpec NodeDisruptionStatus

  abbrev pub ApplicationDisruptionBudget : Type 0
  ApplicationDisruptionBudget = Resource ApplicationDisruptionBudgetSpec DisruptionBudgetStatus

  abbrev pub NodeDisruptionBudget : Type 0
  NodeDisruptionBudget = Resource NodeDisruptionBudgetSpec DisruptionBudgetStatus

  -- What an address holds.
  pub data Array : Type 0 where
    strings : List String → Array
    disruptions : List Disruption → Array
    statuses : List DisruptedBudgetStatus → Array
    node_disruptions : List NodeDisruption → Array
    adbs : List ApplicationDisruptionBudget → Array
    ndbs : List NodeDisruptionBudget → Array
    block : m.Block → Array

  abbrev pub strings_of : Array → List String
  strings_of (strings xs) = xs
  strings_of _ = []

  abbrev pub disruptions_of : Array → List Disruption
  disruptions_of (disruptions xs) = xs
  disruptions_of _ = []

  abbrev pub statuses_of : Array → List DisruptedBudgetStatus
  statuses_of (statuses xs) = xs
  statuses_of _ = []

  abbrev pub node_disruptions_of : Array → List NodeDisruption
  node_disruptions_of (node_disruptions xs) = xs
  node_disruptions_of _ = []

  abbrev pub adbs_of : Array → List ApplicationDisruptionBudget
  adbs_of (adbs xs) = xs
  adbs_of _ = []

  abbrev pub ndbs_of : Array → List NodeDisruptionBudget
  ndbs_of (ndbs xs) = xs
  ndbs_of _ = []
