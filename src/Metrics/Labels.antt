-- ===== src/Metrics/Labels.antt =====
-- The label values of each update against the labels of its metric, and which metrics a deletion can
-- reach.
use node_disruption_controll.Prelude.{
  String, Bool, true, false, List, [], ◌∷◌, ◌++◌, ◌≡◌, refl, arith, length, map, all, contains,
  ◌==◌,
}
use node_disruption_controll.Prelude.{str_eq}
use node_disruption_controll.Prelude.Int.{pos}
use node_disruption_controll.Prelude.Float.{to_float64}
use node_disruption_controll.Api.{
  NamespacedName, NodeDisruptionState, unknown, pending, granted, rejected, NodeDisruption,
  Disruption, DisruptionBudgetStatus, ApplicationDisruptionBudget, NodeDisruptionBudget,
}
use node_disruption_controll.Api.Slice.{items}
use node_disruption_controll.Metrics.{
  disruption_budget_watched_nodes, disruption_budget_disruptions,
  disruption_budget_disruptions_allowed, disruption_budget_current_disruptions, label_names,
  MetricUpdate, inc, set, delete_partial_match,
}
use node_disruption_controll.Metrics.Updates.{
  state_label_updates, update_node_disruption_metrics, prune_node_disruption_metrics,
  prune_budget_status_metrics, status_labels,
}
use node_disruption_controll.Metrics.Budgets.{
  ref_values, disruption_value, update_budget_status_metrics, update_adb_metrics,
  update_ndb_metrics, prune_adb_metrics, prune_ndb_metrics,
}

-- An update has as many values as its metric has labels: `WithLabelValues` panics on any other number.
-- A deletion takes any labels.
has_arity : MetricUpdate → Bool
has_arity (inc metric values) = length values == length (label_names metric)
has_arity (set metric values v) = length values == length (label_names metric)
has_arity (delete_partial_match metric labels) = true

all-append :
    {A : Type 0} (p : A → Bool) (xs ys : List A)
    → all p xs ≡ true
    → all p ys ≡ true
    → all p (xs ++ ys) ≡ true
all-append p [] ys h k = k
all-append p (x ∷ xs) ys h k = ground (arith, all-append p xs ys)

all-map :
    {A B : Type 0} (p : B → Bool) (f : A → B) (xs : List A)
    → ((x : A) → p (f x) ≡ true)
    → all p (map f xs) ≡ true
all-map p f [] h = refl
all-map p f (x ∷ xs) h = ground (arith, h x, all-map p f xs h)

state_labels-have_arity :
    (s : NodeDisruptionState) (name type_name : String)
    → all has_arity (state_label_updates s name type_name) ≡ true
unfolding has_arity state_label_updates
state_labels-have_arity unknown name type_name = refl
state_labels-have_arity pending name type_name = refl
state_labels-have_arity granted name type_name = refl
state_labels-have_arity rejected name type_name = refl

-- Every update of a disruption's metrics has as many label values as its metric has labels.
update_node_disruption_metrics-have_arity :
    (nd : NodeDisruption) → all has_arity (update_node_disruption_metrics nd) ≡ true
unfolding has_arity update_node_disruption_metrics
update_node_disruption_metrics-have_arity nd =
    all-append has_arity (state_label_updates nd.status.state nd.meta.name nd.spec.type_name) _
      (state_labels-have_arity nd.status.state nd.meta.name nd.spec.type_name)
      (all-map has_arity _ (items nd.status.disrupted_nodes) (λ node. refl))

-- The gauges of a status, but for the deletions before them.
abbrev node_gauge : NamespacedName → String → MetricUpdate
node_gauge ref node = set disruption_budget_watched_nodes (ref_values ref ++ (node ∷ [])) (pos 1)

abbrev disruption_gauge : NamespacedName → Disruption → MetricUpdate
disruption_gauge ref d =
    set disruption_budget_disruptions (ref_values ref ++ (d.name ∷ [])) (disruption_value d.state)

abbrev count_gauges : NamespacedName → DisruptionBudgetStatus → List MetricUpdate
count_gauges ref status =
    set disruption_budget_disruptions_allowed (ref_values ref)
      (to_float64 status.disruptions_allowed)
    ∷ set disruption_budget_current_disruptions (ref_values ref)
        (to_float64 status.current_disruptions)
    ∷ []

status_metrics-have_arity :
    (ref : NamespacedName) (status : DisruptionBudgetStatus)
    → all has_arity (update_budget_status_metrics ref status) ≡ true
unfolding has_arity update_budget_status_metrics
status_metrics-have_arity ref status =
    let disruptions = map (disruption_gauge ref) (items status.disruptions) in
    all-append has_arity (map (node_gauge ref) (items status.watched_nodes))
      (delete_partial_match disruption_budget_disruptions (status_labels ref)
        ∷ (disruptions ++ count_gauges ref status))
      (all-map has_arity (node_gauge ref) (items status.watched_nodes) (λ node. refl))
      (all-append has_arity disruptions (count_gauges ref status)
        (all-map has_arity (disruption_gauge ref) (items status.disruptions) (λ d. refl)) refl)

-- Every update of a budget's metrics, of either kind, has as many label values as its metric has
-- labels.
update_budget_metrics-have_arity :
    (ref : NamespacedName) (adb : ApplicationDisruptionBudget) (ndb : NodeDisruptionBudget)
    → (all has_arity (update_adb_metrics ref adb) ≡ true)
      × (all has_arity (update_ndb_metrics ref ndb) ≡ true)
unfolding has_arity update_adb_metrics update_ndb_metrics
update_budget_metrics-have_arity ref adb ndb =
    (status_metrics-have_arity ref adb.status, status_metrics-have_arity ref ndb.status)

-- A deletion reaches a series of its metric only if every label that it names is one of the metric's.
pub can_match : MetricUpdate → Bool
can_match (delete_partial_match metric labels) =
    all (λ (l : String × String). contains (label_names metric) l.0) labels
can_match _ = true

-- Every deletion for a disruption that is gone can match, for any name.
prune_node_disruption_metrics-can_match :
    (name : String) → all can_match (prune_node_disruption_metrics name) ≡ true
unfolding can_match prune_node_disruption_metrics str_eq
prune_node_disruption_metrics-can_match name = refl

-- For either kind of budget the deletions of the metrics of its spec name a label that the metric
-- does not have, and those of the metrics of its status name only labels that theirs have.
pub prune_budget_metrics-can_match :
    (ref : NamespacedName)
    → (map can_match (prune_adb_metrics ref)
        ≡ false ∷ map (λ u. true) (prune_budget_status_metrics ref))
      × (map can_match (prune_ndb_metrics ref)
          ≡ false ∷ false ∷ map (λ u. true) (prune_budget_status_metrics ref))
unfolding can_match prune_adb_metrics prune_ndb_metrics str_eq
prune_budget_metrics-can_match ref = (refl, refl)
