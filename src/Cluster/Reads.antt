-- ===== src/Cluster/Reads.antt =====
-- What the reads of a reconciliation show: the disruptions of the cluster, the nodes of selectors, and
-- the budget.
use node_disruption_controll.Prelude.{
  String, Bool, ◌&&◌, none, List, ◌∷◌, ◌++◌, ◌≡◌, ℕ, count_if, contains, meets,
}
use node_disruption_controll.Api.{
  LabelSelector, NodeDisruption, ObjectMeta, ApplicationDisruptionBudgetSpec,
  ApplicationDisruptionBudget,
}
use node_disruption_controll.NodeSet.{IsLawful}
use node_disruption_controll.Client.{Env}
use node_disruption_controll.Client.Monad.{ok}
use node_disruption_controll.Resolver.{get_node_from_node_selector}
use node_disruption_controll.Budget.Application
use node_disruption_controll.Budget.Disruptions.{is_granted}

-- The nodes that a selector picks, and a budget with the nodes that its selectors pick. Its status is
-- not fixed.
pub record Setting : Type 0 where
  pub nodes_of : LabelSelector → List String
  pub meta : ObjectMeta
  pub spec : ApplicationDisruptionBudgetSpec
  pub selected : List String

-- A granted disruption of a node that the budget selects.
abbrev pub holds : Setting → NodeDisruption → Bool
holds s nd = is_granted nd.status.state && meets s.selected (s.nodes_of nd.spec.node_selector)

-- How many there are.
abbrev pub holders : Setting → List NodeDisruption → ℕ
holders s nds = count_if (holds s) nds

-- The budget as an object of the API.
abbrev pub IsBudget : Setting → ApplicationDisruptionBudget → Type 0
IsBudget s adb = (adb.meta ≡ s.meta) × (adb.spec ≡ s.spec)

-- While a reconciliation runs, its reads, where they succeed, show the disruptions of the cluster as
-- they are, the nodes of the setting, and the budget among the listed ones. Nothing is asked of
-- hooks, of the clock, of writes or of the rest of the cluster, and any read may fail.
pub record Shows (e : Env) (s : Setting) (nds : List NodeDisruption) : Type 0 where
  pub lawful : IsLawful e.sets
  pub disruptions_shown :
      (w : e.World) (found : List NodeDisruption) (w' : e.World)
      → e.list_node_disruptions w ≡ (ok found, w')
      → found ≡ nds
  pub nodes_shown :
      (selector : LabelSelector) (w : e.World) (nodes : e.sets.Set) (w' : e.World)
      → get_node_from_node_selector e selector w ≡ (ok nodes, w')
      → (a : String) → contains (e.sets.elements nodes) a ≡ contains (s.nodes_of selector) a
  pub selected_shown :
      (adb : ApplicationDisruptionBudget) (w : e.World) (nodes : e.sets.Set) (w' : e.World)
      → IsBudget s adb
      → Application.get_selected_nodes e adb w ≡ (ok nodes, w')
      → (a : String) → contains (e.sets.elements nodes) a ≡ contains s.selected a
  pub budget_shown :
      (w : e.World) (adbs : List ApplicationDisruptionBudget) (w' : e.World)
      → e.list_adbs none w ≡ (ok adbs, w')
      → (before : List ApplicationDisruptionBudget) × (adb : ApplicationDisruptionBudget)
        × (after : List ApplicationDisruptionBudget) × (adbs ≡ before ++ (adb ∷ after))
        × IsBudget s adb
