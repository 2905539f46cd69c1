-- ===== src/Budget/Disruptions.antt =====
-- The loop of `ResolveDisruption` over the node disruptions of the cluster, which both kinds of budget
-- run over the nodes that they select.
use node_disruption_controll.Prelude.{ℕ, suc, Bool, true, false, List, [], ◌∷◌, ◌++◌, if◌then◌else◌}
use node_disruption_controll.Api.{
  NodeDisruptionState, unknown, granted, state_string, NodeDisruption, Disruption,
}
use node_disruption_controll.NodeSet.{overlaps}
use node_disruption_controll.Client.{Env}
use node_disruption_controll.Client.Monad.{Action, pure, ◌>>=◌}
use node_disruption_controll.Resolver.{get_node_from_node_selector}

abbrev pub is_unknown : NodeDisruptionState → Bool
is_unknown unknown = true
is_unknown _ = false

abbrev pub is_granted : NodeDisruptionState → Bool
is_granted granted = true
is_granted _ = false

-- `nodedisruptionv1alpha1.Disruption{Name: …, State: …}`
abbrev pub summary : NodeDisruption → Disruption
summary nd = record { name = nd.meta.name; state = state_string nd.status.state }

-- The count of granted disruptions and the list of all, with one more that has nodes in common.
unfoldable pub record_disruption : NodeDisruption → ℕ × List Disruption → ℕ × List Disruption
record_disruption nd (count, found) =
    (if is_granted nd.status.state then suc count else count, found ++ (summary nd ∷ []))

module _ (env : Env) where
  -- The loop's body.
  unfoldable pub visit_disruption :
      env.sets.Set → NodeDisruption → ℕ × List Disruption → Action env.World (ℕ × List Disruption)
  unfolding record_disruption
  visit_disruption selected nd acc = if is_unknown nd.status.state then pure acc else do
    impacted ← get_node_from_node_selector env nd.spec.node_selector
    pure (if overlaps env.sets selected impacted then record_disruption nd acc else acc)

  unfoldable pub visit_disruptions :
      env.sets.Set
      → List NodeDisruption
      → ℕ × List Disruption
      → Action env.World (ℕ × List Disruption)
  unfolding visit_disruption
  visit_disruptions selected [] acc = pure acc
  visit_disruptions selected (nd ∷ nds) acc = do
    acc' ← visit_disruption selected nd acc
    visit_disruptions selected nds acc'
