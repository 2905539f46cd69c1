-- ===== src/Tests/Overrun.antt =====
-- A pool's budget of at most three nodes, two of which are disrupted by one disruption: a disruption of
-- two other nodes is granted, since the budget counts disruptions.
use node_disruption_controll.Prelude.{[], ◌∷◌, ◌≡◌, refl, str_eq}
use node_disruption_controll.Prelude.Int.{wrap64, ◌-ℤ◌}
use node_disruption_controll.Api.{pending, granted, NodeDisruption}
use node_disruption_controll.NodeSet.{
  new_node_set_from_string_list, node_set_to_string_list, overlaps,
}
use node_disruption_controll.Client.Monad.{Result, ok, err}
use node_disruption_controll.Resolver.{get_node_from_node_selector}
use node_disruption_controll.Budget
use node_disruption_controll.Disruption.Transition.{reconcile_single}
use node_disruption_controll.Tests.World.{Cluster, Journal, start, env_of}
use node_disruption_controll.Tests.Fixtures.{cluster, config, disruption, pool_budget}

abbrev four_nodes : Cluster
four_nodes = record cluster {
  nodes = "n1" ∷ "n2" ∷ "n3" ∷ "n4" ∷ [];
  disruptions =
      disruption "first" granted ("n1" ∷ "n2" ∷ [])
      ∷ disruption "second" pending ("n3" ∷ "n4" ∷ [])
      ∷ [];
  adbs = [];
  ndbs = pool_budget "pool" 3 0 ("n1" ∷ "n2" ∷ "n3" ∷ "n4" ∷ []) ∷ [];
}

abbrev second : NodeDisruption
second = disruption "second" pending ("n3" ∷ "n4" ∷ [])

overrun : Result NodeDisruption × Journal
unfolding reconcile_single str_eq Budget.get_all_budgets_in_sync Budget.is_impacted
    Budget.tolerate_disruption Budget.call_health_hook get_node_from_node_selector
    new_node_set_from_string_list node_set_to_string_list overlaps wrap64 ◌-ℤ◌
overrun = reconcile_single (env_of four_nodes) config second start

abbrev disruption_of : Result NodeDisruption → NodeDisruption
disruption_of (ok nd) = nd
disruption_of (err e) = second

-- All four nodes are disrupted then.
overrun-granted : (disruption_of overrun.0).status.state ≡ granted
unfolding overrun
overrun-granted = refl
