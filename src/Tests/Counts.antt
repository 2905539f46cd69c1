-- ===== src/Tests/Counts.antt =====
-- Budgets on concrete numbers, and the resolver on a cluster.
use node_disruption_controll.Prelude.{
  itoa, ◌≤◌, ◌^◌, String, true, List, [], ◌∷◌, ◌≡◌, ◌↔◌, refl, arith, contains, str_eq,
}
use node_disruption_controll.Prelude.Int.{pos, ◌+ℤ◌, ◌≤ℤ◌}
use node_disruption_controll.Api.{LabelSelector}
use node_disruption_controll.Api.Objects.{PersistentVolumeClaim, bound, pending as waiting}
use node_disruption_controll.NodeSet.{new_node_set_from_string_list, overlaps}
use node_disruption_controll.Client.Monad.{Result, ok, err}
use node_disruption_controll.Resolver.{
  get_node_from_node_selector, get_nodes_from_namespaced_pod_selector,
}
use node_disruption_controll.Resolver.Volumes.{volumes_to_fetch}
use node_disruption_controll.Resolver.Laws.{get_nodes_from_pods-contains, volumes_to_fetch-safe}
use node_disruption_controll.Budget.Application
use node_disruption_controll.Budget.Pool
use node_disruption_controll.Budget.Disruptions.{visit_disruptions}
use node_disruption_controll.Budget.Counting.{StableNodes, uses_budget, visit_disruptions_lem}
use node_disruption_controll.Budget.Allowance.{application-tolerates, pool-tolerates}
use node_disruption_controll.Tests.Sets.{list_sets, list_sets-IsLawful}
use node_disruption_controll.Tests.World.{start, env_of}
use node_disruption_controll.Tests.Fixtures.{budget, pool_budget, cluster, selecting}

abbrev nodes_of_result : Result (List String) → List String
nodes_of_result (ok s) = s
nodes_of_result (err e) = []

-- The nodes of a selector in the cluster.
unfoldable pub nodes_of : LabelSelector → List String
unfolding get_node_from_node_selector
nodes_of s = nodes_of_result (get_node_from_node_selector (env_of cluster) s start).0

pub stable : StableNodes (env_of cluster) nodes_of ("n1" ∷ [])
unfolding nodes_of
stable s w = ground arith

visit_disruptions_lem_example :
    (visit_disruptions (env_of cluster) ("n1" ∷ []) cluster.disruptions (0, []) start).0
    ≡ ok (1, record { name = "first"; state = "granted" } ∷ [])
unfolding nodes_of uses_budget overlaps str_eq
visit_disruptions_lem_example =
    visit_disruptions_lem (env_of cluster) nodes_of ("n1" ∷ []) stable cluster.disruptions 0 []
      start

application-tolerates_example :
    (Application.tolerate_disruption
        (Application.with_status (env_of cluster) (budget "db" 2 "") ("n1" ∷ []) (1, []))
      ≡ true)
    ↔ (pos 2 ≤ℤ pos 2)
application-tolerates_example =
    application-tolerates (env_of cluster) (budget "db" 2 "") ("n1" ∷ []) 1 []
      (omega arith, omega arith) (omega arith)

abbrev pool : List String
pool = "n1" ∷ "n2" ∷ "n3" ∷ []

one_watched :
    list_sets.len
      (list_sets.intersection (new_node_set_from_string_list list_sets pool) ("n2" ∷ []))
    ≤ 2 ^ 51
unfolding new_node_set_from_string_list str_eq
one_watched = omega arith

pool-tolerates_example :
    (Pool.tolerate_disruption
        (env_of cluster)
        (Pool.with_status (env_of cluster) (pool_budget "pool" 2 1 pool) pool (1, []))
        ("n2" ∷ [])
      ≡ true)
    ↔ ((pos 2 ≤ℤ pos 2) × ((pos 1 +ℤ pos 2) ≤ℤ pos 3))
unfolding new_node_set_from_string_list str_eq
pool-tolerates_example =
    pool-tolerates (env_of cluster) (pool_budget "pool" 2 1 pool) pool 1 [] ("n2" ∷ [])
      (omega arith, omega arith) (omega arith, omega arith) (omega arith) (omega arith) one_watched

get_nodes_from_pods-contains_example :
    (nodes : List String) × (get_nodes_from_namespaced_pod_selector
        (env_of cluster)
        (selecting ("db" ∷ []))
        ""
        start
      ≡ (ok nodes, start))
    × (contains nodes "n1" ≡ true)
unfolding str_eq
get_nodes_from_pods-contains_example =
    get_nodes_from_pods-contains (env_of cluster) list_sets-IsLawful (selecting ("db" ∷ [])) "" "n1"
      start refl refl refl

abbrev claims : List PersistentVolumeClaim
claims =
    record { name = "a"; phase = bound; volume_name = "va" }
    ∷ record { name = "b"; phase = waiting; volume_name = "" }
    ∷ []

volumes_to_fetch-safe_example :
    (volumes_to_fetch claims ≡ ok ("va" ∷ []))
    ↔ ((true ≡ true) × (◌≡◌ {A = List String} ("va" ∷ []) ("va" ∷ [])))
volumes_to_fetch-safe_example = volumes_to_fetch-safe claims ("va" ∷ [])

itoa-digits : itoa 425 ≡ "425"
unfolding itoa
itoa-digits = refl
