-- ===== src/Controllers/Watch.antt =====
-- Which budgets an event wakes: `SelectorMatchesObject` (api/v1alpha1) and `MapFuncBuilder`
-- (internal/controller) of both kinds of budget.
use node_disruption_controll.Prelude.{
  String, Bool, true, false, Option, none, some, List, [], ◌∷◌, if◌then◌else◌,
}
use node_disruption_controll.Api.{ApplicationDisruptionBudget, NodeDisruptionBudget}
use node_disruption_controll.Client.{Env}
use node_disruption_controll.Client.Monad.{Result, ok, err}

-- The type of a `client.Object`, where the code asks for it.
pub data ObjectType : Type 0 where
  pod persistent_volume_claim node node_disruption other_type : ObjectType

pub record WatchedObject : Type 0 where
  pub object_type : ObjectType
  pub namespace : String
  pub labels : List (String × String)

-- `reconcile.Request`
pub record Request : Type 0 where
  pub namespace : String
  pub name : String

abbrev pub adb_request : ApplicationDisruptionBudget → Request
adb_request adb = record { namespace = adb.meta.namespace; name = adb.meta.name }

abbrev ndb_request : NodeDisruptionBudget → Request
ndb_request ndb = record { namespace = ndb.meta.namespace; name = ndb.meta.name }

module _ (env : Env) where
  -- The match of a selector: `none` is the panic of the call of `Empty` on the nil selector that
  -- comes with an error, which the code drops.
  unfoldable pub selector_answer : Result env.Selector → List (String × String) → Option Bool
  selector_answer (err e) labels = none
  selector_answer (ok selector) labels =
      if env.selector_empty selector
      then some false
      else some (env.selector_matches selector labels)

  unfoldable pub adb_selector_matches :
      ApplicationDisruptionBudget → ObjectType → List (String × String) → Option Bool
  unfolding selector_answer
  adb_selector_matches adb pod labels =
      selector_answer (env.label_selector_as_selector adb.spec.pod_selector) labels
  adb_selector_matches adb persistent_volume_claim labels =
      selector_answer (env.label_selector_as_selector adb.spec.pvc_selector) labels
  adb_selector_matches adb node_disruption labels = some true
  adb_selector_matches adb node labels = some false
  adb_selector_matches adb other_type labels = some false

  ndb_selector_matches : NodeDisruptionBudget → ObjectType → List (String × String) → Option Bool
  unfolding selector_answer
  ndb_selector_matches ndb node labels =
      selector_answer (env.label_selector_as_selector ndb.spec.node_selector) labels
  ndb_selector_matches ndb node_disruption labels = some true
  ndb_selector_matches ndb pod labels = some false
  ndb_selector_matches ndb persistent_volume_claim labels = some false
  ndb_selector_matches ndb other_type labels = some false

-- One more request, if the test of the budget did not panic.
unfoldable pub add_request : Request → Option Bool → Option (List Request) → Option (List Request)
add_request r none rest = none
add_request r (some true) (some rs) = some (r ∷ rs)
add_request r (some true) none = none
add_request r (some false) rest = rest

module _ (env : Env) where
  -- The loop over the budgets.
  unfoldable pub adb_requests :
      WatchedObject → List ApplicationDisruptionBudget → Option (List Request)
  unfolding add_request adb_selector_matches
  adb_requests object [] = some []
  adb_requests object (adb ∷ adbs) =
      add_request (adb_request adb) (adb_selector_matches env adb object.object_type object.labels)
        (adb_requests object adbs)

  ndb_requests : WatchedObject → List NodeDisruptionBudget → Option (List Request)
  unfolding add_request ndb_selector_matches
  ndb_requests object [] = some []
  ndb_requests object (ndb ∷ ndbs) =
      add_request (ndb_request ndb) (ndb_selector_matches env ndb object.object_type object.labels)
        (ndb_requests object ndbs)

  -- `MapFuncBuilder` of the application budgets: no request where the budgets cannot be listed.
  map_adb_event : WatchedObject → env.World → Option (List Request) × env.World
  unfolding adb_requests
  map_adb_event object w =
      let (r, w') = env.list_adbs (some object.namespace) w in
      (elim r [ ok adbs ↦ adb_requests object adbs | err e ↦ some [] ], w')

  -- `MapFuncBuilder` of the pool budgets.
  map_ndb_event : WatchedObject → env.World → Option (List Request) × env.World
  unfolding ndb_requests
  map_ndb_event object w =
      let (r, w') = env.list_ndbs (some object.namespace) w in
      (elim r [ ok ndbs ↦ ndb_requests object ndbs | err e ↦ some [] ], w')
