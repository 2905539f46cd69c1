-- ===== src/Controllers/Events.antt =====
-- Which budgets an event wakes, and when the look at them panics.
use node_disruption_controll.Prelude.{
  Bool, true, false, Option, none, some, List, [], ◌∷◌, ◌≡◌, refl, arith, any, map, keep_if, ◌++◌,
  if◌then◌else◌,
}
use node_disruption_controll.Api.{ApplicationDisruptionBudget}
use node_disruption_controll.Client.{Env}
use node_disruption_controll.Client.Monad.{Error, err}
use node_disruption_controll.Controllers.Watch.{
  pod, WatchedObject, adb_request, selector_answer, adb_selector_matches, add_request, adb_requests,
}

abbrev is_none : {A : Type 0} → Option A → Bool
is_none none = true
is_none (some a) = false

abbrev is_match : Option Bool → Bool
is_match (some b) = b
is_match none = false

module _ (env : Env) (object : WatchedObject) where
  -- How the budget's selectors answer for the object.
  abbrev pub answer : ApplicationDisruptionBudget → Option Bool
  answer adb = adb_selector_matches env adb object.object_type object.labels

  -- The look at the budgets for an object panics if it does so for one of them; otherwise it gives
  -- one request for each budget that matches the object, in their order.
  adb_requests_lem :
      (adbs : List ApplicationDisruptionBudget)
      → adb_requests env object adbs ≡ (
          if any (λ adb. is_none (answer adb)) adbs
          then none
          else some (map adb_request (keep_if (λ adb. is_match (answer adb)) adbs)))
  unfolding adb_requests add_request
  adb_requests_lem [] = refl
  adb_requests_lem (adb ∷ adbs) = ground (arith, adb_requests_lem adbs)

  -- If the selector machinery refuses the pod selector of one budget, the look at a list of
  -- budgets that has it panics for every pod, whatever the others are.
  pub adb_requests-panic :
      (before after : List ApplicationDisruptionBudget) (adb : ApplicationDisruptionBudget)
      {e : Error}
      → object.object_type ≡ pod
      → env.label_selector_as_selector adb.spec.pod_selector ≡ err e
      → adb_requests env object (before ++ (adb ∷ after)) ≡ none
  unfolding adb_requests add_request adb_selector_matches selector_answer
  adb_requests-panic [] after adb p bad = ground arith
  adb_requests-panic (b ∷ before) after adb p bad =
      ground (arith, adb_requests-panic before after adb p bad)
