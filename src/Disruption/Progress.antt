-- ===== src/Disruption/Progress.antt =====
-- What becomes of a disruption whose deadline has passed.
use node_disruption_controll.Prelude.{
  ◌<◌, true, List, ◌≡◌, ◌≢◌, ◌⊎◌, inl, inr, refl, sym, subst, arith, ap, ◌∙◌,
}
use node_disruption_controll.Api.{
  NodeDisruptionState, unknown, pending, granted, rejected, LabelSelector, DisruptedBudgetStatus,
  NodeDisruption, NodeDisruptionSpec, RetrySpec,
}
use node_disruption_controll.Api.Slice.{Slice, items, append_one}
use node_disruption_controll.Client.{Env}
use node_disruption_controll.Client.Monad.{Result, ok, Action, ◌>>=◌, >>=-ok}
use node_disruption_controll.Resolver.{get_node_from_node_selector}
use node_disruption_controll.Budget
use node_disruption_controll.Budget.{Budget}
use node_disruption_controll.Disruption.Settings.{
  Config, refused, node_disruption_reference, is_after_deadline, get_retry_date,
}
use node_disruption_controll.Disruption.Constraints.{
  validate_with_internal_constraints, deadline_reason,
}
use node_disruption_controll.Disruption.Transition.{
  decide, settle, validate, conclude, try_transition_to_granted, transition_from, sync,
  reconcile_single,
}

-- The disruption may be retried until a deadline that the clock is past at every look.
abbrev pub IsOverdue : Env → RetrySpec → Type 0
IsOverdue env retry =
    (retry.enabled ≡ true)
    × ((retry.deadline ≢ 0) × ((w : env.World) → retry.deadline < (env.now w).0))

-- Reads of nodes and of budgets succeed.
pub record Answers (env : Env) : Type 0 where
  pub nodes_answer :
      (selector : LabelSelector) (w : env.World)
      → (nodes : env.sets.Set) × ((get_node_from_node_selector env selector w).0 ≡ ok nodes)
  pub budgets_answer :
      (w : env.World)
      → (budgets : List Budget) × ((Budget.get_all_budgets_in_sync env w).0 ≡ ok budgets)

-- The result of a sequence is that of its rest.
>>=-result :
    {W A B : Type 0} (m : Action W A) (f : A → Action W B) (w : W) {a : A}
    → (m w).0 ≡ ok a
    → ((m >>= f) w).0 ≡ (f a (m w).1).0
>>=-result m f w h = ap (λ (p : Result _ × _). p.0) (>>=-ok m f w h)

-- The state after a reconciliation of an overdue disruption.
abbrev overdue_next : NodeDisruptionState → NodeDisruptionState
overdue_next unknown = pending
overdue_next pending = rejected
overdue_next granted = granted
overdue_next rejected = rejected

overdue_ends :
    (state once twice : NodeDisruptionState)
    → once ≡ overdue_next state
    → twice ≡ overdue_next once
    → ((state ≡ granted) × (twice ≡ granted)) ⊎ ((state ≢ granted) × (twice ≡ rejected))
overdue_ends unknown once twice e f = inr ((λ g. cc), f ∙ ap overdue_next e)
overdue_ends pending once twice e f = inr ((λ g. cc), f ∙ ap overdue_next e)
overdue_ends granted once twice e f = inl (refl, f ∙ ap overdue_next e)
overdue_ends rejected once twice e f = inr ((λ g. cc), f ∙ ap overdue_next e)

module _ (env : Env) (config : Config) where
  is_after_deadline-overdue :
      (retry : RetrySpec) (w : env.World)
      → IsOverdue env retry
      → (is_after_deadline env retry w).0 ≡ ok true
  unfolding is_after_deadline
  is_after_deadline-overdue retry w overdue =
      let enabled = overdue.0 in let dated = overdue.1.0 in let past = overdue.1.1 w in ground arith

  decide-overdue :
      (nd : NodeDisruption) (statuses : List DisruptedBudgetStatus) (w : env.World)
      → IsOverdue env nd.spec.retry
      → (decide env nd 0 true statuses w).0 ≡ ok (rejected, 0)
  unfolding decide
  decide-overdue nd statuses w overdue =
      let late = is_after_deadline-overdue nd.spec.retry w overdue in ground arith

  get_retry_date-overdue :
      (nd : NodeDisruption) (w : env.World)
      → IsOverdue env nd.spec.retry
      → (get_retry_date env config nd w).0 ≡ ok 0
  unfolding get_retry_date
  get_retry_date-overdue nd w overdue =
      let late = is_after_deadline-overdue nd.spec.retry w overdue in
      let enabled = overdue.0 in ground arith

  -- The refusal that the deadline adds to the statuses.
  abbrev late_statuses : NodeDisruption → Slice DisruptedBudgetStatus
  late_statuses nd =
      append_one nd.status.disrupted_disruption_budgets
        (refused (node_disruption_reference nd) (deadline_reason env nd))

  validate-overdue :
      (nd : NodeDisruption) (budgets : List Budget) (w : env.World)
      → IsOverdue env nd.spec.retry
      → (validate env config nd budgets w).0 ≡ ok (true, late_statuses nd)
  unfolding validate validate_with_internal_constraints
  validate-overdue nd budgets w overdue =
      let late = is_after_deadline-overdue nd.spec.retry w overdue in ground arith

  conclude-overdue :
      (nd : NodeDisruption) (statuses : Slice DisruptedBudgetStatus) (w : env.World)
      → IsOverdue env nd.spec.retry
      → (conclude env nd 0 (true, statuses) w).0 ≡ ok (settle env nd statuses (rejected, 0))
  unfolding conclude
  conclude-overdue nd statuses w overdue =
      >>=-result (decide env nd 0 true (items statuses)) _ w
        (decide-overdue nd (items statuses) w overdue)

  -- An overdue attempt plans no retry, fails and is rejected.
  try_transition-overdue :
      (nd : NodeDisruption) (w : env.World)
      → IsOverdue env nd.spec.retry
      → Answers env
      → (try_transition_to_granted env config nd w).0
        ≡ ok (settle env nd (late_statuses nd) (rejected, 0))
  unfolding try_transition_to_granted
  try_transition-overdue nd w overdue answers =
      let w₁ = (get_retry_date env config nd w).1 in
      let (budgets, read) = answers.budgets_answer w₁ in
      let w₂ = (Budget.get_all_budgets_in_sync env w₁).1 in
      >>=-result (get_retry_date env config nd) _ w (get_retry_date-overdue nd w overdue)
      ∙ >>=-result (Budget.get_all_budgets_in_sync env) _ w₁ read
      ∙ >>=-result (validate env config nd budgets) _ w₂ (validate-overdue nd budgets w₂ overdue)
      ∙ conclude-overdue nd (late_statuses nd) (validate env config nd budgets w₂).1 overdue

  transition_from-overdue :
      (state : NodeDisruptionState) (nd : NodeDisruption) (w : env.World)
      → nd.status.state ≡ state
      → IsOverdue env nd.spec.retry
      → Answers env
      → (nd' : NodeDisruption) × ((transition_from env state config nd w).0 ≡ ok nd')
        × (nd'.status.state ≡ overdue_next state)
        × (nd'.spec ≡ nd.spec)
  unfolding transition_from settle
  transition_from-overdue unknown nd w at overdue answers = (_, refl, refl, refl)
  transition_from-overdue pending nd w at overdue answers = (
    settle env nd (late_statuses nd) (rejected, 0),
    >>=-result (try_transition_to_granted env config nd) _ w
        (try_transition-overdue nd w overdue answers),
    refl,
    refl,
  )
  transition_from-overdue granted nd w at overdue answers = (nd, refl, at, refl)
  transition_from-overdue rejected nd w at overdue answers = (nd, refl, at, refl)

  reconcile_single-overdue :
      (nd : NodeDisruption) (w : env.World)
      → IsOverdue env nd.spec.retry
      → Answers env
      → (nd' : NodeDisruption) × ((reconcile_single env config nd w).0 ≡ ok nd')
        × (nd'.status.state ≡ overdue_next nd.status.state)
        × (nd'.spec ≡ nd.spec)
  unfolding reconcile_single sync
  reconcile_single-overdue nd w overdue answers =
      let (nodes, looked) = answers.nodes_answer nd.spec.node_selector w in
      let synced = >>=-result (get_node_from_node_selector env nd.spec.node_selector) _ w looked in
      let (nd', runs, state, spec) =
        transition_from-overdue nd.status.state _ _ refl overdue answers in
      (nd', >>=-result (sync env nd) _ w synced ∙ runs, state, spec)

  -- Two reconciliations, in any worlds, of a disruption that may be retried until a deadline that
  -- the clock is past succeed and leave it granted, where it was granted at first, and rejected
  -- otherwise, if reads of nodes and of budgets succeed.
  pub reconcile_single-ends :
      (nd : NodeDisruption) (w w' : env.World)
      → IsOverdue env nd.spec.retry
      → Answers env
      → (once : NodeDisruption) × (twice : NodeDisruption) × ((reconcile_single env config nd w).0
          ≡ ok once)
        × ((reconcile_single env config once w').0 ≡ ok twice)
        × (((nd.status.state ≡ granted) × (twice.status.state ≡ granted))
            ⊎ ((nd.status.state ≢ granted) × (twice.status.state ≡ rejected)))
  reconcile_single-ends nd w w' overdue answers =
      let (once, runs, state, spec) = reconcile_single-overdue nd w overdue answers in
      let (twice, runs', state', spec') =
        reconcile_single-overdue once w'
          (subst (λ (sp : NodeDisruptionSpec). IsOverdue env sp.retry) (sym spec) overdue)
          answers in
      (
        once,
        twice,
        runs,
        runs',
        overdue_ends nd.status.state once.status.state twice.status.state state state',
      )
