-- ===== src/Disruption/Approval.antt =====
-- When an attempt to grant a disruption does grant it.
use node_disruption_controll.Prelude.{
  ℕ, ◌≤◌, true, false, not, List, [], ◌∷◌, ◌≡◌, ◌⊎◌, inl, inr, refl, arith, any, all, ap, ◌∙◌,
}
use node_disruption_controll.Api.{granted, DisruptedBudgetStatus, NodeDisruption}
use node_disruption_controll.Api.Slice.{Slice, items}
use node_disruption_controll.NodeSet.{new_node_set_from_string_list}
use node_disruption_controll.Client.{Env}
use node_disruption_controll.Client.Monad.{Result, ok, >>=-step, >>=-ok}
use node_disruption_controll.Budget
use node_disruption_controll.Budget.{Budget}
use node_disruption_controll.Disruption.Settings.{Config, get_retry_date}
use node_disruption_controll.Disruption.Constraints.{validate_with_internal_constraints}
use node_disruption_controll.Disruption.Validation.{
  impacted, select_budgets, check_budgets, slice_of, judge_selection,
  validate_with_budget_constraints,
}
use node_disruption_controll.Disruption.Answers.{items-slice_of}
use node_disruption_controll.Disruption.Transition.{
  decide, settle, validate, conclude, try_transition_to_granted,
}

any-not_of_all :
    (statuses : List DisruptedBudgetStatus)
    → all (λ (s : DisruptedBudgetStatus). s.ok) statuses ≡ true
    → any (λ (s : DisruptedBudgetStatus). not s.ok) statuses ≡ false
any-not_of_all [] h = refl
any-not_of_all (s ∷ ss) h = ground (arith, any-not_of_all ss)

module _ (env : Env) (config : Config) (nd : NodeDisruption) where
  budgets-approve :
      (budgets bs : List Budget) (current statuses : List DisruptedBudgetStatus) (w w' : env.World)
      → select_budgets env nd
          (new_node_set_from_string_list env.sets (items nd.status.disrupted_nodes))
          budgets
        ≡ impacted bs
      → check_budgets env config nd current bs w ≡ (ok statuses, w')
      → all (λ (s : DisruptedBudgetStatus). s.ok) statuses ≡ true
      → validate_with_budget_constraints env config nd budgets current w
        ≡ (ok (false, slice_of statuses), w')
  unfolding validate_with_budget_constraints judge_selection
  budgets-approve budgets bs current statuses w w' selected answered approved =
      ap (λ s. judge_selection env config nd current s w) selected
      ∙ >>=-step (check_budgets env config nd current bs) _ w answered
      ∙ ap (λ b. (ok (b, slice_of statuses), w')) (any-not_of_all statuses approved)

  -- Nothing failed, and the date has come.
  decide-grants :
      (next : ℕ) (statuses : List DisruptedBudgetStatus) (w : env.World)
      → (nd.spec.do_not_grant_before ≡ 0) ⊎ (nd.spec.do_not_grant_before ≤ (env.now w).0)
      → (decide env nd next false statuses w).0 ≡ ok (granted, next)
  unfolding decide
  decide-grants next statuses w (inl none) = ground arith
  decide-grants next statuses w (inr come) = ground arith

  conclude-grants :
      (next : ℕ) (statuses : List DisruptedBudgetStatus) (w : env.World)
      → (nd.spec.do_not_grant_before ≡ 0) ⊎ (nd.spec.do_not_grant_before ≤ (env.now w).0)
      → (conclude env nd next (false, slice_of statuses) w).0
        ≡ ok (settle env nd (slice_of statuses) (granted, next))
  unfolding conclude
  conclude-grants next statuses w come =
      ap (λ (r : Result NodeDisruption × env.World). r.0)
        (>>=-ok (decide env nd next false (items (slice_of statuses))) _ w
          (decide-grants next (items (slice_of statuses)) w come))

  -- If the budgets are read, the internal constraints hold, no budget blocks the disruption, every
  -- budget that is selected answers with an approval, and the date before which not to grant has
  -- come, then `tryTransitionToGranted` succeeds, the disruption is granted, and the approvals are
  -- its statuses.
  pub try_transition_to_granted-approved :
      (w w₁ w₂ w₃ w₄ : env.World) (next : ℕ) (budgets bs : List Budget)
      (constraints : Slice DisruptedBudgetStatus) (statuses : List DisruptedBudgetStatus)
      → get_retry_date env config nd w ≡ (ok next, w₁)
      → Budget.get_all_budgets_in_sync env w₁ ≡ (ok budgets, w₂)
      → validate_with_internal_constraints env config nd w₂ ≡ (ok (false, constraints), w₃)
      → select_budgets env nd
          (new_node_set_from_string_list env.sets (items nd.status.disrupted_nodes))
          budgets
        ≡ impacted bs
      → check_budgets env config nd (items nd.status.disrupted_disruption_budgets) bs w₃
        ≡ (ok statuses, w₄)
      → all (λ (s : DisruptedBudgetStatus). s.ok) statuses ≡ true
      → (nd.spec.do_not_grant_before ≡ 0) ⊎ (nd.spec.do_not_grant_before ≤ (env.now w₄).0)
      → (nd' : NodeDisruption) × ((try_transition_to_granted env config nd w).0 ≡ ok nd')
        × (nd'.status.state ≡ granted)
        × (items nd'.status.disrupted_disruption_budgets ≡ statuses)
  unfolding try_transition_to_granted validate settle
  try_transition_to_granted-approved w w₁ w₂ w₃ w₄ next budgets bs constraints statuses dated read
        held selected answered approved come =
      let current = items nd.status.disrupted_disruption_budgets in
      let checked =
        >>=-step (validate_with_internal_constraints env config nd) _ w₂ held
        ∙ budgets-approve budgets bs current statuses w₃ w₄ selected answered approved in
      let runs =
        >>=-step (get_retry_date env config nd) _ w dated
        ∙ >>=-step (Budget.get_all_budgets_in_sync env) _ w₁ read
        ∙ >>=-step (validate env config nd budgets) _ w₂ checked in
      (
        settle env nd (slice_of statuses) (granted, next),
        ap (λ (r : Result NodeDisruption × env.World). r.0) runs
            ∙ conclude-grants next statuses w₄ come,
        refl,
        items-slice_of statuses,
      )
