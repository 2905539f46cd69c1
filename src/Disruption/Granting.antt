-- ===== src/Disruption/Granting.antt =====
-- What has held when a disruption is granted.
use node_disruption_controll.Prelude.{
  ℕ, Bool, true, false, not, List, ◌≡◌, ◌∙◌, ap, subst, arith, all, map, keep_if,
}
use node_disruption_controll.Api.{granted, DisruptedBudgetStatus, NodeDisruption}
use node_disruption_controll.Api.Slice.{Slice, items}
use node_disruption_controll.NodeSet.{new_node_set_from_string_list}
use node_disruption_controll.Client.{Env}
use node_disruption_controll.Client.Monad.{ok, >>=-eq-ok}
use node_disruption_controll.Budget
use node_disruption_controll.Budget.{Budget}
use node_disruption_controll.Disruption.Settings.{Config, get_retry_date}
use node_disruption_controll.Disruption.Constraints.{validate_with_internal_constraints}
use node_disruption_controll.Disruption.Validation.{
  select_budgets, validate_with_budget_constraints,
}
use node_disruption_controll.Disruption.Selection.{concerns, refuses, impacted-all}
use node_disruption_controll.Disruption.Answers.{judge_selection-approved}
use node_disruption_controll.Disruption.Transition.{validate, conclude, try_transition_to_granted}

module _ (env : Env) (config : Config) (nd : NodeDisruption) where
  abbrev disrupted_set : env.sets.Set
  disrupted_set = new_node_set_from_string_list env.sets (items nd.status.disrupted_nodes)

  -- All that stands behind a grant whose statuses are given: the disruption's own constraints held,
  -- no budget that was read refuses, and each budget concerned has its approval in the statuses.
  pub record IsGrounded (statuses : List DisruptedBudgetStatus) : Type 0 where
    pub budgets : List Budget
    pub before_read : env.World
    pub after_read : env.World
    pub budgets_read : Budget.get_all_budgets_in_sync env before_read ≡ (ok budgets, after_read)
    pub constraints : Slice DisruptedBudgetStatus
    pub after_check : env.World
    pub constraints_hold :
        validate_with_internal_constraints env config nd after_read
        ≡ (ok (false, constraints), after_check)
    pub none_refuses : all (λ b. not (refuses env nd disrupted_set b)) budgets ≡ true
    pub all_approve : all (λ (st : DisruptedBudgetStatus). st.ok) statuses ≡ true
    pub one_for_each :
        map (λ (st : DisruptedBudgetStatus). st.reference) statuses
        ≡ map Budget.get_namespaced_name (keep_if (concerns env nd disrupted_set) budgets)

  -- A check that failed is never followed by a grant, and the statuses are those of the check.
  conclude-granted :
      (next : ℕ) (checked : Bool × Slice DisruptedBudgetStatus) (w : env.World)
      {nd' : NodeDisruption} {w' : env.World}
      → conclude env nd next checked w ≡ (ok nd', w')
      → nd'.status.state ≡ granted
      → (checked.0 ≡ false) × (checked.1 ≡ nd'.status.disrupted_disruption_budgets)
  unfolding conclude
  conclude-granted next (true, statuses) w h g = ground arith
  conclude-granted next (false, statuses) w h g = ground arith

  -- Where the budgets pass, the selection and the approvals are there.
  budgets-IsGrounded :
      (budgets : List Budget) (w₁ w₂ w₃ : env.World) (constraints : Slice DisruptedBudgetStatus)
      {statuses : Slice DisruptedBudgetStatus} {w₄ : env.World}
      → Budget.get_all_budgets_in_sync env w₁ ≡ (ok budgets, w₂)
      → validate_with_internal_constraints env config nd w₂ ≡ (ok (false, constraints), w₃)
      → validate_with_budget_constraints env config nd budgets
          (items nd.status.disrupted_disruption_budgets)
          w₃
        ≡ (ok (false, statuses), w₄)
      → IsGrounded (items statuses)
  unfolding validate_with_budget_constraints
  budgets-IsGrounded budgets w₁ w₂ w₃ constraints listed held h =
      let (selected, chosen, approved, named) =
        judge_selection-approved env config nd (items nd.status.disrupted_disruption_budgets)
          (select_budgets env nd disrupted_set budgets) w₃ h in
      let (none_refuses, concerned) = impacted-all env nd disrupted_set budgets selected chosen in
      record {
        budgets = budgets;
        before_read = w₁;
        after_read = w₂;
        budgets_read = listed;
        constraints = constraints;
        after_check = w₃;
        constraints_hold = held;
        none_refuses = none_refuses;
        all_approve = approved;
        one_for_each = named ∙ ap (map Budget.get_namespaced_name) concerned;
      }

  -- A validation that passes has passed both parts.
  validate-IsGrounded :
      (budgets : List Budget) (w₁ w₂ : env.World) (checked : Bool × Slice DisruptedBudgetStatus)
      {w₃ : env.World}
      → Budget.get_all_budgets_in_sync env w₁ ≡ (ok budgets, w₂)
      → validate env config nd budgets w₂ ≡ (ok checked, w₃)
      → checked.0 ≡ false
      → IsGrounded (items checked.1)
  unfolding validate
  validate-IsGrounded budgets w₁ w₂ checked {w₃ = w₃} listed h passed =
      let (internal, between, held, rest) =
        >>=-eq-ok (validate_with_internal_constraints env config nd) _ w₂ h in
      budgets-IsGrounded budgets w₁ w₂ between internal.1 {statuses = checked.1} {w₄ = w₃} listed
        (ground arith) (ground arith)

  -- If `tryTransitionToGranted` ends without an error in the state granted, the statuses that it
  -- stores are grounded: the budgets of the cluster were read, the internal constraints held right
  -- after that, no budget read that is concerned lacks room for the disruption, every status
  -- stored is an approval, and there is one for each budget concerned, in their order.
  pub try_transition_to_granted-IsGrounded :
      (w : env.World) {nd' : NodeDisruption} {w' : env.World}
      → try_transition_to_granted env config nd w ≡ (ok nd', w')
      → nd'.status.state ≡ granted
      → IsGrounded (items nd'.status.disrupted_disruption_budgets)
  unfolding try_transition_to_granted
  try_transition_to_granted-IsGrounded w h g =
      let (next, w₁, dated, h₁) = >>=-eq-ok (get_retry_date env config nd) _ w h in
      let (budgets, w₂, listed, h₂) = >>=-eq-ok (Budget.get_all_budgets_in_sync env) _ w₁ h₁ in
      let (checked, w₃, valid, h₃) = >>=-eq-ok (validate env config nd budgets) _ w₂ h₂ in
      let (passed, kept) = conclude-granted next checked w₃ h₃ g in
      subst (λ s. IsGrounded (items s)) kept
        (validate-IsGrounded budgets w₁ w₂ checked listed valid passed)
