-- ===== src/Disruption/Answers.antt =====
-- The second half of `ValidateWithBudgetConstraints`: one status for each budget that was selected, and
-- what it takes for none of them to fail.
use node_disruption_controll.Prelude.{
  true, false, not, List, [], ◌∷◌, ◌≡◌, refl, arith, any, all, map,
}
use node_disruption_controll.Api.{DisruptedBudgetStatus, NodeDisruption}
use node_disruption_controll.Api.Slice.{Slice, items}
use node_disruption_controll.Client.{Env}
use node_disruption_controll.Client.Monad.{ok, >>=-eq-ok}
use node_disruption_controll.Budget
use node_disruption_controll.Budget.{Budget}
use node_disruption_controll.Disruption.Settings.{Config}
use node_disruption_controll.Disruption.Validation.{
  check_budget, check_budgets, slice_of, Selection, blocked, impacted, judge_selection,
}

all-of_any-not :
    (statuses : List DisruptedBudgetStatus)
    → any (λ (s : DisruptedBudgetStatus). not s.ok) statuses ≡ false
    → all (λ (s : DisruptedBudgetStatus). s.ok) statuses ≡ true
all-of_any-not [] h = refl
all-of_any-not (s ∷ ss) h = ground (arith, all-of_any-not ss)

pub items-slice_of : {A : Type 0} (xs : List A) → items (slice_of xs) ≡ xs
items-slice_of [] = refl
items-slice_of (x ∷ xs) = refl

module _ (env : Env) (config : Config) (nd : NodeDisruption) where
  -- Whatever the hooks answer, the status names the budget.
  check_budget-reference :
      (current : List DisruptedBudgetStatus) (b : Budget) (w : env.World)
      {st : DisruptedBudgetStatus} {w' : env.World}
      → check_budget env config nd current b w ≡ (ok st, w')
      → st.reference ≡ Budget.get_namespaced_name b
  unfolding check_budget
  check_budget-reference current b w h = ground arith

  -- One status for each budget, in their order.
  check_budgets-references :
      (current : List DisruptedBudgetStatus) (bs : List Budget) (w : env.World)
      {sts : List DisruptedBudgetStatus} {w' : env.World}
      → check_budgets env config nd current bs w ≡ (ok sts, w')
      → map (λ (st : DisruptedBudgetStatus). st.reference) sts ≡ map Budget.get_namespaced_name bs
  unfolding check_budgets
  check_budgets-references current [] w h = ground arith
  check_budgets-references current (b ∷ bs) w h =
      let (st, w₁, first, k) = >>=-eq-ok (check_budget env config nd current b) _ w h in
      let (sts, w₂, others, e) = >>=-eq-ok (check_budgets env config nd current bs) _ w₁ k in
      ground (
        arith,
        check_budget-reference current b w first,
        check_budgets-references current bs w₁ others,
      )

  -- A selection that does not fail has selected budgets, and every one of them has approved.
  pub judge_selection-approved :
      (current : List DisruptedBudgetStatus) (s : Selection) (w : env.World)
      {statuses : Slice DisruptedBudgetStatus} {w' : env.World}
      → judge_selection env config nd current s w ≡ (ok (false, statuses), w')
      → (bs : List Budget) × (s ≡ impacted bs)
        × (all (λ (st : DisruptedBudgetStatus). st.ok) (items statuses) ≡ true)
        × (map (λ (st : DisruptedBudgetStatus). st.reference) (items statuses)
            ≡ map Budget.get_namespaced_name bs)
  unfolding judge_selection
  judge_selection-approved current (blocked b) w h = ground arith
  judge_selection-approved current (impacted bs) w h =
      let (sts, w₁, checked, e) = >>=-eq-ok (check_budgets env config nd current bs) _ w h in
      (
        bs,
        refl,
        ground (arith, items-slice_of sts, all-of_any-not sts),
        ground (arith, items-slice_of sts, check_budgets-references current bs w checked),
      )
