-- ===== src/Disruption/Decisions.antt =====
-- The choice of the new state at the end of an attempt.
use node_disruption_controll.Prelude.{
  ℕ, ◌≤◌, Bool, true, false, List, ◌≡◌, ◌⊎◌, refl, arith, any, ◌==◌, Bool-cases, inl, inr,
}
use node_disruption_controll.Api.{granted, rejected, DisruptedBudgetStatus, NodeDisruption}
use node_disruption_controll.Client.{Env}
use node_disruption_controll.Client.Monad.{ok}
use node_disruption_controll.Disruption.Settings.{is_after_deadline}
use node_disruption_controll.Disruption.Transition.{decide}

module _ (env : Env) (nd : NodeDisruption) where
  -- An attempt ends in a rejection only if a check has failed, no retry is planned, and either no
  -- status is preparing or the deadline has passed at that look at the clock.
  decide-rejected :
      (next : ℕ) (failed : Bool) (statuses : List DisruptedBudgetStatus) (w : env.World)
      {chosen : ℕ} {w' : env.World}
      → decide env nd next failed statuses w ≡ (ok (rejected, chosen), w')
      → (failed ≡ true)
        × (next ≡ 0)
        × ((any (λ (s : DisruptedBudgetStatus). s.preparing) statuses ≡ false)
            ⊎ (is_after_deadline env nd.spec.retry w ≡ (ok true, w')))
  unfolding decide
  decide-rejected next true statuses w h =
      elim (Bool-cases (any (λ (s : DisruptedBudgetStatus). s.preparing) statuses)) [
        | inl preparing ↦ (refl, ground arith, inr (ground arith))
        | inr idle ↦ (refl, ground arith, inl idle)
      ]
  decide-rejected next false statuses w h = ground arith

  -- An attempt ends in a grant only if no check has failed and, where there is a date before which
  -- not to grant, the clock has reached it.
  decide-granted :
      (next : ℕ) (failed : Bool) (statuses : List DisruptedBudgetStatus) (w : env.World)
      {chosen : ℕ} {w' : env.World}
      → decide env nd next failed statuses w ≡ (ok (granted, chosen), w')
      → (failed ≡ false)
        × ((nd.spec.do_not_grant_before ≡ 0) ⊎ (nd.spec.do_not_grant_before ≤ (env.now w).0))
  unfolding decide
  decide-granted next true statuses w h = ground arith
  decide-granted next false statuses w h = elim (Bool-cases (nd.spec.do_not_grant_before == 0)) [
    | inl any_time ↦ (refl, inl (ground arith))
    | inr dated ↦ (refl, inr (ground arith))
  ]
