-- ===== src/Disruption/Waiting.antt =====
-- Which disruptions are left pending, and until when.
use node_disruption_controll.Prelude.{
  ℕ, zero, suc, Bool, true, false, List, ◌≡◌, ◌≢◌, ◌⊎◌, inl, inr, refl, sym, subst, ap, ◌∙◌, arith,
  any,
}
use node_disruption_controll.Api.{pending, DisruptedBudgetStatus, NodeDisruption}
use node_disruption_controll.Api.Slice.{Slice, items}
use node_disruption_controll.Client.{Env}
use node_disruption_controll.Client.Monad.{Result, ok, >>=-eq-ok}
use node_disruption_controll.Budget
use node_disruption_controll.Disruption.Settings.{Config, get_retry_date}
use node_disruption_controll.Disruption.Transition.{
  decide, settle, try_transition_state, validate, conclude, transition_from,
  try_transition_to_granted, sync, reconcile_single,
}
use node_disruption_controll.Disruption.States.{sync-keeps}

-- Some status is of an application in preparation.
abbrev pub is_preparing : List DisruptedBudgetStatus → Bool
is_preparing statuses = any (λ (s : DisruptedBudgetStatus). s.preparing) statuses

zero-cases : (n : ℕ) → (n ≡ 0) ⊎ (n ≢ 0)
zero-cases zero = inl refl
zero-cases (suc n) = inr (λ e. omega (arith, e))

module _ (env : Env) (config : Config) where
  result_disruption :
      {a b : NodeDisruption} {w w' : env.World}
      → ◌≡◌ {A = Result NodeDisruption × env.World} (ok a, w) (ok b, w')
      → a ≡ b
  result_disruption h = ground arith

  decide-undated :
      (nd : NodeDisruption) (next : ℕ) (failed : Bool) (statuses : List DisruptedBudgetStatus)
      (w : env.World) {w' : env.World}
      → decide env nd next failed statuses w ≡ (ok (pending, 0), w')
      → is_preparing statuses ≡ true
  unfolding decide
  decide-undated nd next true statuses w h = ground arith
  decide-undated nd next false statuses w h = ground arith

  conclude-undated :
      (nd : NodeDisruption) (next : ℕ) (checked : Bool × Slice DisruptedBudgetStatus)
      (w : env.World) {nd' : NodeDisruption} {w' : env.World}
      → conclude env nd next checked w ≡ (ok nd', w')
      → nd'.status.state ≡ pending
      → nd'.status.next_retry_date ≡ 0
      → is_preparing (items nd'.status.disrupted_disruption_budgets) ≡ true
  unfolding conclude settle
  conclude-undated nd next (failed, statuses) w {nd' = nd'} h at undated =
      let (chosen, w₁, decided, rest) =
        >>=-eq-ok (decide env nd next failed (items statuses)) _ w h in
      let stored = result_disruption rest in
      let same_state = ap (λ (x : NodeDisruption). x.status.state) stored ∙ at in
      let same_date = ap (λ (x : NodeDisruption). x.status.next_retry_date) stored ∙ undated in
      ap (λ (x : NodeDisruption). is_preparing (items x.status.disrupted_disruption_budgets))
        (sym stored)
      ∙ decide-undated nd next failed (items statuses) w
          (decided ∙ λ i. (ok (same_state i, same_date i), w₁))

  try_transition-undated :
      (nd : NodeDisruption) (w : env.World) {nd' : NodeDisruption} {w' : env.World}
      → try_transition_to_granted env config nd w ≡ (ok nd', w')
      → nd'.status.state ≡ pending
      → nd'.status.next_retry_date ≡ 0
      → is_preparing (items nd'.status.disrupted_disruption_budgets) ≡ true
  unfolding try_transition_to_granted
  try_transition-undated nd w h at undated =
      let (next, w₁, dated, h₁) = >>=-eq-ok (get_retry_date env config nd) _ w h in
      let (budgets, w₂, listed, h₂) = >>=-eq-ok (Budget.get_all_budgets_in_sync env) _ w₁ h₁ in
      let (checked, w₃, valid, h₃) = >>=-eq-ok (validate env config nd budgets) _ w₂ h₂ in
      conclude-undated nd next checked w₃ h₃ at undated

  transition_from-undated :
      (nd : NodeDisruption) (w : env.World) {nd' : NodeDisruption} {w' : env.World}
      → transition_from env pending config nd w ≡ (ok nd', w')
      → nd'.status.state ≡ pending
      → nd'.status.next_retry_date ≡ 0
      → is_preparing (items nd'.status.disrupted_disruption_budgets) ≡ true
  unfolding transition_from
  transition_from-undated nd w h at undated =
      let (decided, between, made, rest) =
        >>=-eq-ok (try_transition_to_granted env config nd) _ w h in
      let stored = result_disruption rest in
      ap (λ (x : NodeDisruption). is_preparing (items x.status.disrupted_disruption_budgets))
        (sym stored)
      ∙ try_transition-undated nd w made (ap (λ (x : NodeDisruption). x.status.state) stored ∙ at)
          (ap (λ (x : NodeDisruption). x.status.next_retry_date) stored ∙ undated)

  -- If a reconciliation of a pending disruption leaves it pending, it has a date for the next attempt,
  -- or the status of some budget says that its application is in preparation.
  pub reconcile_single-waits :
      (nd : NodeDisruption) (w : env.World) {nd' : NodeDisruption} {w' : env.World}
      → reconcile_single env config nd w ≡ (ok nd', w')
      → nd.status.state ≡ pending
      → nd'.status.state ≡ pending
      → (nd'.status.next_retry_date ≢ 0)
        ⊎ (is_preparing (items nd'.status.disrupted_disruption_budgets) ≡ true)
  unfolding reconcile_single try_transition_state
  reconcile_single-waits nd w {nd' = nd'} {w' = w'} h was at =
      let (synced, w₁, looked, h₁) = >>=-eq-ok (sync env nd) _ w h in
      let from_pending =
        subst (λ s. transition_from env s config synced w₁ ≡ (ok nd', w'))
          ((sync-keeps env config nd w looked).0 ∙ was) h₁ in
      elim (zero-cases nd'.status.next_retry_date) [
        | inl undated ↦ inr (transition_from-undated synced w₁ from_pending at undated)
        | inr dated ↦ inl dated
      ]
