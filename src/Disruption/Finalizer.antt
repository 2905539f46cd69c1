-- ===== src/Disruption/Finalizer.antt =====
-- `handleFinalizer` and the terminations that it waits for
-- (internal/controller/nodedisruption_controller.go).
use node_disruption_controll.Prelude.{
  Bool, true, false, ◌||◌, ◌⊎◌, inl, inr, refl, List, [], ◌∷◌, ◌≡◌, String, ap, ◌∙◌, arith, any,
  ◌==◌, if◌then◌else◌,
}
use node_disruption_controll.Api.{DisruptedBudgetStatus, NodeDisruption}
use node_disruption_controll.Api.Slice.{items}
use node_disruption_controll.Client.{Env}
use node_disruption_controll.Client.Monad.{failure, Result, ok, err, >>=-eq-ok, >>=-ok}
use node_disruption_controll.Disruption.Settings.{finalizer_name}
use node_disruption_controll.Disruption.Termination.{
  terminate_status, terminate_statuses, terminate_all_impacted_budgets, drop_finalizer,
  handle_finalizer,
}

module _ (env : Env) (nd : NodeDisruption) where
  -- Whether one status has failed; an action that fails counts as a failure.
  abbrev has_failed : Result Bool → Bool
  has_failed (ok failed) = failed
  has_failed (err e) = true

  -- The outcome of each status, one after the other.
  unfoldable pub outcomes : List DisruptedBudgetStatus → env.World → List Bool × env.World
  outcomes [] w = ([], w)
  outcomes (st ∷ sts) w =
      let (r, w₁) = terminate_status env nd st w in
      let (rest, w₂) = outcomes sts w₁ in (has_failed r ∷ rest, w₂)

  -- The outcome of one status is a Boolean whatever the calls answer.
  terminate_status-total :
      (st : DisruptedBudgetStatus) (w : env.World)
      → (terminate_status env nd st w).0 ≡ ok (has_failed (terminate_status env nd st w).0)
  unfolding terminate_status
  terminate_status-total st w = ground arith

  terminate_statuses-outcomes :
      (sts : List DisruptedBudgetStatus) (failed : Bool) (w : env.World)
      → terminate_statuses env nd sts failed w
        ≡ (ok (failed || any (λ f. f) (outcomes sts w).0), (outcomes sts w).1)
  unfolding terminate_statuses outcomes
  terminate_statuses-outcomes [] failed w = ground arith
  terminate_statuses-outcomes (st ∷ sts) failed w =
      let failed' = has_failed (terminate_status env nd st w).0 in
      >>=-ok (terminate_status env nd st) (λ f. terminate_statuses env nd sts (failed || f)) w
        (terminate_status-total st w)
      ∙ terminate_statuses-outcomes sts (failed || failed') (terminate_status env nd st w).1
      ∙ ground arith

  -- `terminateAllImpactedBudgets` handles every status in turn, also after a failure, leaves the
  -- world that the last one leaves, and fails if and only if one of them has failed.
  pub terminate_all-outcomes :
      (w : env.World)
      → let (failed, after) = outcomes (items nd.status.disrupted_disruption_budgets) w in
        terminate_all_impacted_budgets env nd w ≡ (
          if any (λ f. f) failed then err (failure "failed to terminate all budgets") else ok tt,
          after,
        )
  unfolding terminate_all_impacted_budgets
  terminate_all-outcomes w =
      ground
        (arith, terminate_statuses-outcomes (items nd.status.disrupted_disruption_budgets) false w)

  all_succeeded :
      (w : env.World) {u : Unit {0}} {w' : env.World}
      → terminate_all_impacted_budgets env nd w ≡ (ok u, w')
      → let (failed, after) = outcomes (items nd.status.disrupted_disruption_budgets) w in
        (any (λ f. f) failed ≡ false) × (after ≡ w')
  all_succeeded w h = ground (arith, terminate_all-outcomes w)

  -- The finalizer's removal ends in one write of the disruption with the finalizers that are left,
  -- where there was one to remove, or else changes nothing; the reconciliation does not go on.
  abbrev pub IsRemoved : List String × Bool → env.World → env.World → Type 0
  IsRemoved (left, removed) after w' =
      ((removed ≡ true)
        × (stored : NodeDisruption) × (env.update_node_disruption
              (record nd { meta = record (nd.meta) { finalizers = left } }) after
            ≡ (ok stored, w')))
      ⊎ ((removed ≡ false) × (w' ≡ after))

  drop_finalizer-IsRemoved :
      (removal : List String × Bool) (w : env.World) {b : Bool} {w' : env.World}
      → drop_finalizer env nd removal w ≡ (ok b, w')
      → (b ≡ false) × IsRemoved removal w w'
  unfolding drop_finalizer
  drop_finalizer-IsRemoved (left, false) w h = (ground arith, inr (refl, ground arith))
  drop_finalizer-IsRemoved (left, true) w h =
      let (stored, between, written, rest) =
        >>=-eq-ok
          (env.update_node_disruption (record nd { meta = record (nd.meta) { finalizers = left } }))
          _ w h in
      (ground arith, inl (refl, stored, written ∙ ground arith))

  -- On a disruption that is being deleted and has the finalizer, if the termination for some
  -- status fails, `handleFinalizer` fails in the world that the terminations have left: it writes
  -- nothing after them.
  handle_finalizer-failed :
      (w : env.World)
      → (nd.meta.deletion_timestamp == 0) ≡ false
      → env.contains_finalizer nd.meta.finalizers finalizer_name ≡ true
      → any (λ f. f) (outcomes (items nd.status.disrupted_disruption_budgets) w).0 ≡ true
      → handle_finalizer env nd w ≡ (
        err (failure "failed to terminate all budgets"),
        (outcomes (items nd.status.disrupted_disruption_budgets) w).1,
      )
  unfolding handle_finalizer
  handle_finalizer-failed w d c f = ground (arith, terminate_all-outcomes w)

  -- If `handleFinalizer` lets the reconciliation go on, the disruption is not being deleted and
  -- has the finalizer, and the world is unchanged.
  pub handle_finalizer-continues :
      (w : env.World) {w' : env.World}
      → handle_finalizer env nd w ≡ (ok true, w')
      → ((nd.meta.deletion_timestamp == 0) ≡ true)
        × (env.contains_finalizer nd.meta.finalizers finalizer_name ≡ true)
        × (w' ≡ w)
  unfolding handle_finalizer drop_finalizer
  handle_finalizer-continues w h = ground arith

  -- If `handleFinalizer` succeeds on a disruption that is being deleted and has the finalizer, the
  -- reconciliation does not go on and none of the terminations has failed. Where the helper that
  -- takes the finalizer off the list has removed one, the disruption with the finalizers that are
  -- left has been written, successfully, in the world that the terminations have left, and nothing
  -- follows; where it has removed none, nothing follows the terminations.
  pub handle_finalizer-dropped :
      (w : env.World) {continues : Bool} {w' : env.World}
      → (nd.meta.deletion_timestamp == 0) ≡ false
      → env.contains_finalizer nd.meta.finalizers finalizer_name ≡ true
      → handle_finalizer env nd w ≡ (ok continues, w')
      → let (failed, after) = outcomes (items nd.status.disrupted_disruption_budgets) w in
        (continues ≡ false)
        × (any (λ f. f) failed ≡ false)
        × IsRemoved (env.remove_finalizer nd.meta.finalizers finalizer_name) after w'
  unfolding handle_finalizer
  handle_finalizer-dropped w {continues = continues} {w' = w'} d c h =
      let removal = env.remove_finalizer nd.meta.finalizers finalizer_name in
      let (u, between, done, rest) =
        >>=-eq-ok (terminate_all_impacted_budgets env nd) (λ u. drop_finalizer env nd removal) w
          {b = continues} {w' = w'} (ground arith) in
      let (succeeded, same) = all_succeeded w done in
      let (stops, removed) =
        drop_finalizer-IsRemoved removal
          (outcomes (items nd.status.disrupted_disruption_budgets) w).1
          (ap (drop_finalizer env nd removal) same ∙ rest) in
      (stops, succeeded, removed)
