-- ===== src/Disruption/Hooks.antt =====
-- The life of a budget's status through the hooks of its application manager.
use node_disruption_controll.Prelude.{true, false, ◌≡◌, arith}
use node_disruption_controll.Api.{NodeDisruption, DisruptedBudgetStatus}
use node_disruption_controll.Metrics.{disruption_budget_granted_total}
use node_disruption_controll.Client.{Env}
use node_disruption_controll.Client.Monad.{ok}
use node_disruption_controll.Budget
use node_disruption_controll.Budget.{Budget}
use node_disruption_controll.Disruption.Settings.{Config}
use node_disruption_controll.Disruption.Validation.{count_budget, v2_hook_check, legacy_hook_check}

-- A status that the second hooks keep: an application that is ready has been prepared.
pub record IsPrepared (st : DisruptedBudgetStatus) : Type 0 where
  pub prepared : st.ok ≡ true → st.preparing ≡ true

module _ (env : Env) (config : Config) (nd : NodeDisruption) (b : Budget) where
  -- A status that `v2HookCheck` gives, from any current status, is preparing whenever it is an
  -- approval.
  v2_hook_check-IsPrepared :
      (current : DisruptedBudgetStatus) (w : env.World) {st : DisruptedBudgetStatus}
      {w' : env.World}
      → v2_hook_check env config nd b current w ≡ (ok st, w')
      → IsPrepared st
  unfolding v2_hook_check
  v2_hook_check-IsPrepared current w h = record { prepared = ground arith }

  -- If the current status is preparing whenever it is an approval, an approval by `v2HookCheck`
  -- means that the current status was preparing and that the ready hook has just succeeded, and
  -- after the hook the world has changed only by the count of the approval.
  pub v2_hook_check-approved :
      (current : DisruptedBudgetStatus) (w : env.World) {st : DisruptedBudgetStatus}
      {w' : env.World}
      → IsPrepared current
      → v2_hook_check env config nd b current w ≡ (ok st, w')
      → st.ok ≡ true
      → (current.preparing ≡ true)
        × ((after : env.World) × (Budget.call_ready_hook env b nd config.health_hook_timeout w
              ≡ (ok tt, after))
            × (w'
                ≡ count_budget env disruption_budget_granted_total
                    (Budget.get_namespaced_name b)
                    nd
                    after))
  unfolding v2_hook_check
  v2_hook_check-approved current w p h a =
      let prepared = p.prepared in
      (
        ground arith,
        (
          (Budget.call_ready_hook env b nd config.health_hook_timeout w).1,
          ground arith,
          ground arith,
        ),
      )

  -- A status that is approved and not being prepared, such as the older hook leaves, is approved
  -- once more and no hook is called: all that happens is that the approval is counted.
  v2_hook_check-unprepared :
      (current : DisruptedBudgetStatus) (w : env.World)
      → current.ok ≡ true
      → current.preparing ≡ false
      → let ref = Budget.get_namespaced_name b in
        v2_hook_check env config nd b current w ≡ (
          ok (record { reference = ref; reason = ""; preparing = true; ok = true }),
          count_budget env disruption_budget_granted_total ref nd w,
        )
  unfolding v2_hook_check
  v2_hook_check-unprepared current w o p = ground arith

  -- An approval by `legacyHookCheck`, handed to `v2HookCheck` in any later world, is approved
  -- again, and all that happens is that the approval is counted: no hook is called.
  pub legacy-v2_hook_check :
      (w : env.World) {st : DisruptedBudgetStatus} {w' : env.World} (later : env.World)
      → legacy_hook_check env config nd b w ≡ (ok st, w')
      → st.ok ≡ true
      → let ref = Budget.get_namespaced_name b in
        v2_hook_check env config nd b st later ≡ (
          ok (record { reference = ref; reason = ""; preparing = true; ok = true }),
          count_budget env disruption_budget_granted_total ref nd later,
        )
  unfolding legacy_hook_check
  legacy-v2_hook_check w {st = st} later h a = v2_hook_check-unprepared st later a (ground arith)
