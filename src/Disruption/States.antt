-- ===== src/Disruption/States.antt =====
-- The state machine of a disruption, over any number of reconciliations. Between them anything may
-- happen to the cluster, and the spec and the metadata may be edited.
use node_disruption_controll.Prelude.{ℕ, Bool, true, false, ◌≡◌, refl, arith, ◌∙◌, sym, subst}
use node_disruption_controll.Api.{
  NodeDisruptionState, unknown, pending, granted, rejected, NodeDisruption, NodeDisruptionSpec,
  ObjectMeta, DisruptedBudgetStatus,
}
use node_disruption_controll.Api.Slice.{Slice}
use node_disruption_controll.Client.{Env}
use node_disruption_controll.Client.Monad.{Result, ok, >>=-eq-ok}
use node_disruption_controll.Budget
use node_disruption_controll.Disruption.Settings.{Config, get_retry_date}
use node_disruption_controll.Disruption.Transition.{
  validate, conclude, transition_from, try_transition_to_granted, sync, reconcile_single,
}

-- The arrows of the diagram in README.md.
pub data Step : NodeDisruptionState → NodeDisruptionState → Type 0 where
  accept : Step unknown pending
  retry : Step pending pending
  grant : Step pending granted
  reject : Step pending rejected
  stay_granted : Step granted granted
  stay_rejected : Step rejected rejected

-- From pending there is an arrow to every state but unknown.
abbrev IsKnown : NodeDisruptionState → Type 0
IsKnown unknown = ⊥
IsKnown _ = Unit

Step-pending : (s : NodeDisruptionState) → IsKnown s → Step pending s
Step-pending unknown h = absurd h
Step-pending pending h = retry
Step-pending granted h = grant
Step-pending rejected h = reject

module _ (env : Env) (config : Config) where
  conclude-IsKnown :
      (nd : NodeDisruption) (next : ℕ) (checked : Bool × Slice DisruptedBudgetStatus)
      (w : env.World) {nd' : NodeDisruption} {w' : env.World}
      → conclude env nd next checked w ≡ (ok nd', w')
      → IsKnown nd'.status.state
  unfolding conclude
  conclude-IsKnown nd next (true, statuses) w h = ground arith
  conclude-IsKnown nd next (false, statuses) w h = ground arith

  try_transition-IsKnown :
      (nd : NodeDisruption) (w : env.World) {nd' : NodeDisruption} {w' : env.World}
      → try_transition_to_granted env config nd w ≡ (ok nd', w')
      → IsKnown nd'.status.state
  unfolding try_transition_to_granted
  try_transition-IsKnown nd w h =
      let (next, w₁, dated, h₁) = >>=-eq-ok (get_retry_date env config nd) _ w h in
      let (budgets, w₂, listed, h₂) = >>=-eq-ok (Budget.get_all_budgets_in_sync env) _ w₁ h₁ in
      let (checked, w₃, valid, h₃) = >>=-eq-ok (validate env config nd budgets) _ w₂ h₂ in
      conclude-IsKnown nd next checked w₃ h₃

  result_state :
      {a b : NodeDisruption} {w w' : env.World}
      → ◌≡◌ {A = Result NodeDisruption × env.World} (ok a, w) (ok b, w')
      → a.status.state ≡ b.status.state
  result_state h = ground arith

  transition_from-Step :
      (s : NodeDisruptionState) (nd : NodeDisruption) (w : env.World) {nd' : NodeDisruption}
      {w' : env.World}
      → nd.status.state ≡ s
      → transition_from env s config nd w ≡ (ok nd', w')
      → Step s nd'.status.state
  unfolding transition_from
  transition_from-Step unknown nd w e h = subst (Step unknown) (result_state h) accept
  transition_from-Step pending nd w {nd' = nd'} e h =
      let (decided, between, made, rest) =
        >>=-eq-ok (try_transition_to_granted env config nd) _ w h in
      Step-pending nd'.status.state
        (subst IsKnown (result_state rest) (try_transition-IsKnown nd w made))
  transition_from-Step granted nd w e h = subst (Step granted) (sym e ∙ result_state h) stay_granted
  transition_from-Step rejected nd w e h =
      subst (Step rejected) (sym e ∙ result_state h) stay_rejected

  -- `Sync` changes the nodes, and neither the state nor the statuses of budgets.
  pub sync-keeps :
      (nd : NodeDisruption) (w : env.World) {nd' : NodeDisruption} {w' : env.World}
      → sync env nd w ≡ (ok nd', w')
      → (nd'.status.state ≡ nd.status.state)
        × (nd'.status.disrupted_disruption_budgets ≡ nd.status.disrupted_disruption_budgets)
  unfolding sync
  sync-keeps nd w h = ground arith

  -- If the single reconciler succeeds, the state has gone from unknown to pending, or from pending
  -- to pending, granted or rejected, or has stayed granted or rejected.
  pub reconcile_single-Step :
      (nd : NodeDisruption) (w : env.World) {nd' : NodeDisruption} {w' : env.World}
      → reconcile_single env config nd w ≡ (ok nd', w')
      → Step nd.status.state nd'.status.state
  unfolding reconcile_single
  reconcile_single-Step nd w {nd' = nd'} h =
      let (synced, w₁, looked, h₁) = >>=-eq-ok (sync env nd) _ w h in
      subst (λ s. Step s nd'.status.state) (sync-keeps nd w looked).0
        (transition_from-Step synced.status.state synced w₁ refl h₁)

  -- Any number of successful reconciliations, in any worlds, with edits between them of all but the
  -- status.
  pub data Run (nd : NodeDisruption) : NodeDisruption → Type 0 where
    here : Run nd nd
    edited :
        {a : NodeDisruption} (meta : ObjectMeta) (spec : NodeDisruptionSpec)
        → Run nd a
        → Run nd (record { meta = meta; spec = spec; status = a.status })
    reconciled :
        {a b : NodeDisruption} (w w' : env.World)
        → Run nd a
        → reconcile_single env config a w ≡ (ok b, w')
        → Run nd b

  -- A step from granted leaves the state and the statuses.
  pub granted-keeps :
      (nd : NodeDisruption) (w : env.World) {nd' : NodeDisruption} {w' : env.World}
      → reconcile_single env config nd w ≡ (ok nd', w')
      → nd.status.state ≡ granted
      → (nd'.status.state ≡ granted)
        × (nd'.status.disrupted_disruption_budgets ≡ nd.status.disrupted_disruption_budgets)
  unfolding reconcile_single transition_from
  granted-keeps nd w h g =
      let (synced, w₁, looked, h₁) = >>=-eq-ok (sync env nd) _ w h in
      ground (arith, sync-keeps nd w looked)

  -- After any run of successful reconciliations, in any worlds, and of edits of the metadata and
  -- the spec, a disruption that was granted at first is granted, with the same statuses of
  -- budgets.
  pub Run-granted :
      {nd nd' : NodeDisruption}
      → Run nd nd'
      → nd.status.state ≡ granted
      → (nd'.status.state ≡ granted)
        × (nd'.status.disrupted_disruption_budgets ≡ nd.status.disrupted_disruption_budgets)
  Run-granted here g = (g, refl)
  Run-granted (edited meta spec r) g = Run-granted r g
  Run-granted (reconciled {a = a} w w' r e) g =
      let (still, same) = Run-granted r g in
      let (state, statuses) = granted-keeps a w e still in (state, statuses ∙ same)
