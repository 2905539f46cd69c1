-- ===== src/Disruption/Reconciling.antt =====
-- What `Reconcile` of a node disruption writes, and which errors it passes on.
use node_disruption_controll.Prelude.{
  false, ◌≡◌, ◌≢◌, ◌⊎◌, sym, if◌then◌else◌, refl, arith, Bool-cases, inl, inr,
}
use node_disruption_controll.Prelude.Int.{ℤ, pos}
use node_disruption_controll.Api.{NodeDisruption}
use node_disruption_controll.Api.Equality.{disruption_status_equal}
use node_disruption_controll.Api.StatusEquality.{disruption_status_equal_iff}
use node_disruption_controll.Client.{Env}
use node_disruption_controll.Client.Monad.{Error, Result, ok, err, handle}
use node_disruption_controll.Disruption.{after_status_update, store_status}
use node_disruption_controll.Disruption.Settings.{Config}
use node_disruption_controll.Disruption.Transition.{reconcile_single}
use node_disruption_controll.Disruption.States.{Step, reconcile_single-Step}
use node_disruption_controll.Disruption.Termination.{is_not_found}

module _ (env : Env) (nd : NodeDisruption) where
  -- What `Reconcile` answers after the write: an object that is gone needs no status.
  abbrev pub answer_of : Result (Unit {0}) → Result ℤ
  answer_of (ok u) = ok (pos 0)
  answer_of (err e) = if is_not_found e then ok (pos 0) else err e

  -- The result of the single reconciler that calls for a write.
  abbrev pub Changes : NodeDisruption → Type 0
  Changes nd' = nd'.status ≢ nd.status

  -- The results of it that call for none.
  abbrev pub NeedsNoWrite : Result NodeDisruption → Type 0
  NeedsNoWrite (err e) = Unit
  NeedsNoWrite (ok nd') = nd'.status ≡ nd.status

  store_status_lem :
      (r : Result NodeDisruption) (w : env.World)
      → ((nd' : NodeDisruption) × (r ≡ ok nd')
          × Changes nd'
          × (let (written, after) = env.update_node_disruption_status nd' w in
              store_status env nd r w ≡ (answer_of written, after)))
        ⊎ (NeedsNoWrite r × (store_status env nd r w ≡ (ok (pos 0), w)))
  unfolding store_status after_status_update
  store_status_lem (err e) w = inr (tt, refl)
  store_status_lem (ok nd') w =
      let decides = disruption_status_equal_iff nd.status nd'.status in
      elim (Bool-cases (disruption_status_equal nd.status nd'.status)) [
        | inl same ↦ inr (sym (decides.0 same), ground arith)
        | inr different ↦ inl (nd', refl, (λ e. ground arith), ground arith)
      ]

  -- If the end of a reconciliation raises an error, the single reconciler had succeeded, and the
  -- error is that of the write of its status and does not say that the object is gone.
  store_status-err :
      (r : Result NodeDisruption) (w : env.World) {e : Error} {w' : env.World}
      → store_status env nd r w ≡ (err e, w')
      → (nd' : NodeDisruption) × (r ≡ ok nd')
        × (env.update_node_disruption_status nd' w ≡ (err e, w'))
        × (is_not_found e ≡ false)
  unfolding store_status after_status_update
  store_status-err (err e) w h = ground arith
  store_status-err (ok nd') w h = (nd', refl, ground arith, ground arith)

  -- What follows the metrics and the look at the date in `Reconcile`. Either the single reconciler
  -- has succeeded with a status that differs from the stored one and is a step of the state machine:
  -- then the whole of the rest is one write of that status, and `Reconcile` succeeds with no requeue
  -- where the write succeeds or says that the object is gone, and fails with the write's error
  -- otherwise. Or the single reconciler has failed, or has succeeded with the stored status: then
  -- nothing is written after it and `Reconcile` succeeds with no requeue.
  pub reconcile_and_store-Step :
      (config : Config) (w : env.World)
      → ((nd' : NodeDisruption) × (between : env.World) × (reconcile_single env config nd w
            ≡ (ok nd', between))
          × Changes nd'
          × Step nd.status.state nd'.status.state
          × (let (written, after) = env.update_node_disruption_status nd' between in
              handle (reconcile_single env config nd) (store_status env nd) w
              ≡ (answer_of written, after)))
        ⊎ (NeedsNoWrite (reconcile_single env config nd w).0
            × (handle (reconcile_single env config nd) (store_status env nd) w
                ≡ (ok (pos 0), (reconcile_single env config nd w).1)))
  reconcile_and_store-Step config w =
      let result = (reconcile_single env config nd w).0 in
      let between = (reconcile_single env config nd w).1 in
      elim (store_status_lem result between) [
        | inl (nd', succeeded, changed, written) ↦
            let done : reconcile_single env config nd w ≡ (ok nd', between) =
              λ i. (succeeded i, between) in
            inl (nd', between, done, changed, reconcile_single-Step env config nd w done, written)
        | inr unwritten ↦ inr unwritten
      ]
