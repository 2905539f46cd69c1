-- ===== src/Disruption/Settings.antt =====
-- `NodeDisruptionReconcilerConfig`, and the statuses and references that a disruption's own checks
-- give (internal/controller/nodedisruption_controller.go).
use node_disruption_controll.Prelude.{ℕ, String, Bool, false, not, List, ◌==◌, ltb, if◌then◌else◌}
use node_disruption_controll.Prelude.Int.{ℤ, pos, pos_part, ◌+ℤ◌}
use node_disruption_controll.Api.{NamespacedName, DisruptedBudgetStatus, RetrySpec, NodeDisruption}
use node_disruption_controll.Client.{Env}
use node_disruption_controll.Client.Monad.{Action, ok, pure, ◌>>=◌}

pub record Config : Type 0 where
  pub reject_empty_node_disruption : Bool
  pub retry_interval : ℤ
  pub reject_overlapping_disruption : Bool
  pub health_hook_timeout : ℤ
  pub node_disruption_types : List String

abbrev pub finalizer_name : String
finalizer_name = "node-disruption-controller/terminate-propagation"

-- `DisruptedBudgetStatus{}`
abbrev pub zero_status : DisruptedBudgetStatus
zero_status = record {
  reference = record { namespace = ""; name = ""; kind = "" };
  reason = "";
  preparing = false;
  ok = false;
}

-- `getNodeDisruptionReference`
pub node_disruption_reference : NodeDisruption → NamespacedName
node_disruption_reference nd = record {
  namespace = nd.meta.namespace;
  name = nd.meta.name;
  kind = nd.meta.kind;
}

-- A refusal by the disruption's own checks.
abbrev pub refused : NamespacedName → String → DisruptedBudgetStatus
refused ref text = record { reference = ref; reason = text; preparing = false; ok = false }

module _ (env : Env) where
  -- `time.Now()`
  abbrev pub read_clock : Action env.World ℕ
  read_clock w = let (t, w') = env.now w in (ok t, w')

  -- `IsAfterDeadline` of api/v1alpha1/nodedisruption_types.go: the clock is read only where there is
  -- a deadline to meet.
  unfoldable pub is_after_deadline : RetrySpec → Action env.World Bool
  is_after_deadline retry =
      if not retry.enabled
      then pure false
      else if retry.deadline == 0
      then pure false
      else do now ← read_clock; pure (ltb retry.deadline now)

  -- `time.Time.Add`: a duration is at most about 292 years, and the clock is far beyond them.
  add_duration : ℕ → ℤ → ℕ
  unfolding ◌+ℤ◌
  add_duration t d = pos_part (pos t +ℤ d)

  -- `getRetryDate`; 0 is the zero time.
  unfoldable pub get_retry_date : Config → NodeDisruption → Action env.World ℕ
  unfolding is_after_deadline add_duration
  get_retry_date config nd = if not nd.spec.retry.enabled then pure 0 else do
    late ← is_after_deadline nd.spec.retry
    if late then pure 0 else do now ← read_clock; pure (add_duration now config.retry_interval)
