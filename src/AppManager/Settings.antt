-- ===== src/AppManager/Settings.antt =====
-- Requests' parameters after any sequence of calls of their methods.
use node_disruption_controll.Prelude.{Option, none, some, List, [], ◌∷◌}
use node_disruption_controll.Prelude.Int.{ℤ}
use node_disruption_controll.Client.{HookBody}
use node_disruption_controll.Client.Monad.{Result, Hook, prepare, ready, terminate, ◌>>◌}
use node_disruption_controll.AppManager.Parameters.{
  Transport, Params, Operations, prepare_application_params, check_readiness_params,
  terminate_disruption_params,
}

module _ (t : Transport) where
  -- The operations of each hook's parameters.
  abbrev params_of : Hook → Operations t
  params_of prepare = prepare_application_params t
  params_of ready = check_readiness_params t
  params_of terminate = terminate_disruption_params t

  -- A call of a method that sets something.
  pub data Setting : Type 0 where
    defaults : Setting
    timeout_of : ℤ → Setting
    context_of : Option t.Context → Setting
    http_client_of : Option t.HttpClient → Setting
    body_of : Option HookBody → Setting

  abbrev apply_one : Operations t → Setting → Params t → Params t
  apply_one ops defaults o = ops.with_defaults o
  apply_one ops (timeout_of timeout) o = ops.with_timeout timeout o
  apply_one ops (context_of context) o = ops.with_context context o
  apply_one ops (http_client_of client) o = ops.with_http_client client o
  apply_one ops (body_of body) o = ops.with_body body o

  -- The calls in order.
  abbrev pub apply_all : Operations t → List Setting → Params t → Params t
  apply_all ops [] o = o
  apply_all ops (s ∷ ss) o = apply_all ops ss (apply_one ops s o)

  -- The last of each kind, or what there was.
  abbrev last_timeout : List Setting → ℤ → ℤ
  last_timeout [] timeout = timeout
  last_timeout (timeout_of later ∷ ss) timeout = last_timeout ss later
  last_timeout (_ ∷ ss) timeout = last_timeout ss timeout

  abbrev last_body : List Setting → Option HookBody → Option HookBody
  last_body [] body = body
  last_body (body_of later ∷ ss) body = last_body ss later
  last_body (_ ∷ ss) body = last_body ss body

  -- What is written of them.
  abbrev written : Params t → ℤ × Option HookBody
  written o = (o.timeout, o.body)

  -- What a request is to be written: its timeout, and its body where there is one.
  abbrev pub writes : ℤ → Option HookBody → t.Request → Result (Unit {0}) × t.Request
  writes timeout none = t.set_timeout timeout
  writes timeout (some body) = t.set_timeout timeout >> t.set_body_param body
