-- ===== src/AppManager/Parameters.antt =====
-- The parameters of the application manager's requests (internal/appmgrcli/disruption,
-- *_parameters.go). A method changes the parameters that it is called on; here it returns them. The
-- three types have the same fields.
use node_disruption_controll.Prelude.{Option, none, some}
use node_disruption_controll.Prelude.Int.{ℤ, pos}
use node_disruption_controll.Client.{HookBody}
use node_disruption_controll.Client.Monad.{Action, pure, ◌>>◌}

-- `runtime.ClientRequest`, as far as parameters are written to it, with the contexts and the HTTP
-- clients, and `cr.DefaultTimeout`.
pub record Transport : Type 1 where
  pub Request : Type 0
  pub Context : Type 0
  pub HttpClient : Type 0
  pub set_timeout : ℤ → Action Request (Unit {0})
  pub set_body_param : HookBody → Action Request (Unit {0})
  pub default_timeout : ℤ

module _ (t : Transport) where
  pub record Params : Type 0 where
    pub body : Option HookBody
    pub timeout : ℤ
    pub context : Option t.Context
    pub http_client : Option t.HttpClient

  -- The constructors and the methods of one of the types.
  pub record Operations : Type 0 where
    pub new : Params
    pub new_with_timeout : ℤ → Params
    pub new_with_context : Option t.Context → Params
    pub new_with_http_client : Option t.HttpClient → Params
    pub set_defaults : Params → Params
    pub with_defaults : Params → Params
    pub set_timeout : ℤ → Params → Params
    pub with_timeout : ℤ → Params → Params
    pub set_context : Option t.Context → Params → Params
    pub with_context : Option t.Context → Params → Params
    pub set_http_client : Option t.HttpClient → Params → Params
    pub with_http_client : Option t.HttpClient → Params → Params
    pub set_body : Option HookBody → Params → Params
    pub with_body : Option HookBody → Params → Params
    pub write_to_request : Params → Action t.Request (Unit {0})

  -- A body that is nil is not written.
  abbrev pub write_body : Option HookBody → Action t.Request (Unit {0})
  write_body none = pure tt
  write_body (some body) = t.set_body_param body

  -- `PrepareApplicationParams`
  abbrev pub prepare_application_params : Operations
  prepare_application_params = record {
    new = record { body = none; timeout = t.default_timeout; context = none; http_client = none };
    new_with_timeout =
        λ timeout. record { body = none; timeout = timeout; context = none; http_client = none };
    new_with_context =
        λ context. record { body = none; timeout = pos 0; context = context; http_client = none };
    new_with_http_client =
        λ client. record { body = none; timeout = pos 0; context = none; http_client = client };
    set_defaults = λ o. o;
    with_defaults = λ o. o;
    set_timeout = λ timeout o. record o { timeout = timeout };
    with_timeout = λ timeout o. record o { timeout = timeout };
    set_context = λ context o. record o { context = context };
    with_context = λ context o. record o { context = context };
    set_http_client = λ client o. record o { http_client = client };
    with_http_client = λ client o. record o { http_client = client };
    set_body = λ body o. record o { body = body };
    with_body = λ body o. record o { body = body };
    write_to_request = λ o. t.set_timeout o.timeout >> write_body o.body;
  }

  -- `CheckReadinessParams`
  abbrev pub check_readiness_params : Operations
  check_readiness_params = record {
    new = record { body = none; timeout = t.default_timeout; context = none; http_client = none };
    new_with_timeout =
        λ timeout. record { body = none; timeout = timeout; context = none; http_client = none };
    new_with_context =
        λ context. record { body = none; timeout = pos 0; context = context; http_client = none };
    new_with_http_client =
        λ client. record { body = none; timeout = pos 0; context = none; http_client = client };
    set_defaults = λ o. o;
    with_defaults = λ o. o;
    set_timeout = λ timeout o. record o { timeout = timeout };
    with_timeout = λ timeout o. record o { timeout = timeout };
    set_context = λ context o. record o { context = context };
    with_context = λ context o. record o { context = context };
    set_http_client = λ client o. record o { http_client = client };
    with_http_client = λ client o. record o { http_client = client };
    set_body = λ body o. record o { body = body };
    with_body = λ body o. record o { body = body };
    write_to_request = λ o. t.set_timeout o.timeout >> write_body o.body;
  }

  -- `TerminateDisruptionParams`
  abbrev pub terminate_disruption_params : Operations
  terminate_disruption_params = record {
    new = record { body = none; timeout = t.default_timeout; context = none; http_client = none };
    new_with_timeout =
        λ timeout. record { body = none; timeout = timeout; context = none; http_client = none };
    new_with_context =
        λ context. record { body = none; timeout = pos 0; context = context; http_client = none };
    new_with_http_client =
        λ client. record { body = none; timeout = pos 0; context = none; http_client = client };
    set_defaults = λ o. o;
    with_defaults = λ o. o;
    set_timeout = λ timeout o. record o { timeout = timeout };
    with_timeout = λ timeout o. record o { timeout = timeout };
    set_context = λ context o. record o { context = context };
    with_context = λ context o. record o { context = context };
    set_http_client = λ client o. record o { http_client = client };
    with_http_client = λ client o. record o { http_client = client };
    set_body = λ body o. record o { body = body };
    with_body = λ body o. record o { body = body };
    write_to_request = λ o. t.set_timeout o.timeout >> write_body o.body;
  }
