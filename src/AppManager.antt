-- ===== src/AppManager.antt =====
-- The generated client of the application manager (internal/appmgrcli/disruption): how a reply is
-- read, and the three requests. The requests go through the transport of the environment.
pub mod Laws
pub mod Responses
pub mod Replies
pub mod Refused
pub mod Parameters
pub mod Settings
pub mod Body
use node_disruption_controll.Prelude.{
  ℕ, ◌+◌, ◌/◌, String, ◌<>◌, Option, none, some, ◌==◌, str_eq, itoa, if◌then◌else◌,
}
use node_disruption_controll.Prelude.Int.{ℤ, pos, negsuc}
use node_disruption_controll.Client.{Env, Url, Response, HookBody}
use node_disruption_controll.Client.Monad.{
  Hook, prepare, ready, terminate, Error, not_found, failed_dependency, retry_later, default_error,
  api_error, failure, ok, err, Action, pure, raise, ◌>>=◌,
}

-- `PrepareApplicationOK` and the like, or the default response with its code and payload.
pub data Success : Type 0 where
  accepted : Success
  default_success : ℕ → String → Success

-- `int64` by `%v`
abbrev pub show_int : ℤ → String
show_int (pos n) = itoa n
show_int (negsuc n) = "-" <> itoa (n + 1)

abbrev pub hook_path : Hook → String
hook_path prepare = "/prepare"
hook_path ready = "/ready"
hook_path terminate = "/terminate"

-- The text of a default response, around its code.
abbrev default_prefix : Hook → String
default_prefix prepare = "[POST /prepare]["
default_prefix ready = "[POST /ready]["
default_prefix terminate = "[POST /terminate]["

abbrev default_suffix : Hook → String
default_suffix prepare = "] prepareApplication default "
default_suffix ready = "] checkReadiness default "
default_suffix terminate = "] terminateDisruption default "

abbrev operation_id : Hook → String
operation_id prepare = "prepareApplication"
operation_id ready = "checkReadiness"
operation_id terminate = "terminateDisruption"

module _ (env : Env) where
  -- A header that is no number is an error of its own.
  pub retry_error : Hook → String → Option ℤ → Error
  retry_error hook header none = failure (env.invalid_header header)
  retry_error hook header (some delay) = retry_later hook delay

  -- `readResponse` of the 425 responses: `RetryAfter` stays 0 where the header is missing.
  unfoldable pub read_status_425 : Hook → Response → Error
  unfolding retry_error
  read_status_425 hook response =
      if str_eq response.retry_after ""
      then retry_later hook (pos 0)
      else retry_error hook response.retry_after (env.convert_int64 response.retry_after)

  -- The `default` case of the readers.
  unfoldable pub read_default : Hook → Response → Action env.World Success
  read_default hook response = do
    payload ← env.consume_error response
    if response.status_code / 100 == 2
        then pure (default_success response.status_code payload)
        else raise (default_error hook response.status_code payload)

  -- `PrepareApplicationReader.ReadResponse`
  unfoldable pub read_prepare_response : Response → Action env.World Success
  unfolding read_status_425 read_default
  read_prepare_response response =
      if response.status_code == 200
      then pure accepted
      else if response.status_code == 424
      then raise (failed_dependency prepare)
      else if response.status_code == 425
      then raise (read_status_425 prepare response)
      else read_default prepare response

  -- `CheckReadinessReader.ReadResponse`
  pub read_ready_response : Response → Action env.World Success
  unfolding read_status_425 read_default
  read_ready_response response =
      if response.status_code == 200
      then pure accepted
      else if response.status_code == 425
      then raise (read_status_425 ready response)
      else read_default ready response

  -- `TerminateDisruptionReader.ReadResponse`
  unfoldable pub read_terminate_response : Response → Action env.World Success
  unfolding read_default
  read_terminate_response response =
      if response.status_code == 200 then pure accepted else read_default terminate response

  -- A success of another code is an error too.
  pub expect_accepted : Success → Action env.World (Unit {0})
  expect_accepted accepted = pure tt
  expect_accepted (default_success code payload) =
      raise (
        api_error "unexpected success response: content available as default response in error"
          code)

  unfoldable pub prepare_application : Url → HookBody → ℤ → Action env.World (Unit {0})
  unfolding read_prepare_response expect_accepted
  prepare_application url body timeout = do
    response ← env.submit url (hook_path prepare) body timeout
    result ← read_prepare_response response
    expect_accepted result

  unfoldable pub check_readiness : Url → HookBody → ℤ → Action env.World (Unit {0})
  unfolding read_ready_response expect_accepted
  check_readiness url body timeout = do
    response ← env.submit url (hook_path ready) body timeout
    result ← read_ready_response response
    expect_accepted result

  unfoldable pub terminate_disruption : Url → HookBody → ℤ → Action env.World (Unit {0})
  unfolding read_terminate_response expect_accepted
  terminate_disruption url body timeout = do
    response ← env.submit url (hook_path terminate) body timeout
    result ← read_terminate_response response
    expect_accepted result

  -- `err.Error()`
  unfoldable pub error_text : Error → String
  error_text (not_found text) = text
  error_text (failed_dependency hook) =
      "[POST " <> (hook_path hook <> ("][424] " <> (operation_id hook <> "FailedDependency")))
  error_text (retry_later hook delay) =
      "[POST " <> (hook_path hook <> ("][425] " <> (operation_id hook <> "Status425")))
  error_text (default_error hook code payload) =
      default_prefix hook <> (itoa code <> (default_suffix hook <> payload))
  error_text (api_error name code) = env.api_error_text name code
  error_text (failure text) = text
