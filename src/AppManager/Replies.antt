-- ===== src/AppManager/Replies.antt =====
-- The readers of replies against the response values that they make.
use node_disruption_controll.Prelude.{
  ℕ, String, ◌/◌, ◌≡◌, true, Option, none, some, refl, arith, ap, subst, itoa, ◌==◌,
}
use node_disruption_controll.Client.{Env, Response}
use node_disruption_controll.Client.Monad.{
  Hook, prepare, ready, terminate, Error, failed_dependency, retry_later, default_error, not_found,
  api_error, failure, ok,
}
use node_disruption_controll.AppManager.{
  Success, accepted, default_success, read_default, read_prepare_response, read_ready_response,
  read_terminate_response, error_text,
}
use node_disruption_controll.AppManager.Laws.{read_response}
use node_disruption_controll.AppManager.Responses.{
  Reply, prepare_application_ok, prepare_application_failed_dependency,
  prepare_application_status_425, prepare_application_default, check_readiness_ok,
  check_readiness_status_425, check_readiness_default, terminate_disruption_ok,
  terminate_disruption_default,
}

abbrev default_reply : Hook → ℕ → String → Reply
default_reply prepare = prepare_application_default
default_reply ready = check_readiness_default
default_reply terminate = terminate_disruption_default

-- The response value that a reader returns as a result.
abbrev reply_of_success : Hook → Success → Reply
reply_of_success prepare accepted = prepare_application_ok
reply_of_success ready accepted = check_readiness_ok
reply_of_success terminate accepted = terminate_disruption_ok
reply_of_success hook (default_success code payload) = default_reply hook code payload

-- The response value that a reader returns as an error: the errors of transports and of headers are
-- none, and only some hooks have a value for 424 and 425.
abbrev pub reply_of_error : Error → Option Reply
reply_of_error (failed_dependency prepare) = some prepare_application_failed_dependency
reply_of_error (retry_later prepare delay) = some (prepare_application_status_425 delay)
reply_of_error (retry_later ready delay) = some (check_readiness_status_425 delay)
reply_of_error (default_error hook code payload) = some (default_reply hook code payload)
reply_of_error _ = none

-- The methods of a value that classify it agree with its code.
abbrev pub IsClassified : Reply → Type 0
IsClassified r =
    (r.is_success ≡ (r.code / 100 == 2))
    × (r.is_redirect ≡ (r.code / 100 == 3))
    × (r.is_client_error ≡ (r.code / 100 == 4))
    × (r.is_server_error ≡ (r.code / 100 == 5))
    × ((n : ℕ) → r.is_code n ≡ (r.code == n))
    × (r.string ≡ r.error)

pub some-injective : {A : Type 0} {a b : A} → some a ≡ some b → a ≡ b
some-injective h = ground arith

default_reply-IsClassified :
    (hook : Hook) (code : ℕ) (payload : String) → IsClassified (default_reply hook code payload)
default_reply-IsClassified prepare code payload = (refl, refl, refl, refl, (λ n. refl), refl)
default_reply-IsClassified ready code payload = (refl, refl, refl, refl, (λ n. refl), refl)
default_reply-IsClassified terminate code payload = (refl, refl, refl, refl, (λ n. refl), refl)

==-comm : (n m : ℕ) → (n == m) ≡ (m == n)
==-comm n m = ground arith

reply_of_success-IsClassified : (hook : Hook) (s : Success) → IsClassified (reply_of_success hook s)
reply_of_success-IsClassified prepare accepted =
    (refl, refl, refl, refl, (λ n. ==-comm n 200), refl)
reply_of_success-IsClassified ready accepted = (refl, refl, refl, refl, (λ n. ==-comm n 200), refl)
reply_of_success-IsClassified terminate accepted =
    (refl, refl, refl, refl, (λ n. ==-comm n 200), refl)
reply_of_success-IsClassified prepare (default_success code payload) =
    default_reply-IsClassified prepare code payload
reply_of_success-IsClassified ready (default_success code payload) =
    default_reply-IsClassified ready code payload
reply_of_success-IsClassified terminate (default_success code payload) =
    default_reply-IsClassified terminate code payload

pub reply_of_error-IsClassified :
    (e : Error) {r : Reply} → reply_of_error e ≡ some r → IsClassified r
reply_of_error-IsClassified (failed_dependency prepare) h =
    subst IsClassified (some-injective h) (refl, refl, refl, refl, (λ n. ==-comm n 424), refl)
reply_of_error-IsClassified (retry_later prepare delay) h =
    subst IsClassified (some-injective h) (refl, refl, refl, refl, (λ n. ==-comm n 425), refl)
reply_of_error-IsClassified (retry_later ready delay) h =
    subst IsClassified (some-injective h) (refl, refl, refl, refl, (λ n. ==-comm n 425), refl)
reply_of_error-IsClassified (default_error hook code payload) h =
    subst IsClassified (some-injective h) (default_reply-IsClassified hook code payload)
reply_of_error-IsClassified (failed_dependency ready) h = ground arith
reply_of_error-IsClassified (failed_dependency terminate) h = ground arith
reply_of_error-IsClassified (retry_later terminate delay) h = ground arith
reply_of_error-IsClassified (not_found text) h = ground arith
reply_of_error-IsClassified (api_error name code) h = ground arith
reply_of_error-IsClassified (failure text) h = ground arith

module _ (env : Env) where
  -- The text of the error is that of its response value.
  pub error_text-reply :
      (e : Error) {r : Reply} → reply_of_error e ≡ some r → error_text env e ≡ r.error
  unfolding error_text itoa
  error_text-reply (failed_dependency prepare) h = ap (λ r. r.error) (some-injective h)
  error_text-reply (retry_later prepare delay) h = ap (λ r. r.error) (some-injective h)
  error_text-reply (retry_later ready delay) h = ap (λ r. r.error) (some-injective h)
  error_text-reply (default_error prepare code payload) h = ap (λ r. r.error) (some-injective h)
  error_text-reply (default_error ready code payload) h = ap (λ r. r.error) (some-injective h)
  error_text-reply (default_error terminate code payload) h = ap (λ r. r.error) (some-injective h)
  error_text-reply (failed_dependency ready) h = ground arith
  error_text-reply (failed_dependency terminate) h = ground arith
  error_text-reply (retry_later terminate delay) h = ground arith
  error_text-reply (not_found text) h = ground arith
  error_text-reply (api_error name code) h = ground arith
  error_text-reply (failure text) h = ground arith

  -- If a reader returns a result, it is a response value with the code of the reply, its methods
  -- agree with that code, and it is a success.
  pub read_response-success :
      (hook : Hook) (response : Response) (w : env.World) {s : Success} {w' : env.World}
      → read_response env hook response w ≡ (ok s, w')
      → ((reply_of_success hook s).code ≡ response.status_code)
        × ((reply_of_success hook s).is_success ≡ true)
        × IsClassified (reply_of_success hook s)
  unfolding read_prepare_response read_ready_response read_terminate_response read_default
  read_response-success prepare response w {s = accepted} h =
      (ground arith, refl, reply_of_success-IsClassified prepare accepted)
  read_response-success prepare response w {s = default_success code payload} h = (
    ground arith,
    ground arith,
    reply_of_success-IsClassified prepare (default_success code payload),
  )
  read_response-success ready response w {s = accepted} h =
      (ground arith, refl, reply_of_success-IsClassified ready accepted)
  read_response-success ready response w {s = default_success code payload} h = (
    ground arith,
    ground arith,
    reply_of_success-IsClassified ready (default_success code payload),
  )
  read_response-success terminate response w {s = accepted} h =
      (ground arith, refl, reply_of_success-IsClassified terminate accepted)
  read_response-success terminate response w {s = default_success code payload} h = (
    ground arith,
    ground arith,
    reply_of_success-IsClassified terminate (default_success code payload),
  )
