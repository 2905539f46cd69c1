-- ===== src/AppManager/Laws.antt =====
-- What an application manager must reply for a request to succeed.
use node_disruption_controll.Prelude.{◌≡◌, refl, ◌∙◌, arith}
use node_disruption_controll.Prelude.Int.{ℤ}
use node_disruption_controll.Client.{Env, Url, Response, HookBody}
use node_disruption_controll.Client.Monad.{
  Hook, prepare, ready, terminate, ok, Action, >>=-eq-ok, ◌>>=◌,
}
use node_disruption_controll.AppManager.{
  Success, accepted, default_success, hook_path, read_default, read_prepare_response,
  read_ready_response, read_terminate_response, expect_accepted, prepare_application,
  check_readiness, terminate_disruption,
}

module _ (env : Env) where
  -- The request of each hook.
  abbrev pub request : Hook → Url → HookBody → ℤ → Action env.World (Unit {0})
  request prepare = prepare_application env
  request ready = check_readiness env
  request terminate = terminate_disruption env

  -- The reader of each hook's replies.
  abbrev pub read_response : Hook → Response → Action env.World Success
  read_response prepare = read_prepare_response env
  read_response ready = read_ready_response env
  read_response terminate = read_terminate_response env

  accepted-200 :
      (hook : Hook) (response : Response) (w : env.World) {w' : env.World}
      → read_response hook response w ≡ (ok accepted, w')
      → response.status_code ≡ 200
  unfolding read_prepare_response read_ready_response read_terminate_response read_default
  accepted-200 prepare response w h = ground arith
  accepted-200 ready response w h = ground arith
  accepted-200 terminate response w h = ground arith

  accepted_only :
      (result : Success) (w : env.World) {u : Unit {0}} {w' : env.World}
      → expect_accepted env result w ≡ (ok u, w')
      → (result ≡ accepted) × (w ≡ w')
  unfolding expect_accepted
  accepted_only accepted w h = (refl, ground arith)
  accepted_only (default_success code payload) w h = ground arith

  answered :
      (hook : Hook) (submit : Action env.World Response) (w : env.World) {u : Unit {0}}
      {w' : env.World}
      → (submit >>= λ response. read_response hook response >>= expect_accepted env) w ≡ (ok u, w')
      → (response : Response) × (between : env.World) × (submit w ≡ (ok response, between))
        × (read_response hook response between ≡ (ok accepted, w'))
  answered hook submit w h =
      let (response, w₁, sent, h₁) = >>=-eq-ok submit _ w h in
      let (result, w₂, read, h₂) = >>=-eq-ok (read_response hook response) _ w₁ h₁ in
      let (is_accepted, same) = accepted_only result w₂ h₂ in
      (response, w₁, sent, read ∙ λ i. (ok (is_accepted i), same i))

  request_steps :
      (hook : Hook) (url : Url) (body : HookBody) (timeout : ℤ) (w : env.World) {u : Unit {0}}
      {w' : env.World}
      → request hook url body timeout w ≡ (ok u, w')
      → (response : Response) × (between : env.World) × (env.submit url
            (hook_path hook)
            body
            timeout
            w
          ≡ (ok response, between))
        × (read_response hook response between ≡ (ok accepted, w'))
  unfolding prepare_application check_readiness terminate_disruption
  request_steps prepare url body timeout w h =
      answered prepare (env.submit url (hook_path prepare) body timeout) w h
  request_steps ready url body timeout w h =
      answered ready (env.submit url (hook_path ready) body timeout) w h
  request_steps terminate url body timeout w h =
      answered terminate (env.submit url (hook_path terminate) body timeout) w h

  -- If a request of any of the three hooks succeeds, the reply to it had the status code 200.
  pub request-200 :
      (hook : Hook) (url : Url) (body : HookBody) (timeout : ℤ) (w : env.World) {u : Unit {0}}
      {w' : env.World}
      → request hook url body timeout w ≡ (ok u, w')
      → (response : Response) × (between : env.World) × (env.submit url
            (hook_path hook)
            body
            timeout
            w
          ≡ (ok response, between))
        × (response.status_code ≡ 200)
  request-200 hook url body timeout w h =
      let (response, between, sent, read) = request_steps hook url body timeout w h in
      (response, between, sent, accepted-200 hook response between read)
