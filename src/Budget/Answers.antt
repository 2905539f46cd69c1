-- ===== src/Budget/Answers.antt =====
-- What the answers of an application manager become: the errors, and the codes that are counted.
use node_disruption_controll.Prelude.{
  String, ◌<>◌, true, false, ◌≡◌, ◌≤◌, ◌<◌, ◌⊎◌, inl, inr, arith, sym, subst, str_eq,
}
use node_disruption_controll.Prelude.Int.{ℤ, pos}
use node_disruption_controll.Api.{ApplicationDisruptionBudget, NodeDisruption}
use node_disruption_controll.Metrics.{disruption_budget_check_prepare_hook_status_code_total}
use node_disruption_controll.Client.{Env, Url, Response}
use node_disruption_controll.Client.Monad.{
  prepare, Error, failure, failed_dependency, lift, Result, ok, err, Action, >>=-eq-ok, ◌>>=◌,
}
use node_disruption_controll.AppManager.{
  hook_path, prepare_application, read_prepare_response, read_status_425, show_int,
}
use node_disruption_controll.AppManager.Laws.{request-200}
use node_disruption_controll.Budget.Hooks.{
  counted_status_code, hook_result, hook_body, count_status_code, call_prepare_hook, judge_health,
  or_count_error, call_health_hook,
}

lift-ok :
    {W A : Type 0} (r : Result A) (w : W) {a : A} {w' : W}
    → ◌≡◌ {A = Result A × W} (r, w) (ok a, w')
    → (r ≡ ok a) × (w ≡ w')
lift-ok r w h = (ground arith, ground arith)

hook_result-ok :
    (r : Result (Unit {0})) {u : Unit {0}} → hook_result r ≡ ok u → (v : Unit {0}) × (r ≡ ok v)
unfolding hook_result
hook_result-ok r h = ground arith

module _ (env : Env) where
  or_count_error-ok :
      {A : Type 0} (adb : ApplicationDisruptionBudget) (m : Action env.World A) (w : env.World)
      {a : A} {w' : env.World}
      → or_count_error env adb m w ≡ (ok a, w')
      → m w ≡ (ok a, w')
  unfolding or_count_error
  or_count_error-ok adb m w h = ground arith

  judge_health-ok :
      (adb : ApplicationDisruptionBudget) (response : Response) (reply : String) (w : env.World)
      {u : Unit {0}} {w' : env.World}
      → judge_health env adb response reply w ≡ (ok u, w')
      → (200 ≤ response.status_code) × (response.status_code < 300)
  unfolding judge_health
  judge_health-ok adb response reply w h = ground arith

module _ (env : Env) (adb : ApplicationDisruptionBudget) (nd : NodeDisruption) (timeout : ℤ) where
  -- Where the budget's base path is a URL, a prepare hook that is answered with 424, or with 425
  -- and no `Retry-After`, fails and is counted under the status code 200.
  pub call_prepare_hook-refused :
      (w : env.World) {url : Url} {response : Response} {w' : env.World}
      → env.parse_url adb.spec.hook_v2_base_path.url ≡ ok url
      → env.submit url (hook_path prepare) (hook_body env adb nd) timeout w ≡ (ok response, w')
      → (response.status_code ≡ 424)
        ⊎ ((response.status_code ≡ 425) × (str_eq response.retry_after "" ≡ true))
      → (e : Error) × (call_prepare_hook env adb nd timeout w ≡ (
        err e,
        count_status_code env disruption_budget_check_prepare_hook_status_code_total adb 200 w',
      ))
  unfolding call_prepare_hook prepare_application read_prepare_response read_status_425
      counted_status_code hook_result
  call_prepare_hook-refused w parsed sent (inl failed) = (failed_dependency prepare, ground arith)
  call_prepare_hook-refused w parsed sent (inr early) =
      (failure ("retry later, in " <> (show_int (pos 0) <> " seconds")), ground arith)

  -- If a prepare hook succeeds, the budget's base path is a URL, and the reply to the request at
  -- it with the hook's body had the status code 200.
  pub call_prepare_hook-200 :
      (w : env.World) {u : Unit {0}} {w' : env.World}
      → call_prepare_hook env adb nd timeout w ≡ (ok u, w')
      → (url : Url) × (env.parse_url adb.spec.hook_v2_base_path.url ≡ ok url)
        × ((response : Response) × (between : env.World) × (env.submit url
                (hook_path prepare)
                (hook_body env adb nd)
                timeout
                w
              ≡ (ok response, between))
            × (response.status_code ≡ 200))
  unfolding call_prepare_hook hook_result
  call_prepare_hook-200 w h =
      let (url, w₁, parsed, asked) =
        >>=-eq-ok (lift (env.parse_url adb.spec.hook_v2_base_path.url)) _ w h in
      let answer = prepare_application env url (hook_body env adb nd) timeout in
      let (u, done) = hook_result-ok (answer w₁).0 (ground arith) in
      (
        url,
        ground arith,
        request-200 env prepare url (hook_body env adb nd) timeout w {w' = (answer w).1}
            (ground arith),
      )

  -- The reply to the POST of a body.
  abbrev Answered : String → env.World → Type 0
  Answered body w =
      (response : Response) × (between : env.World) × (env.post adb.spec.health_hook.url body
          timeout w
        ≡ (ok response, between))
      × (200 ≤ response.status_code)
      × (response.status_code < 300)

  posted :
      (body : String) (w : env.World) {u : Unit {0}} {w' : env.World}
      → (or_count_error env adb (lift (env.new_post_request adb.spec.health_hook.url))
            >>= λ request.
                or_count_error env adb (env.post adb.spec.health_hook.url body timeout)
                >>= λ response. or_count_error env adb (env.read_body response) >>= λ reply.
                    judge_health env adb response reply)
          w
        ≡ (ok u, w')
      → Answered body w
  posted body w h =
      let (request, w₁, made, h₁) =
        >>=-eq-ok (or_count_error env adb (lift (env.new_post_request adb.spec.health_hook.url))) _
          w h in
      let (response, w₂, sent, h₂) =
        >>=-eq-ok (or_count_error env adb (env.post adb.spec.health_hook.url body timeout)) _ w₁
          h₁ in
      let (reply, w₃, read, h₃) =
        >>=-eq-ok (or_count_error env adb (env.read_body response)) _ w₂ h₂ in
      let unmoved =
        (lift-ok (env.new_post_request adb.spec.health_hook.url) w (
          or_count_error-ok env adb (lift (env.new_post_request adb.spec.health_hook.url)) w
            made)).1 in
      let good = judge_health-ok env adb response reply w₃ h₃ in
      (
        response,
        w₂,
        subst (λ v. env.post adb.spec.health_hook.url body timeout v ≡ (ok response, w₂))
            (sym unmoved)
            (or_count_error-ok env adb (env.post adb.spec.health_hook.url body timeout) w₁ sent),
        good.0,
        good.1,
      )

  -- If the health hook of a budget that names its URL succeeds, the disruption could be encoded,
  -- and the reply to its POST at that URL had a status code from 200 to 299.
  pub call_health_hook-2XX :
      (w : env.World) {u : Unit {0}} {w' : env.World}
      → str_eq adb.spec.health_hook.url "" ≡ false
      → call_health_hook env adb nd timeout w ≡ (ok u, w')
      → (body : String) × (env.marshal nd ≡ ok body)
        × ((response : Response) × (between : env.World) × (env.post adb.spec.health_hook.url body
                timeout w
              ≡ (ok response, between))
            × (200 ≤ response.status_code)
            × (response.status_code < 300))
  unfolding call_health_hook judge_health or_count_error
  call_health_hook-2XX w named h =
      let h₀ = rw named at h in
      let (body, w₁, encoded, h₁) = >>=-eq-ok (lift (env.marshal nd)) _ w h₀ in
      let (encoded', unmoved) = lift-ok (env.marshal nd) w encoded in
      (body, encoded', subst (λ v. Answered body v) (sym unmoved) (posted body w₁ h₁))
