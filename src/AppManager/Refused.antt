-- ===== src/AppManager/Refused.antt =====
-- The readers' errors against the response values.
use node_disruption_controll.Prelude.{
  ℕ, String, ◌/◌, ◌≡◌, Bool, true, false, Option, none, some, arith, str_eq, if◌then◌else◌, ap,
  Bool-cases, inl, inr, ◌∙◌, sym, subst, ◌==◌,
}
use node_disruption_controll.Prelude.Int.{ℤ, pos}
use node_disruption_controll.Client.{Env, Response}
use node_disruption_controll.Client.Monad.{
  Hook, prepare, ready, terminate, Error, failed_dependency, retry_later, default_error, err,
  Result-cases,
}
use node_disruption_controll.AppManager.{
  read_default, read_prepare_response, read_ready_response, read_terminate_response, retry_error,
  read_status_425, error_text,
}
use node_disruption_controll.AppManager.Laws.{read_response}
use node_disruption_controll.AppManager.Responses.{Reply}
use node_disruption_controll.AppManager.Replies.{
  reply_of_error, IsClassified, some-injective, reply_of_error-IsClassified, error_text-reply,
}

none-some : {A : Type 0} {a : A} → ◌≡◌ {A = Option A} none (some a) → ⊥
none-some h = cc

module _ (env : Env) where
  -- The error, where it is a response value, is one of that code and no success.
  abbrev IsRefusal : ℕ → Error → Type 0
  IsRefusal status_code e =
      (r : Reply) → reply_of_error e ≡ some r → (r.code ≡ status_code) × (r.is_success ≡ false)

  -- Errors of the reader of bodies are no response values.
  abbrev pub ConsumerErrors : Type 0
  ConsumerErrors =
      (response : Response) (w : env.World) (e : Error) (w' : env.World)
      → env.consume_error response w ≡ (err e, w')
      → reply_of_error e ≡ none

  -- A refusal of a code, at the code and the error that are equal to these.
  at_code : (n m : ℕ) (e e' : Error) → m ≡ n → e' ≡ e → IsRefusal m e' → IsRefusal n e
  at_code n m e e' p q h = subst (λ k. IsRefusal k e) p (subst (IsRefusal m) q h)

  failed_dependency-IsRefusal : IsRefusal 424 (failed_dependency prepare)
  failed_dependency-IsRefusal r h =
      (sym (ap (λ r. r.code) (some-injective h)), sym (ap (λ r. r.is_success) (some-injective h)))

  retry_later-IsRefusal : (hook : Hook) (delay : ℤ) → IsRefusal 425 (retry_later hook delay)
  retry_later-IsRefusal prepare delay r h =
      (sym (ap (λ r. r.code) (some-injective h)), sym (ap (λ r. r.is_success) (some-injective h)))
  retry_later-IsRefusal ready delay r h =
      (sym (ap (λ r. r.code) (some-injective h)), sym (ap (λ r. r.is_success) (some-injective h)))
  retry_later-IsRefusal terminate delay r h = ground arith

  default_error-IsRefusal :
      (hook : Hook) (code : ℕ) (payload : String)
      → (code / 100 == 2) ≡ false
      → IsRefusal code (default_error hook code payload)
  default_error-IsRefusal prepare code payload e r h = (
    sym (ap (λ r. r.code) (some-injective h)),
    ap (λ r. r.is_success) (sym (some-injective h)) ∙ e,
  )
  default_error-IsRefusal ready code payload e r h = (
    sym (ap (λ r. r.code) (some-injective h)),
    ap (λ r. r.is_success) (sym (some-injective h)) ∙ e,
  )
  default_error-IsRefusal terminate code payload e r h = (
    sym (ap (λ r. r.code) (some-injective h)),
    ap (λ r. r.is_success) (sym (some-injective h)) ∙ e,
  )

  if-IsRefusal :
      (b : Bool) (n : ℕ) (x y : Error)
      → IsRefusal n x
      → IsRefusal n y
      → IsRefusal n (if b then x else y)
  if-IsRefusal true n x y h k = h
  if-IsRefusal false n x y h k = k

  retry_error-IsRefusal :
      (hook : Hook) (header : String) (delay : Option ℤ)
      → IsRefusal 425 (retry_error env hook header delay)
  unfolding retry_error
  retry_error-IsRefusal hook header none r h = ground arith
  retry_error-IsRefusal hook header (some delay) r h = retry_later-IsRefusal hook delay r h

  read_status_425-IsRefusal :
      (hook : Hook) (response : Response) → IsRefusal 425 (read_status_425 env hook response)
  unfolding read_status_425
  read_status_425-IsRefusal hook response =
      if-IsRefusal (str_eq response.retry_after "") 425 (retry_later hook (pos 0))
        (retry_error env hook response.retry_after (env.convert_int64 response.retry_after))
        (retry_later-IsRefusal hook (pos 0))
        (retry_error-IsRefusal hook response.retry_after (env.convert_int64 response.retry_after))

  read_default-IsRefusal :
      (hook : Hook) (response : Response) (w : env.World) {e : Error} (w' : env.World)
      → ConsumerErrors
      → read_default env hook response w ≡ (err e, w')
      → IsRefusal response.status_code e
  unfolding read_default
  read_default-IsRefusal hook response w {e = e} w' consumer h =
      elim (Result-cases (env.consume_error response w).0) [
        | inl (payload, read) ↦ elim (Bool-cases (response.status_code / 100 == 2)) [
          | inl is_2XX ↦ absurd (ground arith)
          | inr not_2XX ↦
              let same : e ≡ default_error hook response.status_code payload = ground arith in
              subst (IsRefusal response.status_code) (sym same)
                (default_error-IsRefusal hook response.status_code payload not_2XX)
        ]
        | inr (e', failed) ↦
            let same : e' ≡ e = ground arith in
            let none_of =
              consumer response w e (env.consume_error response w).1
                (λ i. ((failed ∙ ap err same) i, (env.consume_error response w).1)) in
            λ r k. absurd (none-some (sym none_of ∙ k))
      ]

  read_response-IsRefusal :
      (hook : Hook) (response : Response) (w : env.World) {e : Error} {w' : env.World}
      → ConsumerErrors
      → read_response env hook response w ≡ (err e, w')
      → IsRefusal response.status_code e
  unfolding read_prepare_response read_ready_response read_terminate_response
  read_response-IsRefusal prepare response w {e = e} {w' = w'} consumer h =
      elim (Bool-cases (response.status_code == 200)) [
        | inl is_200 ↦ absurd (ground arith)
        | inr not_200 ↦ elim (Bool-cases (response.status_code == 424)) [
          | inl is_424 ↦
              at_code response.status_code 424 e (failed_dependency prepare) (ground arith)
                (ground arith) failed_dependency-IsRefusal
          | inr not_424 ↦ elim (Bool-cases (response.status_code == 425)) [
            | inl is_425 ↦
                at_code response.status_code 425 e (read_status_425 env prepare response)
                  (ground arith) (ground arith) (read_status_425-IsRefusal prepare response)
            | inr not_425 ↦ read_default-IsRefusal prepare response w w' consumer (ground arith)
          ]
        ]
      ]
  read_response-IsRefusal ready response w {e = e} {w' = w'} consumer h =
      elim (Bool-cases (response.status_code == 200)) [
        | inl is_200 ↦ absurd (ground arith)
        | inr not_200 ↦ elim (Bool-cases (response.status_code == 425)) [
          | inl is_425 ↦
              at_code response.status_code 425 e (read_status_425 env ready response) (ground arith)
                (ground arith) (read_status_425-IsRefusal ready response)
          | inr not_425 ↦ read_default-IsRefusal ready response w w' consumer (ground arith)
        ]
      ]
  read_response-IsRefusal terminate response w {e = e} {w' = w'} consumer h =
      elim (Bool-cases (response.status_code == 200)) [
        | inl is_200 ↦ absurd (ground arith)
        | inr not_200 ↦ read_default-IsRefusal terminate response w w' consumer (ground arith)
      ]

  -- If a reader returns an error that is a response value, the value has the code of the reply, its
  -- methods agree with that code, it is no success, and its text is that of the error. Condition:
  -- an error of the reader of bodies is none.
  pub read_response-refused :
      (hook : Hook) (response : Response) (w : env.World) {e : Error} {w' : env.World} {r : Reply}
      → ConsumerErrors
      → read_response env hook response w ≡ (err e, w')
      → reply_of_error e ≡ some r
      → (r.code ≡ response.status_code)
        × (r.is_success ≡ false)
        × IsClassified r
        × (r.error ≡ error_text env e)
  read_response-refused hook response w {e = e} {r = r} consumer h k =
      let (code, no_success) = read_response-IsRefusal hook response w consumer h r k in
      (code, no_success, reply_of_error-IsClassified e k, sym (error_text-reply env e k))
