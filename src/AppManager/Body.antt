-- ===== src/AppManager/Body.antt =====
-- `Validate` of a request's body (internal/appmgr/disruption.go). The client does not call it: what is
-- sent is not validated.
use node_disruption_controll.Prelude.{
  ℕ, String, Bool, List, [], ◌∷◌, ◌++◌, ◌≡◌, ◌↔◌, refl, arith, if◌then◌else◌,
}
use node_disruption_controll.Client.{HookBody}
use node_disruption_controll.Client.Monad.{Error, Result, ok, err}

-- `swag.IsZero`, and `validate.FormatOf` for the format "date-time" of the text of a date, with the name
-- of its field.
pub record DateFormats : Type 0 where
  pub is_zero : ℕ → Bool
  pub format_of : String → ℕ → Result (Unit {0})

module _ (formats : DateFormats) where
  -- A date that is not given need not have the format.
  abbrev validate_date : String → ℕ → Result (Unit {0})
  validate_date name date = if formats.is_zero date then ok tt else formats.format_of name date

  -- `validateCreationDate`, `validateDeadlineDate` and `validateStartDate`
  abbrev pub validate_creation_date : HookBody → Result (Unit {0})
  validate_creation_date body = validate_date "creationDate" body.creation_date

  abbrev pub validate_deadline_date : HookBody → Result (Unit {0})
  validate_deadline_date body = validate_date "deadlineDate" body.deadline_date

  abbrev pub validate_start_date : HookBody → Result (Unit {0})
  validate_start_date body = validate_date "startDate" body.start_date

  -- `res = append(res, err)`
  abbrev append_error : List Error → Result (Unit {0}) → List Error
  append_error res (ok _) = res
  append_error res (err e) = res ++ (e ∷ [])

  -- `Validate`: the errors of a composite error, in order, none where it returns nil.
  unfoldable pub validate_body : HookBody → List Error
  validate_body body =
      let res₁ = append_error [] (validate_creation_date body) in
      let res₂ = append_error res₁ (validate_deadline_date body) in
      append_error res₂ (validate_start_date body)

  no_errors :
      (first second third : Result (Unit {0}))
      → (append_error (append_error (append_error [] first) second) third ≡ [])
        ↔ ((first ≡ ok tt) × (second ≡ ok tt) × (third ≡ ok tt))
  no_errors (ok _) (ok _) (ok _) = ((λ h. (refl, refl, refl)), (λ h. refl))
  no_errors (ok _) (ok _) (err e) =
      ((λ h. absurd (ground arith)), (λ h. absurd (ground (arith, h.2))))
  no_errors (ok _) (err e) (ok _) =
      ((λ h. absurd (ground arith)), (λ h. absurd (ground (arith, h.1))))
  no_errors (ok _) (err e) (err e₂) =
      ((λ h. absurd (ground arith)), (λ h. absurd (ground (arith, h.1))))
  no_errors (err e) (ok _) (ok _) =
      ((λ h. absurd (ground arith)), (λ h. absurd (ground (arith, h.0))))
  no_errors (err e) (ok _) (err e₂) =
      ((λ h. absurd (ground arith)), (λ h. absurd (ground (arith, h.0))))
  no_errors (err e) (err e₂) (ok _) =
      ((λ h. absurd (ground arith)), (λ h. absurd (ground (arith, h.0))))
  no_errors (err e) (err e₂) (err later) =
      ((λ h. absurd (ground arith)), (λ h. absurd (ground (arith, h.0))))

  -- A body is valid if and only if each of its three dates is zero or has the format.
  validate_body-valid :
      (body : HookBody)
      → (validate_body body ≡ []) ↔ (
          (validate_creation_date body ≡ ok tt)
          × (validate_deadline_date body ≡ ok tt)
          × (validate_start_date body ≡ ok tt))
  unfolding validate_body
  validate_body-valid body =
      no_errors (validate_creation_date body) (validate_deadline_date body)
        (validate_start_date body)
