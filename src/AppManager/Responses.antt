-- ===== src/AppManager/Responses.antt =====
-- The values that the generated client makes of replies (internal/appmgrcli/disruption, the types of
-- *_responses.go): what the methods of each return. A default response's payload is its JSON text.
use node_disruption_controll.Prelude.{ℕ, ◌/◌, String, ◌<>◌, Bool, true, false, ◌==◌, itoa}
use node_disruption_controll.Prelude.Int.{ℤ}

-- The methods of a response value.
pub record Reply : Type 0 where
  pub is_success : Bool
  pub is_redirect : Bool
  pub is_client_error : Bool
  pub is_server_error : Bool
  pub is_code : ℕ → Bool
  pub code : ℕ
  pub error : String
  pub string : String

-- `PrepareApplicationOK`
abbrev pub prepare_application_ok : Reply
prepare_application_ok = record {
  is_success = true;
  is_redirect = false;
  is_client_error = false;
  is_server_error = false;
  is_code = λ code. code == 200;
  code = 200;
  error = "[POST /prepare][" <> (itoa 200 <> "] prepareApplicationOK");
  string = "[POST /prepare][" <> (itoa 200 <> "] prepareApplicationOK");
}

-- `PrepareApplicationFailedDependency`
abbrev pub prepare_application_failed_dependency : Reply
prepare_application_failed_dependency = record {
  is_success = false;
  is_redirect = false;
  is_client_error = true;
  is_server_error = false;
  is_code = λ code. code == 424;
  code = 424;
  error = "[POST /prepare][" <> (itoa 424 <> "] prepareApplicationFailedDependency");
  string = "[POST /prepare][" <> (itoa 424 <> "] prepareApplicationFailedDependency");
}

-- `PrepareApplicationStatus425`, with its `RetryAfter`
abbrev pub prepare_application_status_425 : ℤ → Reply
prepare_application_status_425 retry_after = record {
  is_success = false;
  is_redirect = false;
  is_client_error = true;
  is_server_error = false;
  is_code = λ code. code == 425;
  code = 425;
  error = "[POST /prepare][" <> (itoa 425 <> "] prepareApplicationStatus425");
  string = "[POST /prepare][" <> (itoa 425 <> "] prepareApplicationStatus425");
}

-- `PrepareApplicationDefault`
abbrev pub prepare_application_default : ℕ → String → Reply
prepare_application_default status_code payload = record {
  is_success = status_code / 100 == 2;
  is_redirect = status_code / 100 == 3;
  is_client_error = status_code / 100 == 4;
  is_server_error = status_code / 100 == 5;
  is_code = λ code. status_code == code;
  code = status_code;
  error = "[POST /prepare][" <> (itoa status_code <> ("] prepareApplication default " <> payload));
  string = "[POST /prepare][" <> (itoa status_code <> ("] prepareApplication default " <> payload));
}

-- `CheckReadinessOK`
abbrev pub check_readiness_ok : Reply
check_readiness_ok = record {
  is_success = true;
  is_redirect = false;
  is_client_error = false;
  is_server_error = false;
  is_code = λ code. code == 200;
  code = 200;
  error = "[POST /ready][" <> (itoa 200 <> "] checkReadinessOK");
  string = "[POST /ready][" <> (itoa 200 <> "] checkReadinessOK");
}

-- `CheckReadinessStatus425`, with its `RetryAfter`
abbrev pub check_readiness_status_425 : ℤ → Reply
check_readiness_status_425 retry_after = record {
  is_success = false;
  is_redirect = false;
  is_client_error = true;
  is_server_error = false;
  is_code = λ code. code == 425;
  code = 425;
  error = "[POST /ready][" <> (itoa 425 <> "] checkReadinessStatus425");
  string = "[POST /ready][" <> (itoa 425 <> "] checkReadinessStatus425");
}

-- `CheckReadinessDefault`
abbrev pub check_readiness_default : ℕ → String → Reply
check_readiness_default status_code payload = record {
  is_success = status_code / 100 == 2;
  is_redirect = status_code / 100 == 3;
  is_client_error = status_code / 100 == 4;
  is_server_error = status_code / 100 == 5;
  is_code = λ code. status_code == code;
  code = status_code;
  error = "[POST /ready][" <> (itoa status_code <> ("] checkReadiness default " <> payload));
  string = "[POST /ready][" <> (itoa status_code <> ("] checkReadiness default " <> payload));
}

-- `TerminateDisruptionOK`
abbrev pub terminate_disruption_ok : Reply
terminate_disruption_ok = record {
  is_success = true;
  is_redirect = false;
  is_client_error = false;
  is_server_error = false;
  is_code = λ code. code == 200;
  code = 200;
  error = "[POST /terminate][" <> (itoa 200 <> "] terminateDisruptionOK");
  string = "[POST /terminate][" <> (itoa 200 <> "] terminateDisruptionOK");
}

-- `TerminateDisruptionDefault`
abbrev pub terminate_disruption_default : ℕ → String → Reply
terminate_disruption_default status_code payload = record {
  is_success = status_code / 100 == 2;
  is_redirect = status_code / 100 == 3;
  is_client_error = status_code / 100 == 4;
  is_server_error = status_code / 100 == 5;
  is_code = λ code. status_code == code;
  code = status_code;
  error =
      "[POST /terminate][" <> (itoa status_code <> ("] terminateDisruption default " <> payload));
  string =
      "[POST /terminate][" <> (itoa status_code <> ("] terminateDisruption default " <> payload));
}
