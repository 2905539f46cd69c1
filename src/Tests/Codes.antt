-- ===== src/Tests/Codes.antt =====
-- Replies by their codes, the parameters of a request, and the flags of disruption types.
use node_disruption_controll.Prelude.{
  ℕ, true, false, Option, none, some, [], ◌∷◌, ◌≡◌, refl, arith, str_eq,
}
use node_disruption_controll.Prelude.Int.{ℤ, pos, negsuc}
use node_disruption_controll.Prelude.Float.{duration_seconds}
use node_disruption_controll.Client.{Response, HookBody}
use node_disruption_controll.Client.Monad.{prepare, terminate, default_error, ok}
use node_disruption_controll.Resolver.Selectors.{join}
use node_disruption_controll.AppManager.{
  accepted, read_prepare_response, read_terminate_response, read_default, error_text,
}
use node_disruption_controll.AppManager.Responses.{
  prepare_application_ok, terminate_disruption_default,
}
use node_disruption_controll.AppManager.Replies.{IsClassified, read_response-success}
use node_disruption_controll.AppManager.Refused.{ConsumerErrors, read_response-refused}
use node_disruption_controll.AppManager.Parameters.{Transport, Params}
use node_disruption_controll.Controllers.Startup.{split_types}
use node_disruption_controll.Controllers.Splitting.{split_types-join, split_types-spelled}
use node_disruption_controll.Tests.World.{start, env_of}
use node_disruption_controll.Tests.Fixtures.{cluster}

abbrev reply : ℕ → Response
reply code = record { status_code = code; retry_after = "" }

read_response-success_example :
    (prepare_application_ok.code ≡ 200)
    × (prepare_application_ok.is_success ≡ true)
    × IsClassified prepare_application_ok
unfolding read_prepare_response
read_response-success_example =
    read_response-success (env_of cluster) prepare (reply 200) start {s = accepted} {w' = start}
      refl

no_errors : ConsumerErrors (env_of cluster)
no_errors response w e w' h = ground arith

read_response-refused_example :
    ((terminate_disruption_default 503 "").code ≡ 503)
    × ((terminate_disruption_default 503 "").is_success ≡ false)
    × IsClassified (terminate_disruption_default 503 "")
    × ((terminate_disruption_default 503 "").error
        ≡ error_text (env_of cluster) (default_error terminate 503 ""))
unfolding read_terminate_response read_default
read_response-refused_example =
    read_response-refused (env_of cluster) terminate (reply 503) start
      {e = default_error terminate 503 ""} {w' = start} {r = terminate_disruption_default 503 ""}
      no_errors refl refl

-- A request as what has been written to it.
abbrev transport : Transport
transport = record {
  Request = ℤ × Option HookBody;
  Context = Unit;
  HttpClient = Unit;
  set_timeout = λ timeout r. (ok tt, (timeout, r.1));
  set_body_param = λ body r. (ok tt, (r.0, some body));
  default_timeout = pos 30;
}

abbrev body : HookBody
body = record {
  uid = "1";
  name = "second";
  creation_date = 0;
  start_date = 0;
  duration = pos 0;
  deadline_date = 0;
  created_by = "";
  type_name = "drain";
  nodes = "n2" ∷ [];
}

abbrev empty_params : Params transport
empty_params = record { body = none; timeout = pos 0; context = none; http_client = none }

split_types-join_example :
    split_types (join ("drain" ∷ "reboot" ∷ []) ",") ≡ "drain" ∷ "reboot" ∷ []
unfolding str_eq
split_types-join_example =
    split_types-join ("drain" ∷ "reboot" ∷ []) ((refl, refl), ((refl, refl), tt))

split_types-spelled_example : split_types ",drain,,reboot,own" ≡ "drain" ∷ "reboot" ∷ "own" ∷ []
unfolding str_eq
split_types-spelled_example =
    split_types-spelled 1 (("drain", 1) ∷ ("reboot", 0) ∷ []) "own"
      ((refl, refl), ((refl, refl), tt)) refl

-- The fraction of a duration is cut off, but for one that the sum in `float64` rounds away.
duration_seconds-cut : duration_seconds (pos 16_777_216_999_999_998) ≡ pos 16_777_216
unfolding duration_seconds
duration_seconds-cut = refl

duration_seconds-rounded : duration_seconds (negsuc 16_777_216_999_999_998) ≡ negsuc 16_777_216
unfolding duration_seconds
duration_seconds-rounded = refl
