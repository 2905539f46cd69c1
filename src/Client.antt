-- ===== src/Client.antt =====
-- What the controller calls and does not implement: the Kubernetes API through controller-runtime's
-- client, label selectors, HTTP, the clock and the Prometheus registry. `World` is the state of all
-- of them, which others change at any time: each call takes it and leaves another.
pub mod Monad
use node_disruption_controll.Prelude.{ℕ, String, Bool, Option, List}
use node_disruption_controll.Prelude.Int.{ℤ}
use node_disruption_controll.Api.{
  LabelSelector, NodeDisruption, ApplicationDisruptionBudget, NodeDisruptionBudget,
}
use node_disruption_controll.Api.Objects.{
  Node, Pod, PersistentVolumeClaim, PersistentVolume, SelectionOperator,
}
use node_disruption_controll.NodeSet.{SetLibrary}
use node_disruption_controll.Metrics.{MetricUpdate}
use Monad.{Result, Action}

-- `*url.URL`, with the parts that are used.
pub record Url : Type 0 where
  pub host : String
  pub path : String
  pub scheme : String

-- A reply to a hook, before its body is read. A header that is missing is the empty text.
pub record Response : Type 0 where
  pub status_code : ℕ
  pub retry_after : String

-- `appmgr.Disruption`, the body of a request to an application manager. Dates are instants.
pub record HookBody : Type 0 where
  pub uid : String
  pub name : String
  pub creation_date : ℕ
  pub start_date : ℕ
  pub duration : ℤ
  pub deadline_date : ℕ
  pub created_by : String
  pub type_name : String
  pub nodes : List String

pub record Env : Type 1 where
  pub World : Type 0
  pub sets : SetLibrary
  -- `labels.Selector`, `labels.Requirement` and `fields.Selector`
  pub Selector : Type 0
  pub Requirement : Type 0
  pub FieldSelector : Type 0
  pub label_selector_as_selector : LabelSelector → Result Selector
  pub selector_empty : Selector → Bool
  pub selector_matches : Selector → List (String × String) → Bool
  pub new_requirement : String → SelectionOperator → List String → Result Requirement
  pub requirement_string : Requirement → String
  pub selector_of : List Requirement → Selector
  pub labels_everything : Selector
  pub labels_nothing : Selector
  pub parse_field_selector : String → Result FieldSelector
  pub field_selector_empty : FieldSelector → Bool
  pub fields_everything : FieldSelector
  pub fields_nothing : FieldSelector
  -- `time.Now()`, and the text of a `metav1.Time`
  pub now : World → ℕ × World
  pub format_time : ℕ → String
  -- reads; a namespace or a selector that is `none` is an option not given
  pub get_node_disruption : String → Action World NodeDisruption
  pub get_adb : String → String → Action World ApplicationDisruptionBudget
  pub get_ndb : String → String → Action World NodeDisruptionBudget
  pub get_persistent_volume : String → Action World PersistentVolume
  pub list_nodes : Option Selector → Option FieldSelector → Action World (List Node)
  pub list_pods : String → Selector → Action World (List Pod)
  pub list_pvcs : String → Selector → Action World (List PersistentVolumeClaim)
  pub list_node_disruptions : Action World (List NodeDisruption)
  pub list_adbs : Option String → Action World (List ApplicationDisruptionBudget)
  pub list_ndbs : Option String → Action World (List NodeDisruptionBudget)
  -- `ContainsFinalizer`, `AddFinalizer` and `RemoveFinalizer` of controllerutil; the last also says
  -- whether it has removed one
  pub contains_finalizer : List String → String → Bool
  pub add_finalizer : List String → String → List String
  pub remove_finalizer : List String → String → List String × Bool
  -- writes; an update returns the object as the server has stored it
  pub update_node_disruption : NodeDisruption → Action World NodeDisruption
  pub update_adb : ApplicationDisruptionBudget → Action World ApplicationDisruptionBudget
  pub update_ndb : NodeDisruptionBudget → Action World NodeDisruptionBudget
  pub update_node_disruption_status : NodeDisruption → Action World (Unit {0})
  pub update_adb_status : ApplicationDisruptionBudget → Action World (Unit {0})
  pub update_ndb_status : NodeDisruptionBudget → Action World (Unit {0})
  -- HTTP: `json.Marshal`, `http.NewRequestWithContext`, `client.Do`, `io.ReadAll`, `url.Parse`,
  -- the transport of the application manager's client (base URL, path, body, timeout), its reader
  -- of a body (the payload's JSON text), and `swag.ConvertInt64`
  pub marshal : NodeDisruption → Result String
  pub new_post_request : String → Result (Unit {0})
  pub post : String → String → ℤ → Action World Response
  pub read_body : Response → Action World String
  pub parse_url : String → Result Url
  pub submit : Url → String → HookBody → ℤ → Action World Response
  pub consume_error : Response → Action World String
  pub convert_int64 : String → Option ℤ
  -- `strconv.Quote`, and the texts of `errors.InvalidType` and of a `runtime.APIError`
  pub quote : String → String
  pub invalid_header : String → String
  pub api_error_text : String → ℕ → String
  -- the registry
  pub update_metric : MetricUpdate → World → World
