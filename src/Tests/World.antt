-- ===== src/Tests/World.antt =====
-- An environment that is a value: a clock that moves at each look, fixed lists of objects, and a
-- record of what is written.
use node_disruption_controll.Prelude.{
  ℕ, String, Bool, not, ◌&&◌, Option, none, some, List, [], ◌∷◌, ◌++◌, length, contains, keep_if,
  all, map, str_eq, ◌==◌, if◌then◌else◌, itoa,
}
use node_disruption_controll.Prelude.Int.{pos}
use node_disruption_controll.Api.{
  LabelSelector, NodeDisruption, ApplicationDisruptionBudget, NodeDisruptionBudget,
}
use node_disruption_controll.Api.Objects.{Node, Pod, PersistentVolumeClaim, PersistentVolume}
use node_disruption_controll.Metrics.{MetricUpdate}
use node_disruption_controll.Client.{Env}
use node_disruption_controll.Client.Monad.{not_found, Result, ok, err}
use node_disruption_controll.Tests.Sets.{list_sets}

pub record Cluster : Type 0 where
  pub nodes : List String
  pub pods : List Pod
  pub claims : List PersistentVolumeClaim
  pub volumes : List PersistentVolume
  pub disruptions : List NodeDisruption
  pub adbs : List ApplicationDisruptionBudget
  pub ndbs : List NodeDisruptionBudget
  pub hook_status : ℕ
  pub now : ℕ

pub record Journal : Type 0 where
  pub metrics : List MetricUpdate
  pub stored : List NodeDisruption
  pub requests : List String

abbrev pub start : Journal
start = record { metrics = []; stored = []; requests = [] }

-- A selector lists, as its labels' values, the nodes that it matches.
abbrev is_empty : LabelSelector → Bool
is_empty s = (length s.match_labels == 0) && (length s.match_expressions == 0)

abbrev names : LabelSelector → List String
names s = map (λ (p : String × String). p.1) s.match_labels

abbrev find {ℓ} : {A : Type ℓ} → (A → Bool) → List A → Result A
find p [] = err (not_found "not found")
find p (x ∷ xs) = if p x then ok x else find p xs

abbrev selected : Option LabelSelector → List String → List Node
selected none nodes = map (λ n. record { name = n }) nodes
selected (some s) nodes = map (λ n. record { name = n }) (keep_if (contains (names s)) nodes)

abbrev pub env_of : Cluster → Env
env_of c = record {
  World = Journal;
  sets = list_sets;
  Selector = LabelSelector;
  Requirement = String;
  FieldSelector = String;
  label_selector_as_selector = λ s. ok s;
  selector_empty = is_empty;
  selector_matches = λ s labels. all (λ (p : String × String). contains (names s) p.1) labels;
  new_requirement = λ key op values. ok key;
  requirement_string = λ r. r;
  selector_of = λ rs. record { match_labels = map (λ r. (r, r)) rs; match_expressions = [] };
  labels_everything = record { match_labels = []; match_expressions = [] };
  labels_nothing = record { match_labels = ("", "") ∷ []; match_expressions = [] };
  parse_field_selector = λ t. ok t;
  field_selector_empty = λ t. str_eq t "";
  fields_everything = "";
  fields_nothing = "nothing";
  now = λ w. (c.now, w);
  format_time = itoa;
  get_node_disruption =
      λ name w. (find (λ (nd : NodeDisruption). str_eq nd.meta.name name) c.disruptions, w);
  get_adb =
      λ ns name w. (find (λ (b : ApplicationDisruptionBudget). str_eq b.meta.name name) c.adbs, w);
  get_ndb = λ ns name w. (find (λ (b : NodeDisruptionBudget). str_eq b.meta.name name) c.ndbs, w);
  get_persistent_volume =
      λ name w. (find (λ (v : PersistentVolume). str_eq v.name name) c.volumes, w);
  list_nodes = λ s f w. (ok (selected s c.nodes), w);
  list_pods = λ ns s w. (ok c.pods, w);
  list_pvcs = λ ns s w. (ok c.claims, w);
  list_node_disruptions = λ w. (ok c.disruptions, w);
  list_adbs = λ ns w. (ok c.adbs, w);
  list_ndbs = λ ns w. (ok c.ndbs, w);
  contains_finalizer = contains;
  add_finalizer = λ fs f. fs ++ (f ∷ []);
  remove_finalizer = λ fs f. (keep_if (λ x. not (str_eq x f)) fs, contains fs f);
  update_node_disruption = λ nd w. (ok nd, record w { stored = nd ∷ w.stored });
  update_adb = λ b w. (ok b, w);
  update_ndb = λ b w. (ok b, w);
  update_node_disruption_status = λ nd w. (ok tt, record w { stored = nd ∷ w.stored });
  update_adb_status = λ b w. (ok tt, w);
  update_ndb_status = λ b w. (ok tt, w);
  marshal = λ nd. ok nd.meta.name;
  new_post_request = λ url. ok tt;
  post = λ url body timeout w. (
    ok (record { status_code = c.hook_status; retry_after = "" }),
    record w { requests = url ∷ w.requests },
  );
  read_body = λ response w. (ok "", w);
  parse_url = λ t. ok (record { host = t; path = ""; scheme = "https" });
  submit = λ url path body timeout w. (
    ok (record { status_code = c.hook_status; retry_after = "" }),
    record w { requests = path ∷ w.requests },
  );
  consume_error = λ response w. (ok "", w);
  convert_int64 = λ t. some (pos 1);
  quote = λ t. t;
  invalid_header = λ t. t;
  api_error_text = λ t code. t;
  update_metric = λ u w. record w { metrics = u ∷ w.metrics };
}
