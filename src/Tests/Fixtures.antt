-- ===== src/Tests/Fixtures.antt =====
-- The objects of the tests.
use node_disruption_controll.Prelude.{ℕ, String, true, false, List, [], ◌∷◌, map}
use node_disruption_controll.Prelude.Int.{pos}
use node_disruption_controll.Api.{
  NodeDisruptionState, pending, granted, LabelSelector, NodeDisruption, ApplicationDisruptionBudget,
  NodeDisruptionBudget, HookSpec, ObjectMeta,
}
use node_disruption_controll.Api.Slice.{nil, of}
use node_disruption_controll.Disruption.Settings.{Config}
use node_disruption_controll.Tests.World.{Cluster}

abbrev pub selecting : List String → LabelSelector
selecting names = record {
  match_labels = map (λ n. ("kubernetes.io/hostname", n)) names;
  match_expressions = [];
}

abbrev meta_of : String → String → ObjectMeta
meta_of kind name = record {
  kind = kind;
  namespace = "";
  name = name;
  uid = "";
  labels = [];
  creation_timestamp = 1;
  deletion_timestamp = 0;
  finalizers = "node-disruption-controller/terminate-propagation" ∷ [];
}

-- A disruption of type drain, without retries.
abbrev pub disruption : String → NodeDisruptionState → List String → NodeDisruption
disruption name state nodes = record {
  meta = meta_of "NodeDisruption" name;
  spec = record {
    node_selector = selecting nodes;
    start_date = 0;
    do_not_grant_before = 0;
    duration = pos 0;
    retry = record { enabled = false; deadline = 0 };
    type_name = "drain";
  };
  status = record {
    state = state;
    disrupted_disruption_budgets = nil;
    disrupted_nodes = of nodes;
    next_retry_date = 0;
  };
}

abbrev no_hook : HookSpec
no_hook = record { ca_bundle = ""; url = "" }

-- A budget that follows the pods, with the base path of its second hooks.
abbrev pub budget : String → ℕ → String → ApplicationDisruptionBudget
budget name max url = record {
  meta = meta_of "ApplicationDisruptionBudget" name;
  spec = record {
    max_disruptions = pos max;
    pod_selector = selecting ("db" ∷ []);
    pvc_selector = selecting [];
    health_hook = no_hook;
    hook_v2_base_path = record { ca_bundle = ""; url = url };
    supported_node_disruption_types = "drain" ∷ [];
  };
  status = record {
    watched_nodes = nil;
    disruptions_allowed = pos 0;
    current_disruptions = pos 0;
    disruptions = nil;
  };
}

abbrev pub pool_budget : String → ℕ → ℕ → List String → NodeDisruptionBudget
pool_budget name max min nodes = record {
  meta = meta_of "NodeDisruptionBudget" name;
  spec = record {
    max_disrupted_nodes = pos max;
    min_undisrupted_nodes = pos min;
    node_selector = selecting nodes;
    supported_node_disruption_types = "drain" ∷ [];
  };
  status = record {
    watched_nodes = nil;
    disruptions_allowed = pos 0;
    current_disruptions = pos 0;
    disruptions = nil;
  };
}

-- Three nodes; the pods run on the first two, and the first is already disrupted.
abbrev pub cluster : Cluster
cluster = record {
  nodes = "n1" ∷ "n2" ∷ "n3" ∷ [];
  pods = record { node_name = "n1" } ∷ record { node_name = "n2" } ∷ record { node_name = "" } ∷ [];
  claims = [];
  volumes = [];
  disruptions =
      disruption "first" granted ("n1" ∷ []) ∷ disruption "second" pending ("n2" ∷ []) ∷ [];
  adbs = budget "db" 2 "" ∷ [];
  ndbs = pool_budget "pool" 2 1 ("n1" ∷ "n2" ∷ "n3" ∷ []) ∷ [];
  hook_status = 200;
  now = 1000;
}

abbrev pub config : Config
config = record {
  reject_empty_node_disruption = true;
  retry_interval = pos 60;
  reject_overlapping_disruption = false;
  health_hook_timeout = pos 60;
  node_disruption_types = "drain" ∷ "reboot" ∷ [];
}
