-- ===== src/Controllers/Startup.antt =====
-- The options of cmd/main.go that reach the reconcilers: the lists of disruption types, and the check
-- that the default types are among the allowed ones.
use Prim.Native.Char.{code}
use node_disruption_controll.Prelude.{
  String, ◌<>◌, Bool, Option, none, some, List, [], ◌∷◌, length, contains, ◌==◌, str_eq,
  if◌then◌else◌, ltb,
}
use node_disruption_controll.Prelude.Int.{ℤ}
use node_disruption_controll.Disruption.Settings.{Config}

-- A field in progress is put in front of the fields to come, unless it is empty.
abbrev pub close_field : String → List String → List String
close_field field fields = if str_eq field "" then fields else field ∷ fields

-- `strings.FieldsFunc` for the comma: the longest pieces without a comma that are not empty.
unfoldable pub fields_from : String → String → List String
fields_from field String.[] = close_field field []
fields_from field (String.◌∷◌ c s) =
    let at_comma = close_field field (fields_from "" s) in
    let within = fields_from (field <> String.◌∷◌ c String.[]) s in
    if code c == b',' then at_comma else within

unfoldable pub split_types : String → List String
unfolding fields_from
split_types raw = fields_from "" raw

-- The loop over the default types: the first that is not among the allowed ones.
unfoldable pub find_foreign : List String → List String → Option String
find_foreign allowed [] = none
find_foreign allowed (t ∷ ts) =
    let rest = find_foreign allowed ts in if contains allowed t then rest else some t

-- The options that the flags give.
pub record Flags : Type 0 where
  pub reject_empty_node_disruption : Bool
  pub retry_interval : ℤ
  pub reject_overlapping_disruption : Bool
  pub health_hook_timeout : ℤ
  pub node_disruption_types : String
  pub default_node_disruption_types : String

-- What the reconcilers are given: the configuration of the one, and the default types of the others.
pub record Startup : Type 0 where
  pub config : Config
  pub default_types : List String

check_types : List String → List String → Option String
unfolding find_foreign
check_types allowed defaults =
    if ltb 0 (length allowed) then find_foreign allowed defaults else none

-- `none` is the exit with "invalid configuration".
unfoldable pub configure : Flags → Option Startup
unfolding split_types check_types
configure flags =
    let allowed = split_types flags.node_disruption_types in
    let defaults = split_types flags.default_node_disruption_types in
    elim (check_types allowed defaults) [
      | some foreign ↦ none
      | none ↦ some (record {
        config = record {
          reject_empty_node_disruption = flags.reject_empty_node_disruption;
          retry_interval = flags.retry_interval;
          reject_overlapping_disruption = flags.reject_overlapping_disruption;
          health_hook_timeout = flags.health_hook_timeout;
          node_disruption_types = allowed;
        };
        default_types = defaults;
      })
    ]
