-- ===== src/Controllers/Types.antt =====
-- The check of the disruption types at the start of the program.
use node_disruption_controll.Prelude.{
  String, true, false, Bool-cases, inl, inr, none, some, List, [], ◌∷◌, ◌≡◌, refl, arith, all,
  contains, length, ◌<◌,
}
use node_disruption_controll.Controllers.Startup.{
  split_types, find_foreign, Flags, Startup, configure,
}

find_foreign-none :
    (allowed defaults : List String)
    → find_foreign allowed defaults ≡ none
    → all (contains allowed) defaults ≡ true
unfolding find_foreign
find_foreign-none allowed [] h = refl
find_foreign-none allowed (t ∷ ts) h = ground (arith, find_foreign-none allowed ts)

find_foreign-some :
    (allowed defaults : List String)
    → all (contains allowed) defaults ≡ false
    → (t : String) × (find_foreign allowed defaults ≡ some t)
unfolding find_foreign
find_foreign-some allowed [] h = absurd (ground arith)
find_foreign-some allowed (t ∷ ts) h = elim (Bool-cases (contains allowed t)) [
  | inl there ↦ let (u, found) = find_foreign-some allowed ts (ground arith) in (u, ground arith)
  | inr absent ↦ (t, ground arith)
]

-- A default type that is not allowed refuses the configuration.
pub configure-refused :
    (flags : Flags)
    → 0 < length (split_types flags.node_disruption_types)
    → all
        (contains (split_types flags.node_disruption_types))
        (split_types flags.default_node_disruption_types)
      ≡ false
    → configure flags ≡ none
unfolding configure
configure-refused flags n h =
    let (t, found) =
      find_foreign-some (split_types flags.node_disruption_types)
        (split_types flags.default_node_disruption_types) h in
    ground arith

-- If the program starts with a list of allowed types that is not empty, all default types are
-- among them, and both lists are what the flags spell, cut at the commas.
pub configure-defaults_allowed :
    (flags : Flags) {started : Startup}
    → configure flags ≡ some started
    → 0 < length started.config.node_disruption_types
    → (all (contains started.config.node_disruption_types) started.default_types ≡ true)
      × (started.config.node_disruption_types ≡ split_types flags.node_disruption_types)
      × (started.default_types ≡ split_types flags.default_node_disruption_types)
unfolding configure
configure-defaults_allowed flags h n =
    let check =
      find_foreign-none (split_types flags.node_disruption_types)
        (split_types flags.default_node_disruption_types) in
    ground arith
