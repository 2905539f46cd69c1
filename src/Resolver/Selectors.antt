-- ===== src/Resolver/Selectors.antt =====
-- `NodeLabelSelectorAsRequirement` and `NodeSelectorAsSelector`.
use node_disruption_controll.Prelude.{String, ◌<>◌, Option, none, some, List, [], ◌∷◌, ◌++◌, map}
use node_disruption_controll.Api.Objects.{
  NodeSelectorOperator, op_in, op_not_in, op_exists, op_does_not_exist, op_other,
  NodeSelectorRequirement, NodeSelectorTerm, SelectionOperator, sel_in, sel_not_in, sel_exists,
  sel_does_not_exist,
}
use node_disruption_controll.Client.{Env}
use node_disruption_controll.Client.Monad.{Result, ok, err, failure}

-- `strings.Join`
unfoldable pub join : List String → String → String
join [] separator = ""
join (t ∷ []) separator = t
join (t ∷ u ∷ ts) separator = t <> (separator <> join (u ∷ ts) separator)

-- A fallible step that touches nothing outside.
infixl 5 ◌>>=◌
abbrev ◌>>=◌ : {A B : Type 0} → Result A → (A → Result B) → Result B
ok a >>= f = f a
err e >>= f = err e

module _ (env : Env) where
  selection_operator : NodeSelectorOperator → Result SelectionOperator
  selection_operator op_in = ok sel_in
  selection_operator op_not_in = ok sel_not_in
  selection_operator op_exists = ok sel_exists
  selection_operator op_does_not_exist = ok sel_does_not_exist
  selection_operator (op_other t) =
      err (failure (env.quote t <> " is not a valid label selector operator"))

  node_label_selector_as_requirement : NodeSelectorRequirement → Result env.Requirement
  unfolding selection_operator
  node_label_selector_as_requirement expr = do
    op ← selection_operator expr.operator
    env.new_requirement expr.key op expr.values

  -- One of the two inner loops.
  requirements : List NodeSelectorRequirement → Result (List env.Requirement)
  unfolding node_label_selector_as_requirement
  requirements [] = ok []
  requirements (expr ∷ exprs) = do
    r ← node_label_selector_as_requirement expr
    rs ← requirements exprs
    ok (r ∷ rs)

  -- The outer loop: the requirements on labels, and those on fields, of all the terms.
  collect_requirements :
      List NodeSelectorTerm → Result (List env.Requirement × List env.Requirement)
  unfolding requirements
  collect_requirements [] = ok ([], [])
  collect_requirements (term ∷ terms) = do
    labels ← requirements term.match_expressions
    fields ← requirements term.match_fields
    rest ← collect_requirements terms
    ok (labels ++ rest.0, fields ++ rest.1)

  -- The selectors made of what the loops have collected.
  selectors_of :
      List env.Requirement × List env.Requirement → Result (env.Selector × env.FieldSelector)
  unfolding join
  selectors_of (labels, fields) = do
    field_selector ← env.parse_field_selector (join (map env.requirement_string fields) ",")
    ok (env.selector_of labels, field_selector)

  -- `none` is the nil pointer.
  unfoldable pub node_selector_as_selector :
      Option (List NodeSelectorTerm) → Result (env.Selector × env.FieldSelector)
  unfolding collect_requirements selectors_of
  node_selector_as_selector none = ok (env.labels_nothing, env.fields_nothing)
  node_selector_as_selector (some []) = ok (env.labels_everything, env.fields_everything)
  node_selector_as_selector (some (term ∷ terms)) = do
    collected ← collect_requirements (term ∷ terms)
    selectors_of collected
