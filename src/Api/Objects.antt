-- ===== src/Api/Objects.antt =====
-- The Kubernetes objects that the resolver reads, with the fields that it reads.
use node_disruption_controll.Prelude.{String, Option, List}

pub record Node : Type 0 where
  pub name : String

pub record Pod : Type 0 where
  pub node_name : String

-- `status.phase` of a claim: the three phases of the API, or any other text.
pub data ClaimPhase : Type 0 where
  bound lost pending : ClaimPhase
  other : String → ClaimPhase

pub record PersistentVolumeClaim : Type 0 where
  pub name : String
  pub phase : ClaimPhase
  pub volume_name : String

-- `NodeSelectorRequirement`: In, NotIn, Exists, DoesNotExist, or another operator (Gt, Lt).
pub data NodeSelectorOperator : Type 0 where
  op_in op_not_in op_exists op_does_not_exist : NodeSelectorOperator
  op_other : String → NodeSelectorOperator

pub record NodeSelectorRequirement : Type 0 where
  pub key : String
  pub operator : NodeSelectorOperator
  pub values : List String

pub record NodeSelectorTerm : Type 0 where
  pub match_expressions : List NodeSelectorRequirement
  pub match_fields : List NodeSelectorRequirement

-- `required` is `none` where `nodeAffinity` or `nodeAffinity.required` is nil.
pub record PersistentVolume : Type 0 where
  pub name : String
  pub required : Option (List NodeSelectorTerm)

-- `selection.Operator`, the four values that are used.
pub data SelectionOperator : Type 0 where
  sel_in sel_not_in sel_exists sel_does_not_exist : SelectionOperator
