-- ===== src/Plans/Change.antt =====
-- The types of internal/plan/plan.go. A `map[string]interface{}` is a list of fields, in the order in
-- which Go runs through it.
use ia_cstudio.Prelude.{ℕ, String, Bool, List, Option}

-- a decoded JSON value
mutual
  pub data Value : Type 0 where
    null : Value
    bool : Bool → Value
    number : String → Value
    text : String → Value
    array : Items → Value
    object : Fields → Value

  pub data Items : Type 0 where
    nil : Items
    item : Value → Items → Items

  pub data Fields : Type 0 where
    end : Fields
    field : String → Value → Fields → Fields

-- no value: `nil`, or a field that is left at its zero value
pub record FieldChange : Type 0 where
  pub path : String
  pub old_value : Option Value
  pub new_value : Option Value
  pub sensitive : Bool
  pub computed : Bool

-- no fields: a nil map
pub record ResourceChange : Type 0 where
  pub address : String
  pub resource_type : String
  pub name : String
  pub provider : String
  pub action : String
  pub action_reason : String
  pub before : Option Fields
  pub after : Option Fields
  pub field_changes : List FieldChange

pub record PlanSummary : Type 0 where
  pub add : ℕ
  pub change : ℕ
  pub destroy : ℕ
  pub imported : ℕ
  pub no_op : ℕ
  pub total : ℕ

pub record PlanResult : Type 0 where
  pub changes : List ResourceChange
  pub summary : PlanSummary
  pub warnings : List String
  pub errors : List String
  pub has_changes : Bool
  pub requires_approval : Bool
