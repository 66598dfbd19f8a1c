-- ===== src/Plans/Parse.antt =====
-- `ParseStreamOutput` and `ParseFullPlan` of internal/plan/plan.go. The decoding of JSON into the
-- types of the source and the printing of a value by `%v` are parameters.
pub mod Diff
use ia_cstudio.Prelude.{
  ℕ, ◌+◌, String, ◌<>◌, Bool, true, false, not, ◌&&◌, ◌||◌, List, [], ◌∷◌, ◌++◌, Option, none, some,
  if◌then◌else◌, ◌==◌, ltb, any, Result, ok, err,
}
use ia_cstudio.Text.Trim.{trim_space}
use ia_cstudio.Text.Split.{split}
use ia_cstudio.Plans.Change.{
  Value, Fields, end, field, FieldChange, ResourceChange, PlanSummary, PlanResult,
}

pub record TfChange : Type 0 where
  pub addr : String
  pub resource_type : String
  pub resource_name : String
  pub provider : String
  pub action : String
  pub reason : String

pub record TfDiagnostic : Type 0 where
  pub severity : String
  pub summary : String
  pub detail : String

-- the fields that the parser reads
pub record TfPlanLine : Type 0 where
  pub line_type : String
  pub change : Option TfChange
  pub diagnostic : Option TfDiagnostic

-- a resource change of `terraform show -json`
pub record TfFullResourceChange : Type 0 where
  pub address : String
  pub resource_type : String
  pub name : String
  pub provider : String
  pub actions : List String
  pub before : Option Fields
  pub after : Option Fields

unfoldable pub normalize_action : String → String
normalize_action action = if action == "noop" || action == "no-op" then "no-op" else action

unfoldable pub actions_to_action : List String → String
unfolding normalize_action
actions_to_action (action ∷ []) = normalize_action action
actions_to_action (first ∷ second ∷ []) = "replace"
actions_to_action _ = "unknown"

abbrev pub empty_summary : PlanSummary
empty_summary = record { add = 0; change = 0; destroy = 0; imported = 0; no_op = 0; total = 0 }

abbrev pub empty_result : PlanResult
empty_result = record {
  changes = [];
  summary = empty_summary;
  warnings = [];
  errors = [];
  has_changes = false;
  requires_approval = false;
}

unfoldable pub planned_change : TfChange → ResourceChange
unfolding normalize_action
planned_change c = record {
  address = c.addr;
  resource_type = c.resource_type;
  name = c.resource_name;
  provider = c.provider;
  action = normalize_action c.action;
  action_reason = c.reason;
  before = none;
  after = none;
  field_changes = [];
}

unfoldable pub add_diagnostic : PlanResult → TfDiagnostic → PlanResult
add_diagnostic result d =
    let msg = if d.detail == "" then d.summary else d.summary <> ": " <> d.detail in
    if d.severity == "error"
    then record result { errors = result.errors ++ msg ∷ [] }
    else record result { warnings = result.warnings ++ msg ∷ [] }

abbrev pub add_if_diagnostic : PlanResult → Option TfDiagnostic → PlanResult
unfolding add_diagnostic
add_if_diagnostic result none = result
add_if_diagnostic result (some d) = add_diagnostic result d

-- the `switch` on a decoded line
unfoldable pub read_entry : PlanResult → TfPlanLine → PlanResult
unfolding planned_change add_diagnostic
read_entry result entry = elim entry.change [
  | some c ↦
      if entry.line_type == "planned_change"
      then record result { changes = result.changes ++ planned_change c ∷ [] }
      else add_if_diagnostic result entry.diagnostic
  | none ↦ add_if_diagnostic result entry.diagnostic
]

-- a line that is blank or no JSON is passed over
unfoldable pub read_line : (String → Option TfPlanLine) → PlanResult → String → PlanResult
unfolding read_entry
read_line decode result line =
    if trim_space line == ""
    then result
    else elim (decode (trim_space line)) [ none ↦ result | some entry ↦ read_entry result entry ]

unfoldable pub read_lines : (String → Option TfPlanLine) → PlanResult → List String → PlanResult
unfolding read_line
read_lines decode result [] = result
read_lines decode result (line ∷ lines) = read_lines decode (read_line decode result line) lines

-- the counts of `ParseStreamOutput`
unfoldable pub count_action : PlanSummary → String → PlanSummary
count_action s action =
    if action == "create"
    then record s { add = s.add + 1 }
    else if action == "update"
    then record s { change = s.change + 1 }
    else if action == "delete"
    then record s { destroy = s.destroy + 1 }
    else if action == "replace"
    then record s { destroy = s.destroy + 1; add = s.add + 1 }
    else if action == "read"
    then s
    else record s { no_op = s.no_op + 1 }

-- the counts of `ParseFullPlan`, which leaves out what it does not know
unfoldable pub count_full_action : PlanSummary → String → PlanSummary
count_full_action s action =
    if action == "create"
    then record s { add = s.add + 1 }
    else if action == "update"
    then record s { change = s.change + 1 }
    else if action == "delete"
    then record s { destroy = s.destroy + 1 }
    else if action == "replace"
    then record s { destroy = s.destroy + 1; add = s.add + 1 }
    else s

-- an action that sets `RequiresApproval`
unfoldable pub is_destructive : String → Bool
is_destructive action = action == "delete" || action == "replace"

unfoldable pub count_changes :
    (PlanSummary → String → PlanSummary) → PlanSummary → List ResourceChange → PlanSummary
count_changes count s [] = s
count_changes count s (c ∷ cs) = count_changes count (count s c.action) cs

-- the counts, the total and the flags
unfoldable pub summarize : (PlanSummary → String → PlanSummary) → PlanResult → PlanResult
unfolding count_changes is_destructive
summarize count result =
    let s = count_changes count result.summary result.changes in
    let total = s.add + s.change + s.destroy in
    record result {
      summary = record s { total = total };
      has_changes = ltb 0 total;
      requires_approval =
          result.requires_approval
          || any (λ (c : ResourceChange). is_destructive c.action) result.changes;
    }

unfoldable pub parse_stream_output : (String → Option TfPlanLine) → String → PlanResult
unfolding read_lines summarize count_action
parse_stream_output decode json_lines =
    summarize count_action (read_lines decode empty_result (split b'\n' (trim_space json_lines)))

-- `m[key]`
unfoldable pub field_of : Fields → String → Option Value
field_of end key = none
field_of (field k v fs) key = if k == key then some v else field_of fs key

unfoldable pub path_of : String → String → String
path_of prefix k = if prefix == "" then k else prefix <> "." <> k

abbrev pub changed_field : String → Option Value → Option Value → FieldChange
changed_field path old new = record {
  path = path;
  old_value = old;
  new_value = new;
  sensitive = false;
  computed = false;
}

module _ (sprint : Value → String) where
  -- the loop over `before`
  unfoldable pub diff_before : String → Fields → Fields → List FieldChange
  unfolding field_of path_of
  diff_before prefix end after = []
  diff_before prefix (field k old_val before) after =
      let changes = diff_before prefix before after in
      let path = path_of prefix k in
      elim (field_of after k) [
        | none ↦ changed_field path (some old_val) none ∷ changes
        | some new_val ↦
            if not (sprint old_val == sprint new_val)
            then changed_field path (some old_val) (some new_val) ∷ changes
            else changes
      ]

  -- the loop over `after`: the fields that `before` does not have
  unfoldable pub diff_after : String → Fields → Fields → List FieldChange
  unfolding field_of path_of
  diff_after prefix before end = []
  diff_after prefix before (field k new_val after) =
      let changes = diff_after prefix before after in
      elim (field_of before k) [
        | some old_val ↦ changes
        | none ↦ changed_field (path_of prefix k) none (some new_val) ∷ changes
      ]

  unfoldable pub diff_maps : String → Fields → Fields → List FieldChange
  unfolding diff_before diff_after
  diff_maps prefix before after = diff_before prefix before after ++ diff_after prefix before after

  -- the fields of a new resource
  unfoldable pub added_fields : Fields → List FieldChange
  added_fields end = []
  added_fields (field k v fs) = changed_field k none (some v) ∷ added_fields fs

  unfoldable pub field_changes_of : Option Fields → Option Fields → List FieldChange
  unfolding diff_maps added_fields
  field_changes_of (some before) (some after) = diff_maps "" before after
  field_changes_of none (some after) = added_fields after
  field_changes_of _ none = []

  unfoldable pub full_change : TfFullResourceChange → ResourceChange
  unfolding actions_to_action field_changes_of
  full_change rc = record {
    address = rc.address;
    resource_type = rc.resource_type;
    name = rc.name;
    provider = rc.provider;
    action = actions_to_action rc.actions;
    action_reason = "";
    before = rc.before;
    after = rc.after;
    field_changes = field_changes_of rc.before rc.after;
  }

  unfoldable pub full_changes : List TfFullResourceChange → List ResourceChange
  unfolding full_change
  full_changes [] = []
  full_changes (rc ∷ rcs) = full_change rc ∷ full_changes rcs

  unfoldable pub parse_full_plan :
      (String → Result String (List TfFullResourceChange)) → String → Result String PlanResult
  unfolding full_changes summarize count_full_action
  parse_full_plan decode json_output = elim (decode json_output) [
    | err e ↦ err ("parsing plan JSON: " <> e)
    | ok rcs ↦ ok (summarize count_full_action (record empty_result { changes = full_changes rcs }))
  ]
