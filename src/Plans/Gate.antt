-- ===== src/Plans/Gate.antt =====
-- internal/api/plan_gate.go: the latest plan of each project, which a mutating command must present
-- and consumes. Times are nanoseconds; the zero time is 0. The hash (SHA-256 in hexadecimal), the
-- printing of times and the joining of paths are parameters; the files of a saved plan, as they are at
-- a recording, are an argument.
pub mod Spec
pub mod History
mod Tests
use Prim.Native.Char.{Char, code}
use ia_cstudio.Prelude.{
  ℕ, ◌+◌, ◌-◌, ◌*◌, String, ◌<>◌, Bool, true, false, not, ◌&&◌, ◌||◌, List, [], ◌∷◌, ◌++◌, Option,
  none, some, if◌then◌else◌, ◌==◌, eqb, leb, ltb, entry, assign, erase,
}
use ia_cstudio.Text.Trim.{trim_space}
use ia_cstudio.Routing.Binding.{bytes}

abbrev pub plan_gate_ttl : ℕ
plan_gate_ttl = 60 * 60 * 1000000000

abbrev pub saved_terraform_plan_file : String
saved_terraform_plan_file = "tfplan"

abbrev pub saved_plan_json_file : String
saved_plan_json_file = "tfplan.json"

pub record PlanReference : Type 0 where
  pub hash : String
  pub tool : String
  pub env : String
  pub connection_id : String
  pub plan_command : String
  pub created_at : String
  pub expires_at : String

pub record PlanRecord : Type 0 where
  pub reference : PlanReference
  pub created_at : ℕ

-- `planGate.plans`
abbrev pub Plans : Type 0
Plans = List (String × PlanRecord)

pub record Rejection : Type 0 where
  pub error : String
  pub detail : String

abbrev pub plan_required : Rejection
plan_required = record {
  error = "plan_required";
  detail =
      "run plan first; no current saved plan exists for this project, environment, and connection";
}

abbrev pub plan_mismatch : Rejection
plan_mismatch = record {
  error = "plan_hash_mismatch";
  detail =
      "saved plan does not match the requested tool, environment, connection, or command; rerun plan";
}

abbrev pub plan_hash_required : Rejection
plan_hash_required = record {
  error = "plan_hash_required";
  detail =
      "saved plan exists, but apply requires the exact plan_hash returned by the latest plan run";
}

abbrev pub plan_hash_mismatch : Rejection
plan_hash_mismatch = record {
  error = "plan_hash_mismatch";
  detail = "submitted plan_hash does not match the latest saved plan; rerun plan";
}

unfoldable pub invalidate_plan : Plans → List String → Plans
invalidate_plan plans [] = plans
invalidate_plan plans (project_path ∷ project_paths) =
    invalidate_plan (erase plans project_path) project_paths

unfoldable pub command_produces_plan : String → Bool
command_produces_plan command = command == "plan" || command == "preview" || command == "check"

unfoldable pub plan_command_allows_mutation : String → String → String → Bool
unfolding command_produces_plan
plan_command_allows_mutation tool plan_command mutation_command =
    if tool == "ansible"
    then plan_command == "check" && (mutation_command == "apply" || mutation_command == "playbook")
    else if tool == "pulumi"
    then (plan_command == "plan" || plan_command == "preview")
      && (mutation_command == "apply"
          || mutation_command == "up"
          || mutation_command == "destroy"
          || mutation_command == "refresh")
    else if tool == "terraform" || tool == "opentofu"
    then plan_command == "plan" && (mutation_command == "apply" || mutation_command == "destroy")
    else command_produces_plan plan_command

-- the bytes that `writeHashField` writes
unfoldable pub hash_field : String → List ℕ
hash_field value = bytes value ++ 0 ∷ []

-- the bytes of a saved plan file; one that cannot be opened is passed over
unfoldable pub hash_file : String → Option (List ℕ) → List ℕ
unfolding hash_field
hash_file name none = []
hash_file name (some content) = hash_field name ++ content

pub record GateHost : Type 0 where
  pub sha256_hex : List ℕ → String
  pub join : String → String → String
  pub rfc3339 : ℕ → String

-- what is asked for: the arguments of a mutating command
pub record Command : Type 0 where
  pub tool : String
  pub env : String
  pub connection_id : String
  pub command : String

unfoldable pub plan_hash :
    GateHost → (String → Option (List ℕ)) → String → Command → String → String
unfolding hash_field hash_file
plan_hash host files project_path c output = host.sha256_hex (
    hash_field "iac-studio-plan-gate-v1"
    ++ hash_field c.tool
    ++ hash_field c.env
    ++ hash_field c.connection_id
    ++ hash_field c.command
    ++ hash_field output
    ++ hash_file saved_terraform_plan_file
        (files (host.join project_path saved_terraform_plan_file))
    ++ hash_file saved_plan_json_file (files (host.join project_path saved_plan_json_file)))

-- a plan recorded at a time
unfoldable pub plan_reference :
    GateHost → (String → Option (List ℕ)) → String → Command → String → ℕ → PlanReference
unfolding plan_hash
plan_reference host files project_path c output now = record {
  hash = plan_hash host files project_path c output;
  tool = c.tool;
  env = c.env;
  connection_id = c.connection_id;
  plan_command = c.command;
  created_at = host.rfc3339 now;
  expires_at = host.rfc3339 (now + plan_gate_ttl);
}

-- `now` where it is given, else the clock
abbrev pub time_or : ℕ → ℕ → ℕ
time_or now clock = if eqb now 0 then clock else now

unfoldable pub record_command_plan_at :
    GateHost
    → (String → Option (List ℕ))
    → String
    → Command
    → String
    → (now clock : ℕ) → Plans
    → Plans × PlanReference
unfolding plan_reference
record_command_plan_at host files project_path c output now clock plans =
    let at = time_or now clock in
    let ref = plan_reference host files project_path c output at in
    (assign plans project_path (record { reference = ref; created_at = at }), ref)

-- `time.Since(record.createdAt) < planGateTTL`; the subtraction stops at 0 for a time to come
abbrev pub is_current : PlanRecord → ℕ → Bool
is_current plan now = ltb (now - plan.created_at) plan_gate_ttl

unfoldable pub has_plan : String → Plans → ℕ → Bool
has_plan project_path plans now = elim (entry plans project_path) [
  | none ↦ false
  | some plan ↦ is_current plan now
]

-- the plan is for another tool, environment, connection or command
unfoldable pub misfits : PlanReference → Command → Bool
unfolding plan_command_allows_mutation
misfits ref c =
    not (ref.tool == c.tool)
    || not (ref.env == c.env)
    || not (ref.connection_id == c.connection_id)
    || not (plan_command_allows_mutation c.tool ref.plan_command c.command)

-- the checks of a plan that was found
unfoldable pub check_plan :
    Command → String → PlanRecord → ℕ → Option PlanReference × Option Rejection
unfolding misfits
check_plan c provided_hash plan now =
    let ref = plan.reference in
    if not (is_current plan now)
    then (none, some plan_required)
    else if misfits ref c
    then (some ref, some plan_mismatch)
    else if trim_space provided_hash == ""
    then (some ref, some plan_hash_required)
    else if not (trim_space provided_hash == ref.hash)
    then (some ref, some plan_hash_mismatch)
    else (some ref, none)

-- `validatePlanForCommand`
unfoldable pub validate_plan_for_command :
    String → Command → String → Plans → ℕ → Option PlanReference × Option Rejection
unfolding check_plan
validate_plan_for_command project_path c provided_hash plans now = elim (entry plans project_path) [
  | none ↦ (none, some plan_required)
  | some plan ↦ check_plan c provided_hash plan now
]

-- what a validated plan is consumed with
unfoldable pub consume_validated :
    String
    → Plans
    → Option PlanReference × Option Rejection
    → Plans × (Option PlanReference × Option Rejection)
consume_validated project_path plans (ref, some rejection) = (plans, (none, some rejection))
consume_validated project_path plans (ref, none) = (erase plans project_path, (ref, none))

unfoldable pub consume_plan_for_command :
    String → Command → String → Plans → ℕ → Plans × (Option PlanReference × Option Rejection)
unfolding consume_validated validate_plan_for_command
consume_plan_for_command project_path c provided_hash plans now =
    consume_validated project_path plans
      (validate_plan_for_command project_path c provided_hash plans now)

-- `strings.TrimRight(s, "\n")`
trim_newlines : String → String
trim_newlines String.[] = String.[]
trim_newlines (String.◌∷◌ c s) =
    let rest = trim_newlines s in
    if rest == "" && eqb (code c) 10 then String.[] else String.◌∷◌ c rest

unfoldable pub append_plan_reference_output : String → PlanReference → String
unfolding trim_newlines
append_plan_reference_output output ref =
    let trimmed = trim_newlines output in
    let start = if trimmed == "" then trimmed else trimmed <> "\n\n" in
    start <> "--- Plan Gate ---\nPlan hash: " <> ref.hash <> "\nExpires: " <> ref.expires_at <> "\n"
