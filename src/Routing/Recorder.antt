-- ===== src/Routing/Recorder.antt =====
-- internal/agentrouting/run_recorder.go: an outcome is recorded on its run. The store's operations
-- take the place of its methods, with what other callers do in between; `quote` stands for the verb
-- `%q`, `digest` for the keyed hash.
use ia_cstudio.Prelude.{
  ℕ, String, ◌<>◌, Bool, true, not, ◌&&◌, List, [], ◌∷◌, Option, none, some, if◌then◌else◌, ◌==◌,
  Result, ok, err,
}
use ia_cstudio.Text.Trim.{trim_space}
use ia_cstudio.Runs.Types.{
  Run, Time, Error, LogLevel, ApprovalKind, ApprovalStatus, ApprovalGate, ApprovalBinding,
}
use ia_cstudio.Runs.Gates.{is_approved, new_approval_binding}
use ia_cstudio.Runs.Store
use ia_cstudio.Runs.Store.{Store, Host, find}
use ia_cstudio.Airlock.Types.{ToolRisk, risk_text, same_risk}
use ia_cstudio.Routing.Policy.{Request, valid_request, same_mode}
use ia_cstudio.Routing.Outcome.{Decision, DecisionStatus, DecisionReason, valid_decision}
use ia_cstudio.Routing.Decision.{mode_allows_risk}
use ia_cstudio.Routing.Binding.{mode_text, new_tool_approval_binding, binding_matches, BindingError}
use ia_cstudio.Routing.Route.{reason_text, is_mode_risk_mismatch, is_invalid_request, is_denied}
unfoldable pub use ia_cstudio.Routing.Route.{meanwhile}
pub use ia_cstudio.Routing.Route.{Pause, RouteError, RouteHost, is_allowed, is_approval_required}

-- `validateRunID`
unfoldable pub validate_run_id : String → Option RouteError
validate_run_id run_id =
    if trim_space run_id == ""
    then some RouteError.run_id_required
    else if not (trim_space run_id == run_id)
    then some RouteError.invalid_run_id
    else none

unfoldable pub approval_kind : ToolRisk → Option ApprovalKind
approval_kind ToolRisk.read_only = some ApprovalKind.mcp_network
approval_kind ToolRisk.generate_code = some ApprovalKind.mcp_network
approval_kind ToolRisk.modify_workspace = some ApprovalKind.file_write
approval_kind ToolRisk.cloud_mutation = some ApprovalKind.cloud_write
approval_kind ToolRisk.secret_sensitive = some ApprovalKind.secret_read
approval_kind ToolRisk.destructive = some ApprovalKind.iac_action
approval_kind _ = none

unfoldable pub run_in_scope : Run → Request → Bool
run_in_scope run request =
    run.project == request.project
    && run.provider_id == request.provider_id
    && same_mode run.mode request.mode

-- the checks of `record` on the request and the decision
unfoldable pub check_record : String → Request → Decision → Option RouteError
check_record run_id request decision = elim (validate_run_id run_id) [
  | some e ↦ some e
  | none ↦
      let mode_risk_allowed = mode_allows_risk request.mode request.risk in
      if not (valid_request request)
      then some RouteError.invalid_request
      else if not (valid_decision decision)
      then some RouteError.invalid_decision
      else if is_denied decision.status && is_invalid_request decision.reason
      then some RouteError.invalid_decision
      else if not mode_risk_allowed && not (is_denied decision.status)
      then some RouteError.invalid_request
      else if not mode_risk_allowed && not (is_mode_risk_mismatch decision.reason)
      then some RouteError.invalid_decision
      else if mode_risk_allowed
          && is_denied decision.status
          && is_mode_risk_mismatch decision.reason
      then some RouteError.invalid_decision
      else if is_allowed decision.status && not (same_risk request.risk ToolRisk.read_only)
      then some RouteError.invalid_decision
      else none
]

-- The store's error to the caller: pending gates are an invalid decision.
abbrev pub lift : Store × Result Error Run → Store × Result RouteError Run
lift (s, ok run) = (s, ok run)
lift (s, err e) = (s, err (RouteError.store_error e))

abbrev pub lift_pending : Store × Result Error Run → Store × Result RouteError Run
lift_pending (s, ok run) = (s, ok run)
lift_pending (s, err Error.approval_pending) = (s, err RouteError.invalid_decision)
lift_pending (s, err e) = (s, err (RouteError.store_error e))

-- the run of a spent approval
abbrev pub recorded : Store × Result RouteError Run → Store × Result RouteError (Option Run)
recorded (s, ok run) = (s, ok (some run))
recorded (s, err e) = (s, err e)

module _ (host : RouteHost) where
  abbrev pub route_text : Request → String
  route_text r =
      " MCP tool "
      <> host.quote r.tool_name
      <> " on server "
      <> host.quote r.server_id
      <> " for connection "
      <> host.quote r.connection_id

  abbrev pub scope_text : Request → String
  scope_text r = " (" <> risk_text r.risk <> " risk, " <> mode_text r.mode <> " mode)"

  unfoldable pub route_audit_message : String → Request → String
  route_audit_message action r = action <> route_text r <> scope_text r <> "."

  unfoldable pub denied_message : Request → DecisionReason → String
  denied_message r reason =
      "MCP tool "
      <> host.quote r.tool_name
      <> " on server "
      <> host.quote r.server_id
      <> " for connection "
      <> host.quote r.connection_id
      <> " authorization denied"
      <> scope_text r
      <> ": "
      <> reason_text reason
      <> "."

  -- the gate that an outcome asks for
  unfoldable pub requested_gate : ApprovalKind → Request → ApprovalBinding → ApprovalGate
  unfolding route_audit_message
  requested_gate kind request binding = record {
    id = "";
    kind = kind;
    status = ApprovalStatus.other "";
    summary = route_audit_message "Authorize" request;
    created_at = 0;
    decided_at = none;
    decided_by = "";
    operation_binding = binding;
  }

  -- the switch of `record` on the status
  unfoldable pub record_status :
      String → Request → Decision → ApprovalBinding → Store → Time → Store × Result RouteError Run
  unfolding denied_message requested_gate
  record_status run_id request decision binding s now = elim decision.status [
    | DecisionStatus.denied ↦
        lift (Store.fail host.runs run_id (denied_message request decision.reason) s now)
    | DecisionStatus.approval_required ↦ elim (approval_kind request.risk) [
      | none ↦ (s, err RouteError.invalid_decision)
      | some kind ↦
          lift (Store.add_approval host.runs run_id (requested_gate kind request binding) s now)
    ]
    | DecisionStatus.allowed ↦ lift_pending (
        Store.add_log host.runs run_id LogLevel.audit (route_audit_message "Allowed" request) true s
          now)
    | DecisionStatus.other t ↦ (s, err RouteError.invalid_decision)
  ]

  -- `record`
  unfoldable pub record_outcome :
      String → Request → Decision → ApprovalBinding → Store → Time → Store × Result RouteError Run
  unfolding record_status
  record_outcome run_id request decision binding s now =
      elim (check_record run_id request decision) [
        | some e ↦ (s, err e)
        | none ↦ elim (find run_id s.runs) [
          | none ↦ (s, err (RouteError.store_error Error.not_found))
          | some run ↦
              if not (run_in_scope run request)
              then (s, err RouteError.run_scope_mismatch)
              else record_status run_id request decision binding (meanwhile host Pause.recording s)
                  now
        ]
      ]

  -- `RecordBoundApproval`
  unfoldable pub record_bound_approval :
      List ℕ → String → Request → List ℕ → Decision → Store → Time → Store × Result RouteError Run
  unfolding record_outcome
  record_bound_approval key run_id request arguments decision s now =
      elim (validate_run_id run_id) [
        | some e ↦ (s, err e)
        | none ↦
            if not (valid_request request)
            then (s, err RouteError.invalid_request)
            else if not (valid_decision decision)
            then (s, err RouteError.invalid_decision)
            else if not (is_approval_required decision.status)
            then (s, err RouteError.invalid_decision)
            else elim (new_tool_approval_binding host.digest key run_id request arguments) [
              | err e ↦ (s, err (RouteError.binding_error e))
              | ok value ↦ elim (new_approval_binding value) [
                | err e ↦ (s, err (RouteError.store_error e))
                | ok binding ↦ record_outcome run_id request decision binding s now
              ]
            ]
      ]

  -- the first approved gate that is bound to the operation
  unfoldable pub bound_gate :
      List ℕ → String → Request → List ℕ → List ApprovalGate → Option ApprovalGate
  bound_gate key run_id request arguments [] = none
  bound_gate key run_id request arguments (gate ∷ gates) =
      if is_approved gate.status
        && binding_matches host.digest gate.operation_binding.value key run_id request arguments
      then some gate
      else bound_gate key run_id request arguments gates

  -- The loop of `RecordApprovedToolCall`: `none` when no gate is bound to the operation.
  unfoldable pub spend_gate :
      List ℕ
      → String
      → Request
      → List ℕ
      → Run
      → Store
      → Time
      → Store × Result RouteError (Option Run)
  unfolding bound_gate
  spend_gate key run_id request arguments run s now =
      elim (bound_gate key run_id request arguments run.approvals) [
        | none ↦ (s, ok none)
        | some gate ↦ recorded (
            lift_pending (
              Store.consume_approval_binding host.runs run_id gate.id
                (route_audit_message "Allowed" request) (meanwhile host Pause.spending s) now))
      ]

  -- the part of `RecordApprovedToolCall` that reads the run
  unfoldable pub approve_run :
      List ℕ → String → Request → List ℕ → Store → Time → Store × Result RouteError (Option Run)
  unfolding spend_gate
  approve_run key run_id request arguments s now = elim (find run_id s.runs) [
    | none ↦ (s, err (RouteError.store_error Error.not_found))
    | some run ↦
        if not (run_in_scope run request)
        then (s, err RouteError.run_scope_mismatch)
        else spend_gate key run_id request arguments run s now
  ]

  unfoldable pub approve_bound :
      List ℕ
      → String
      → Request
      → List ℕ
      → Store
      → Time
      → Result BindingError String
      → Store × Result RouteError (Option Run)
  unfolding approve_run
  approve_bound key run_id request arguments s now (err e) = (s, err (RouteError.binding_error e))
  approve_bound key run_id request arguments s now (ok value) =
      approve_run key run_id request arguments s now

  -- `RecordApprovedToolCall`
  unfoldable pub record_approved_tool_call :
      List ℕ → String → Request → List ℕ → Store → Time → Store × Result RouteError (Option Run)
  unfolding approve_bound
  record_approved_tool_call key run_id request arguments s now = elim (validate_run_id run_id) [
    | some e ↦ (s, err e)
    | none ↦
        if not (valid_request request)
        then (s, err RouteError.invalid_request)
        else approve_bound key run_id request arguments s now
            (new_tool_approval_binding host.digest key run_id request arguments)
  ]
