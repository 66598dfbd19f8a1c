-- ===== src/Routing/Tests.antt =====
-- One tool call through internal/agentrouting.
use ia_cstudio.Prelude.{
  Bool, if◌then◌else◌, ℕ, ◌≡◌, ◌≢◌, refl, sym, ◌∙◌, String, true, false, List, [], ◌∷◌, some,
  Result, ok, ◌⊎◌,
}
use ia_cstudio.Text.Trim.{trim_space}
use ia_cstudio.Text.Numbered.{numbered}
use ia_cstudio.Text.Cut.{truncate}
use ia_cstudio.Runs.Types.{Mode, mode_valid, valid_log_level, terminal_status}
use ia_cstudio.Runs.Gates.{has_pending_approvals}
use ia_cstudio.Runs.Changes
use ia_cstudio.Runs.Store
use ia_cstudio.Runs.Store.{Store, Host, new_store, update, find}
use ia_cstudio.Runs.Trace.{Op, step, run_ops}
use ia_cstudio.Airlock.Types.{ToolRisk, ToolDecision, same_risk}
use ia_cstudio.Routing.Policy.{
  Effect, Request, Rule, valid_request, valid_rule, valid_policy, rule_matches, match_validated,
  valid_field, same_mode, valid_risk,
}
use ia_cstudio.Routing.Outcome.{valid_decision, valid_outcome}
use ia_cstudio.Routing.Decision.{preflight, mode_allows_risk, evaluate_matched}
use ia_cstudio.Routing.Authorizer.{Authorizer, Evaluator, snapshot, authorize}
use ia_cstudio.Routing.Binding.{
  ToolCallRequest, tool_call, valid_identifier, valid_tool_call, new_tool_approval_binding,
}
use ia_cstudio.Routing.Recorder.{
  Pause, meanwhile, RouteHost, validate_run_id, check_record, run_in_scope, record_outcome,
  record_status,
}
use ia_cstudio.Routing.Router.{route_tool_call, route_bound, route_decision}
use ia_cstudio.Routing.Executor.{
  ToolCallResult, execute, after_route, invoke_allowed, valid_execution_route, is_active,
}
use ia_cstudio.Routing.Permit.{Permit, allowed-Permit}
use ia_cstudio.Routing.Calls.{SpentIn}
use ia_cstudio.Routing.Executed.{Ready, execute-authority}

abbrev pub request : Request
request = record {
  project = "demo";
  provider_id = "aws";
  connection_id = "c1";
  server_id = "s1";
  tool_name = "get";
  mode = Mode.read_only;
  risk = ToolRisk.read_only;
}

abbrev rule : Rule
rule = record {
  project = "demo";
  provider_id = "aws";
  connection_id = "c1";
  server_id = "s1";
  tool_name = "get";
  modes = Mode.read_only ∷ [];
  risk = ToolRisk.read_only;
  effect = Effect.allow;
  approval_required = false;
}

abbrev firewall : ToolDecision
firewall = record {
  status = "allowed";
  allowed = true;
  approval_required = false;
  risk = ToolRisk.read_only;
  reason = "";
  allowlisted = false;
  untrusted_output = true;
}

abbrev evaluator : Evaluator
evaluator server project tool = ok (record {
  server_id = server;
  name = tool;
  description = "";
  input_schema_hash = "";
  last_seen_at = "";
  schema_state = "known";
  risk = ToolRisk.read_only;
  decision = firewall;
})

abbrev authorizer : Authorizer
authorizer = record { source = snapshot (rule ∷ []); evaluator = some evaluator }

allowed-Permit_example : Permit authorizer request
unfolding authorize preflight valid_request valid_field trim_space mode_valid valid_risk
    mode_allows_risk same_risk valid_policy valid_rule match_validated rule_matches same_mode
    evaluate_matched truncate
allowed-Permit_example = allowed-Permit authorizer request refl

abbrev host : RouteHost
host = record {
  runs = record { redact = λ text. text; hash_text = λ text key. text };
  quote = λ text. text;
  digest = λ key message. "00";
  between = λ pause. [];
  matches = λ pattern text. false;
}

abbrev created : Store
created =
    (Store.create host.runs
      (record {
        project = "demo";
        prompt = "list";
        provider_id = "aws";
        mode = Mode.read_only;
        created_by = "ann";
      })
      (new_store [] (1 ∷ [])) 1).0

abbrev key : List ℕ
key =
    0 ∷ 1 ∷ 2 ∷ 3 ∷ 4 ∷ 5 ∷ 6 ∷ 7 ∷ 0 ∷ 1 ∷ 2 ∷ 3 ∷ 4 ∷ 5 ∷ 6 ∷ 7 ∷ 0 ∷ 1 ∷ 2 ∷ 3 ∷ 4 ∷ 5 ∷ 6 ∷ 7
    ∷ 0 ∷ 1 ∷ 2 ∷ 3 ∷ 4 ∷ 5 ∷ 6 ∷ 7 ∷ []

abbrev answer : ToolCallRequest → Result String ToolCallResult
answer call = ok (record {
  output = "[]";
  is_error = false;
  untrusted_output = true;
  redacted = false;
  truncated = false;
})

calls_test :
    (execute
      (λ n. true)
      answer
      host
      authorizer
      key
      "run_000001"
      request
      (123 ∷ 125 ∷ [])
      created
      2).1.0
    ≡ tool_call request (123 ∷ 125 ∷ []) ∷ []
unfolding execute after_route invoke_allowed new_store valid_tool_call valid_identifier
    route_tool_call validate_run_id new_tool_approval_binding route_bound route_decision
    record_outcome check_record valid_decision valid_outcome record_status find update run_in_scope
    valid_execution_route is_active Store.create Store.add_log Store.created_run Store.evict
    Store.put numbered Changes.add_log Changes.append_log valid_log_level terminal_status
    has_pending_approvals run_ops authorize preflight valid_request valid_field trim_space
    mode_valid valid_risk mode_allows_risk same_risk valid_policy valid_rule match_validated
    rule_matches same_mode evaluate_matched truncate meanwhile
calls_test = refl

same_pause : Pause → Pause → Bool
same_pause Pause.rereading Pause.rereading = true
same_pause Pause.calling Pause.calling = true
same_pause _ _ = false

-- Another caller cancels the run in the pause.
meddling : Pause → RouteHost
unfolding same_pause
meddling at_pause = record host {
  between = λ pause. if same_pause pause at_pause then (Op.cancel "run_000001", 3) ∷ [] else [];
}

-- A cancelation before the run is read again stops the call, a later one does not.
canceled_test :
    (execute
      (λ n. true)
      answer
      (meddling Pause.rereading)
      authorizer
      key
      "run_000001"
      request
      (123 ∷ 125 ∷ [])
      created
      2).1.0
    ≡ []
unfolding execute after_route invoke_allowed new_store valid_tool_call valid_identifier
    route_tool_call validate_run_id new_tool_approval_binding route_bound route_decision
    record_outcome check_record valid_decision valid_outcome record_status find update run_in_scope
    valid_execution_route is_active Store.create Store.add_log Store.created_run Store.evict
    Store.put numbered Changes.add_log Changes.append_log valid_log_level terminal_status
    has_pending_approvals run_ops Store.cancel Changes.cancel step meddling authorize preflight
    valid_request valid_field trim_space mode_valid valid_risk mode_allows_risk same_risk
    valid_policy valid_rule match_validated rule_matches same_mode evaluate_matched truncate
    meanwhile
canceled_test = refl

late_cancel_test :
    (execute
      (λ n. true)
      answer
      (meddling Pause.calling)
      authorizer
      key
      "run_000001"
      request
      (123 ∷ 125 ∷ [])
      created
      2).1.0
    ≡ tool_call request (123 ∷ 125 ∷ []) ∷ []
unfolding execute after_route invoke_allowed new_store valid_tool_call valid_identifier
    route_tool_call validate_run_id new_tool_approval_binding route_bound route_decision
    record_outcome check_record valid_decision valid_outcome record_status find update run_in_scope
    valid_execution_route is_active Store.create Store.add_log Store.created_run Store.evict
    Store.put numbered Changes.add_log Changes.append_log valid_log_level terminal_status
    has_pending_approvals run_ops Store.cancel Changes.cancel step meddling authorize preflight
    valid_request valid_field trim_space mode_valid valid_risk mode_allows_risk same_risk
    valid_policy valid_rule match_validated rule_matches same_mode evaluate_matched truncate
    meanwhile
late_cancel_test = refl

called :
    (execute
      (λ n. true)
      answer
      host
      authorizer
      key
      "run_000001"
      request
      (123 ∷ 125 ∷ [])
      created
      2).1.0
    ≢ []
called none_made = let clash = sym calls_test ∙ none_made in cc

execute-authority_example :
    (routed : Store) × (seen : Store) × (seen ≡ meanwhile host Pause.rereading routed)
    × ((execute
          (λ n. true)
          answer
          host
          authorizer
          key
          "run_000001"
          request
          (123 ∷ 125 ∷ [])
          created
          2).0
        ≡ meanwhile host Pause.calling seen)
    × ((execute
          (λ n. true)
          answer
          host
          authorizer
          key
          "run_000001"
          request
          (123 ∷ 125 ∷ [])
          created
          2).1.0
        ≡ tool_call request (123 ∷ 125 ∷ []) ∷ [])
    × Ready "run_000001" request seen
    × (Permit authorizer request
        ⊎ SpentIn host key "run_000001" request (123 ∷ 125 ∷ []) created 2 routed)
execute-authority_example =
    execute-authority (λ n. true) answer host authorizer key "run_000001" request (123 ∷ 125 ∷ [])
      created 2 called
