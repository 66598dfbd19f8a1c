-- ===== src/Routing/Route.antt =====
-- internal/agentrouting/run_recorder.go: the errors of a route, what the routing calls, and the texts
-- and tests of outcomes.
use ia_cstudio.Prelude.{String, ℕ, Bool, true, false, List}
use ia_cstudio.Runs.Types.{Error, Time}
use ia_cstudio.Runs.Store.{Store, Host}
use ia_cstudio.Runs.Trace.{Op, run_ops}
use ia_cstudio.Routing.Outcome.{DecisionStatus, DecisionReason}
use ia_cstudio.Routing.Binding.{BindingError}

pub data RouteError : Type 0 where
  invalid_request invalid_decision run_id_required invalid_run_id run_scope_mismatch : RouteError
  store_error : Error → RouteError
  binding_error : BindingError → RouteError

-- where the operations of other callers come between two critical sections: before an approval that
-- was found is spent; before an outcome is recorded after no approval was found; between the reading
-- of the run and the recording; before the run is read again; between that and the call
pub data Pause : Type 0 where
  spending asking recording rereading calling : Pause

-- What the routing calls, and what other callers do meanwhile.
pub record RouteHost : Type 0 where
  pub runs : Host
  pub between : Pause → List (Op × Time)
  pub matches : String → String → Bool
  pub quote : String → String
  pub digest : List ℕ → List ℕ → String

-- the store after the operations of other callers in a window
unfoldable pub meanwhile : RouteHost → Pause → Store → Store
meanwhile host window s = run_ops host.runs (host.between window) s

-- the text of a reason
abbrev pub reason_text : DecisionReason → String
reason_text DecisionReason.invalid_request = "invalid_request"
reason_text DecisionReason.invalid_policy = "invalid_policy"
reason_text DecisionReason.policy_unavailable = "policy_unavailable"
reason_text DecisionReason.mode_risk_mismatch = "mode_risk_mismatch"
reason_text DecisionReason.no_matching_rule = "no_matching_rule"
reason_text DecisionReason.policy_denied = "policy_denied"
reason_text DecisionReason.airlock_unavailable = "airlock_unavailable"
reason_text DecisionReason.airlock_server_mismatch = "airlock_server_mismatch"
reason_text DecisionReason.airlock_tool_mismatch = "airlock_tool_mismatch"
reason_text DecisionReason.airlock_risk_mismatch = "airlock_risk_mismatch"
reason_text DecisionReason.invalid_airlock_decision = "invalid_airlock_decision"
reason_text DecisionReason.airlock_blocked = "airlock_blocked"
reason_text DecisionReason.approval_required = "approval_required"
reason_text DecisionReason.allowed = "allowed"
reason_text (DecisionReason.other s) = s

abbrev pub is_mode_risk_mismatch : DecisionReason → Bool
is_mode_risk_mismatch DecisionReason.mode_risk_mismatch = true
is_mode_risk_mismatch _ = false

abbrev pub is_invalid_request : DecisionReason → Bool
is_invalid_request DecisionReason.invalid_request = true
is_invalid_request _ = false

abbrev pub is_denied : DecisionStatus → Bool
is_denied DecisionStatus.denied = true
is_denied _ = false

abbrev pub is_allowed : DecisionStatus → Bool
is_allowed DecisionStatus.allowed = true
is_allowed _ = false

abbrev pub is_approval_required : DecisionStatus → Bool
is_approval_required DecisionStatus.approval_required = true
is_approval_required _ = false
