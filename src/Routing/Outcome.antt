-- ===== src/Routing/Outcome.antt =====
-- internal/agentrouting/decision.go: the type of an outcome, and when it is consistent.
use ia_cstudio.Prelude.{String, Bool, true, false, not, ◌&&◌}

pub data DecisionStatus : Type 0 where
  denied approval_required allowed : DecisionStatus
  other : String → DecisionStatus

pub data DecisionReason : Type 0 where
  invalid_request invalid_policy policy_unavailable mode_risk_mismatch : DecisionReason
  no_matching_rule policy_denied airlock_unavailable airlock_server_mismatch : DecisionReason
  airlock_tool_mismatch airlock_risk_mismatch invalid_airlock_decision : DecisionReason
  airlock_blocked approval_required allowed : DecisionReason
  other : String → DecisionReason

pub record Decision : Type 0 where
  pub status : DecisionStatus
  pub reason : DecisionReason
  pub allowed : Bool
  pub approval_required : Bool
  pub untrusted_output : Bool

unfoldable pub valid_denied_reason : DecisionReason → Bool
valid_denied_reason DecisionReason.approval_required = false
valid_denied_reason DecisionReason.allowed = false
valid_denied_reason (DecisionReason.other s) = false
valid_denied_reason _ = true

-- `Decision.Validate` on the fields, for each status
unfoldable pub valid_outcome : DecisionStatus → DecisionReason → Bool → Bool → Bool
valid_outcome DecisionStatus.denied reason may ask =
    not may && not ask && valid_denied_reason reason
valid_outcome DecisionStatus.approval_required DecisionReason.approval_required may ask =
    not may && ask
valid_outcome DecisionStatus.allowed DecisionReason.allowed may ask = may && not ask
valid_outcome _ _ _ _ = false

unfoldable pub valid_decision : Decision → Bool
unfolding valid_outcome
valid_decision d =
    d.untrusted_output && valid_outcome d.status d.reason d.allowed d.approval_required
