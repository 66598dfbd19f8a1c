-- ===== src/Routing/Decision.antt =====
-- internal/agentrouting/decision.go: the outcome for a request.
use ia_cstudio.Prelude.{Bool, true, false, not, ◌&&◌, ◌||◌, Option, none, some, if◌then◌else◌, ◌==◌}
use ia_cstudio.Routing.Outcome.{DecisionStatus, DecisionReason, Decision}
use ia_cstudio.Runs.Types.{Mode}
use ia_cstudio.Airlock.Types.{ToolRisk, ToolDecision, same_risk}
use ia_cstudio.Routing.Policy.{
  Request, Rule, Policy, is_deny, valid_request, valid_policy, match_validated,
}

abbrev pub denied : DecisionReason → Decision
denied reason = record {
  status = DecisionStatus.denied;
  reason = reason;
  allowed = false;
  approval_required = false;
  untrusted_output = true;
}

abbrev pub approval_required : Decision
approval_required = record {
  status = DecisionStatus.approval_required;
  reason = DecisionReason.approval_required;
  allowed = false;
  approval_required = true;
  untrusted_output = true;
}

abbrev pub allowed : Decision
allowed = record {
  status = DecisionStatus.allowed;
  reason = DecisionReason.allowed;
  allowed = true;
  approval_required = false;
  untrusted_output = true;
}

unfoldable pub mode_allows_risk : Mode → ToolRisk → Bool
mode_allows_risk Mode.read_only risk = same_risk risk ToolRisk.read_only
mode_allows_risk Mode.propose_only risk =
    same_risk risk ToolRisk.read_only || same_risk risk ToolRisk.generate_code
mode_allows_risk Mode.approved_execute risk = not (same_risk risk ToolRisk.unknown)
mode_allows_risk (Mode.other s) risk = false

-- a decision that stops the evaluation
unfoldable pub preflight : Request → Option Decision
preflight request =
    if not (valid_request request)
    then some (denied DecisionReason.invalid_request)
    else if not (mode_allows_risk request.mode request.risk)
    then some (denied DecisionReason.mode_risk_mismatch)
    else none

unfoldable pub evaluate_matched : Rule → Request → ToolDecision → Decision
evaluate_matched rule request airlock =
    if is_deny rule.effect
    then denied DecisionReason.policy_denied
    else if not (same_risk airlock.risk request.risk)
    then denied DecisionReason.airlock_risk_mismatch
    else if airlock.status == "blocked"
        && not airlock.allowed
        && not airlock.approval_required
        && airlock.untrusted_output
    then denied DecisionReason.airlock_blocked
    else if airlock.status == "approval_required"
        && not airlock.allowed
        && airlock.approval_required
        && airlock.untrusted_output
    then approval_required
    else if airlock.status == "allowed"
        && airlock.allowed
        && not airlock.approval_required
        && airlock.untrusted_output
    then (if rule.approval_required then approval_required else allowed)
    else denied DecisionReason.invalid_airlock_decision

unfoldable pub evaluate_validated : Policy → Request → ToolDecision → Decision
evaluate_validated policy request airlock = elim (match_validated policy request) [
  | none ↦ denied DecisionReason.no_matching_rule
  | some rule ↦ evaluate_matched rule request airlock
]

unfoldable pub evaluate : Policy → Request → ToolDecision → Decision
unfolding evaluate_validated
evaluate policy request airlock = elim (preflight request) [
  | some decision ↦ decision
  | none ↦
      if not (valid_policy policy)
      then denied DecisionReason.invalid_policy
      else evaluate_validated policy request airlock
]
