-- ===== src/Routing/Authority.antt =====
-- The outcomes of internal/agentrouting/decision.go and authorizer.go.
use mathlib.Core.Option.{none-ne-some, some-injective}
use ia_cstudio.Prelude.{
  ◌≡◌, refl, subst, true, false, [], ◌∷◌, some, arith, inl, inr, ◌==◌, Bool-cases, Option-cases,
  Result-cases,
}
use ia_cstudio.Airlock.Types.{ToolRisk, ToolDecision, ToolInventoryEntry, same_risk}
use ia_cstudio.Routing.Policy.{
  Request, Rule, Policy, is_allow, is_deny, valid_rule, valid_policy, valid_request, rule_matches,
  match_validated,
}
use ia_cstudio.Routing.Outcome.{
  Decision, DecisionReason, valid_decision, valid_outcome, valid_denied_reason,
}
use ia_cstudio.Routing.Decision.{
  denied, approval_required, allowed, mode_allows_risk, preflight, evaluate_matched,
}
use ia_cstudio.Routing.Authorizer.{
  Authorizer, Evaluator, policy_for, authorize, authorize_policy, authorize_rule, authorize_entry,
}
use ia_cstudio.Routing.Recorder.{is_allowed}

pub same_risk_read_only :
    (risk : ToolRisk) → same_risk risk ToolRisk.read_only ≡ true → risk ≡ ToolRisk.read_only
unfolding same_risk
same_risk_read_only ToolRisk.read_only e = refl
same_risk_read_only _ e = cc

pub read_only_same_risk :
    (risk : ToolRisk) → same_risk ToolRisk.read_only risk ≡ true → risk ≡ ToolRisk.read_only
unfolding same_risk
read_only_same_risk ToolRisk.read_only e = refl
read_only_same_risk _ e = cc

record IsValid (d : Decision) : Type 0 where
  holds : valid_decision d ≡ true

denied-IsValid :
    (reason : DecisionReason) → valid_denied_reason reason ≡ true → IsValid (denied reason)
unfolding valid_decision valid_outcome
denied-IsValid reason e = record { holds = e }

approval-IsValid : IsValid approval_required
unfolding valid_decision valid_outcome
approval-IsValid = record { holds = refl }

allowed-IsValid : IsValid allowed
unfolding valid_decision valid_outcome
allowed-IsValid = record { holds = refl }

evaluate_matched-IsValid :
    (rule : Rule) (request : Request) (airlock : ToolDecision)
    → IsValid (evaluate_matched rule request airlock)
unfolding evaluate_matched valid_denied_reason valid_decision valid_outcome
evaluate_matched-IsValid rule request airlock =
    grind (arith, denied-IsValid, approval-IsValid, allowed-IsValid)

authorize_entry-IsValid :
    (rule : Rule) (request : Request) (e : ToolInventoryEntry)
    → IsValid (authorize_entry rule request e)
unfolding authorize_entry valid_denied_reason
authorize_entry-IsValid rule request e = elim (Bool-cases (e.server_id == request.server_id)) [
  | inr server ↦
      rw (server, authorize_entry) (denied-IsValid DecisionReason.airlock_server_mismatch refl)
  | inl server ↦ elim (Bool-cases (e.name == request.tool_name)) [
    | inr tool ↦
        rw (server, tool, authorize_entry)
          (denied-IsValid DecisionReason.airlock_tool_mismatch refl)
    | inl tool ↦ elim (Bool-cases (same_risk e.risk e.decision.risk)) [
      | inr risk ↦
          rw (server, tool, risk, authorize_entry)
            (denied-IsValid DecisionReason.invalid_airlock_decision refl)
      | inl risk ↦
          rw (server, tool, risk, authorize_entry)
            (evaluate_matched-IsValid rule request e.decision)
    ]
  ]
]

authorize_rule-IsValid :
    (evaluator : Evaluator) (rule : Rule) (request : Request)
    → IsValid (authorize_rule evaluator rule request)
unfolding authorize_rule valid_denied_reason
authorize_rule-IsValid evaluator rule request = elim (Bool-cases (is_deny rule.effect)) [
  | inl no_more ↦ rw (no_more, authorize_rule) (denied-IsValid DecisionReason.policy_denied refl)
  | inr further ↦
      elim (Result-cases (evaluator request.server_id request.project request.tool_name)) [
        | inl (e, found) ↦
            rw (further, authorize_rule) (rw found (authorize_entry-IsValid rule request e))
        | inr (x, failed) ↦
            rw (further, authorize_rule)
              (rw failed (denied-IsValid DecisionReason.airlock_unavailable refl))
      ]
]

authorize_policy-IsValid :
    (evaluator : Evaluator) (policy : Policy) (request : Request)
    → IsValid (authorize_policy evaluator policy request)
unfolding authorize_policy valid_denied_reason
authorize_policy-IsValid evaluator policy request = elim (Bool-cases (valid_policy policy)) [
  | inr bad ↦ rw (bad, authorize_policy) (denied-IsValid DecisionReason.invalid_policy refl)
  | inl good ↦ elim (Option-cases (match_validated policy request)) [
    | inl unmatched ↦
        rw (good, authorize_policy)
          (rw unmatched (denied-IsValid DecisionReason.no_matching_rule refl))
    | inr (rule, matched) ↦
        rw (good, authorize_policy) (rw matched (authorize_rule-IsValid evaluator rule request))
  ]
]

preflight-IsValid : (request : Request) {d : Decision} → preflight request ≡ some d → IsValid d
unfolding preflight valid_denied_reason
preflight-IsValid request {d} e = elim (Bool-cases (valid_request request)) [
  | inr bad ↦
      subst IsValid (some-injective _ _ (rw bad at e))
        (denied-IsValid DecisionReason.invalid_request refl)
  | inl good ↦ elim (Bool-cases (mode_allows_risk request.mode request.risk)) [
    | inr bad ↦
        subst IsValid (some-injective _ _ (rw (good, bad) at e))
          (denied-IsValid DecisionReason.mode_risk_mismatch refl)
    | inl fine ↦ absurd (none-ne-some _ (rw (good, fine) at e))
  ]
]

authorize-IsValid : (a : Authorizer) (request : Request) → IsValid (authorize a request)
unfolding authorize valid_denied_reason
authorize-IsValid a request = elim (Option-cases (preflight request)) [
  | inr (d, stopped) ↦ rw (stopped, authorize) (preflight-IsValid request stopped)
  | inl passed ↦ elim (Option-cases a.evaluator) [
    | inl missing ↦
        rw (passed, authorize) (rw missing (denied-IsValid DecisionReason.airlock_unavailable refl))
    | inr (evaluator, there) ↦ elim (Result-cases (policy_for a.source request)) [
      | inl (policy, found) ↦
          rw (passed, authorize)
            (rw (there, found) (authorize_policy-IsValid evaluator policy request))
      | inr (x, failed) ↦
          rw (passed, authorize)
            (rw (there, failed) (denied-IsValid DecisionReason.policy_unavailable refl))
    ]
  ]
]

-- Every outcome of `Authorize` is a consistent one, which `Decision.Validate` accepts.
authorize-valid : (a : Authorizer) (request : Request) → valid_decision (authorize a request) ≡ true
authorize-valid a request = (authorize-IsValid a request).holds

-- why the firewall's decision and a rule allow a request
pub evaluate_matched-allowed :
    (rule : Rule) (request : Request) (airlock : ToolDecision)
    → is_allowed (evaluate_matched rule request airlock).status ≡ true
    → (is_deny rule.effect ≡ false)
      × (rule.approval_required ≡ false)
      × (airlock.allowed ≡ true)
      × (airlock.approval_required ≡ false)
      × (same_risk airlock.risk request.risk ≡ true)
unfolding evaluate_matched
evaluate_matched-allowed rule request airlock e = ground arith

-- A valid rule that neither denies nor asks is one that allows reading.
pub rule_read_only :
    (rule : Rule)
    → valid_rule rule ≡ true
    → is_deny rule.effect ≡ false
    → rule.approval_required ≡ false
    → (is_allow rule.effect ≡ true) × (same_risk rule.risk ToolRisk.read_only ≡ true)
unfolding valid_rule
rule_read_only rule valid allows quiet = ground arith

pub match_validated-some :
    (policy : Policy) (request : Request) {rule : Rule}
    → valid_policy policy ≡ true
    → match_validated policy request ≡ some rule
    → (valid_rule rule ≡ true) × (rule_matches rule request ≡ true)
unfolding match_validated valid_policy
match_validated-some [] request v e = absurd (none-ne-some _ e)
match_validated-some (r ∷ rules) request {rule} v e = elim (Bool-cases (rule_matches r request)) [
  | inl hit ↦ let same : r ≡ rule = some-injective _ _ (rw hit at e) in ground arith
  | inr miss ↦ match_validated-some rules request (ground arith) (rw miss at e)
]
