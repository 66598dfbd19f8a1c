-- ===== src/Routing/Permit.antt =====
-- Allowed requests of `Authorize`, internal/agentrouting/authorizer.go.
use ia_cstudio.Prelude.{
  ◌≡◌, sym, ◌∙◌, true, false, none, some, arith, inl, inr, eq_iff, Bool-cases, Option-cases, ok,
  Result-cases,
}
use ia_cstudio.Airlock.Types.{ToolRisk, ToolInventoryEntry, same_risk}
use ia_cstudio.Routing.Policy.{
  Request, Rule, Policy, is_allow, is_deny, valid_policy, rule_matches, match_validated,
}
use ia_cstudio.Routing.Outcome.{Decision}
use ia_cstudio.Routing.Decision.{preflight, evaluate_matched}
use ia_cstudio.Routing.Authorizer.{
  Authorizer, Evaluator, policy_for, authorize, authorize_policy, authorize_rule, authorize_entry,
}
use ia_cstudio.Routing.Recorder.{is_allowed}
use ia_cstudio.Routing.Authority.{
  same_risk_read_only, read_only_same_risk, rule_read_only, match_validated-some,
  evaluate_matched-allowed,
}

authorize_entry-allowed :
    (rule : Rule) (request : Request) (e : ToolInventoryEntry)
    → is_allowed (authorize_entry rule request e).status ≡ true
    → (e.name ≡ request.tool_name)
      × (is_allowed (evaluate_matched rule request e.decision).status ≡ true)
unfolding authorize_entry
authorize_entry-allowed rule request e h = grind (arith, eq_iff e.name request.tool_name)

authorize_rule-allowed :
    (evaluator : Evaluator) (rule : Rule) (request : Request)
    → is_allowed (authorize_rule evaluator rule request).status ≡ true
    → (e : ToolInventoryEntry) × (evaluator request.server_id request.project request.tool_name
        ≡ ok e)
      × (is_allowed (authorize_entry rule request e).status ≡ true)
unfolding authorize_rule
authorize_rule-allowed evaluator rule request h = elim (Bool-cases (is_deny rule.effect)) [
  | inl denies ↦ let clash = rw (denies, authorize_rule) at h in cc
  | inr further ↦
      elim (Result-cases (evaluator request.server_id request.project request.tool_name)) [
        | inl (e, found) ↦ (e, found, rw found at (rw (further, authorize_rule) at h))
        | inr (x, failed) ↦ let clash = rw failed at (rw (further, authorize_rule) at h) in cc
      ]
]

authorize_policy-allowed :
    (evaluator : Evaluator) (policy : Policy) (request : Request)
    → is_allowed (authorize_policy evaluator policy request).status ≡ true
    → (rule : Rule) × (valid_policy policy ≡ true)
      × (match_validated policy request ≡ some rule)
      × (is_allowed (authorize_rule evaluator rule request).status ≡ true)
unfolding authorize_policy
authorize_policy-allowed evaluator policy request h = elim (Bool-cases (valid_policy policy)) [
  | inr bad ↦ let clash = rw (bad, authorize_policy) at h in cc
  | inl good ↦ elim (Option-cases (match_validated policy request)) [
    | inr (rule, matched) ↦ (rule, good, matched, rw matched at (rw (good, authorize_policy) at h))
    | inl unmatched ↦ let clash = rw unmatched at (rw (good, authorize_policy) at h) in cc
  ]
]

preflight-allowed :
    (request : Request) {d : Decision} → preflight request ≡ some d → is_allowed d.status ≡ false
unfolding preflight
preflight-allowed request e = grind arith

matched_risk :
    (rule : Rule) (request : Request)
    → rule_matches rule request ≡ true
    → same_risk rule.risk request.risk ≡ true
unfolding rule_matches
matched_risk rule request e = ground arith

authorize-allowed :
    (a : Authorizer) (request : Request)
    → is_allowed (authorize a request).status ≡ true
    → (evaluator : Evaluator) × (policy : Policy) × (preflight request ≡ none)
      × (a.evaluator ≡ some evaluator)
      × (policy_for a.source request ≡ ok policy)
      × (is_allowed (authorize_policy evaluator policy request).status ≡ true)
unfolding authorize
authorize-allowed a request h = elim (Option-cases (preflight request)) [
  | inr (d, stopped) ↦
      let clash = sym (preflight-allowed request stopped) ∙ (rw (stopped, authorize) at h) in cc
  | inl passed ↦ elim (Option-cases a.evaluator) [
    | inl missing ↦ let clash = rw missing at (rw (passed, authorize) at h) in cc
    | inr (evaluator, there) ↦ elim (Result-cases (policy_for a.source request)) [
      | inl (policy, found) ↦ (
        evaluator,
        policy,
        passed,
        there,
        found,
        rw (there, found) at (rw (passed, authorize) at h),
      )
      | inr (x, failed) ↦ let clash = rw (there, failed) at (rw (passed, authorize) at h) in cc
    ]
  ]
]

-- What stands behind an allowed request.
pub record Permit (a : Authorizer) (request : Request) : Type 0 where
  pub evaluator : Evaluator
  pub policy : Policy
  pub rule : Rule
  pub entry : ToolInventoryEntry
  pub asked : a.evaluator ≡ some evaluator
  pub source : policy_for a.source request ≡ ok policy
  pub valid : valid_policy policy ≡ true
  pub first : match_validated policy request ≡ some rule
  pub matched : rule_matches rule request ≡ true
  pub allows : is_allow rule.effect ≡ true
  pub unattended : rule.approval_required ≡ false
  pub answer : evaluator request.server_id request.project request.tool_name ≡ ok entry
  pub tool : entry.name ≡ request.tool_name
  pub firewall : entry.decision.allowed ≡ true
  pub risk : request.risk ≡ ToolRisk.read_only

-- A request is allowed without an approval only if the policy for it is valid, its first matching
-- rule allows and asks for no approval, the firewall allows the tool, and the request is read-only.
pub allowed-Permit :
    (a : Authorizer) (request : Request)
    → is_allowed (authorize a request).status ≡ true
    → Permit a request
allowed-Permit a request h =
    let (evaluator, policy, passed, asked, source, h₁) = authorize-allowed a request h in
    let (rule, valid, first, h₂) = authorize_policy-allowed evaluator policy request h₁ in
    let (e, answer, h₃) = authorize_rule-allowed evaluator rule request h₂ in
    let (tool, h₄) = authorize_entry-allowed rule request e h₃ in
    let (fine, unattended, firewall, quiet, same) =
      evaluate_matched-allowed rule request e.decision h₄ in
    let (valid_one, matched) = match_validated-some policy request valid first in
    let (allows, reads) = rule_read_only rule valid_one fine unattended in
    record {
      evaluator = evaluator;
      policy = policy;
      rule = rule;
      entry = e;
      asked = asked;
      source = source;
      valid = valid;
      first = first;
      matched = matched;
      allows = allows;
      unattended = unattended;
      answer = answer;
      tool = tool;
      firewall = firewall;
      risk =
          read_only_same_risk request.risk
            (rw (same_risk_read_only rule.risk reads) at (matched_risk rule request matched));
    }
