-- ===== src/Airlock/Verdict.antt =====
-- The decision of internal/mcpairlock/tools.go, by three questions: is the schema known, is the tool
-- read-only, is it on the allowlist.
use ia_cstudio.Prelude.{◌≡◌, refl, String, Bool, true, false, not, Bool-cases, inl, inr}
use ia_cstudio.Airlock.Types.{ToolRisk, ToolAllowlist, ToolDecision, default_risk}
use ia_cstudio.Airlock.Allow.{is_tool_allowlisted}
use ia_cstudio.Airlock.Firewall.{
  normalized_schema_state, schema_review_required, decide_risk, decide_state,
  decide_tool_with_allowlist,
}

pub data Verdict : Type 0 where
  blocked approval_required allowed : Verdict

-- an independent description of the decision
unfoldable pub verdict : Bool → Bool → Bool → Verdict
verdict true true allowlisted = Verdict.allowed
verdict known read_only true = Verdict.approval_required
verdict known read_only false = Verdict.blocked

abbrev pub is_read_only : ToolRisk → Bool
is_read_only ToolRisk.read_only = true
is_read_only _ = false

-- the status and the two flags of a verdict
abbrev pub flags : Verdict → String × Bool × Bool
flags Verdict.blocked = ("blocked", false, false)
flags Verdict.approval_required = ("approval_required", false, true)
flags Verdict.allowed = ("allowed", true, false)

abbrev pub flags_of : ToolDecision → String × Bool × Bool
flags_of d = (d.status, d.allowed, d.approval_required)

decide_risk-flags :
    (risk : ToolRisk) (allowlisted : Bool)
    → flags_of (decide_risk risk allowlisted) ≡ flags (verdict true (is_read_only risk) allowlisted)
unfolding decide_risk verdict
decide_risk-flags ToolRisk.read_only true = refl
decide_risk-flags ToolRisk.read_only false = refl
decide_risk-flags _ true = refl
decide_risk-flags _ false = refl

decide_state-flags :
    (risk : ToolRisk) (allowlisted : Bool) (state : String)
    → flags_of (decide_state risk allowlisted state)
      ≡ flags (verdict (not (schema_review_required state)) (is_read_only risk) allowlisted)
unfolding decide_state verdict
decide_state-flags risk allowlisted state = elim (Bool-cases (schema_review_required state)) [
  | inr fine ↦ rw (fine, decide_state) (decide_risk-flags risk allowlisted)
  | inl review ↦ elim (Bool-cases allowlisted) [
    | inl listed ↦ rw (review, listed, decide_state) refl
    | inr unlisted ↦ rw (review, unlisted, decide_state) refl
  ]
]

-- The decision on a tool is allowed exactly for a known schema and a read-only risk; otherwise it
-- needs an approval if the tool is on the allowlist, and is blocked if not.
pub decide-verdict :
    (server project tool : String) (risk : ToolRisk) (state : String) (allowlist : ToolAllowlist)
    → flags_of (decide_tool_with_allowlist server project tool risk state allowlist)
      ≡ flags (
          verdict
            (not (schema_review_required (normalized_schema_state state)))
            (is_read_only (default_risk risk))
            (is_tool_allowlisted allowlist server project tool))
unfolding decide_tool_with_allowlist
decide-verdict server project tool risk state allowlist =
    decide_state-flags (default_risk risk) (is_tool_allowlisted allowlist server project tool)
      (normalized_schema_state state)
