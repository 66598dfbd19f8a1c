-- ===== src/Airlock/Firewall.antt =====
-- internal/mcpairlock/tools.go: the decision on one tool, and its risk class.
use text.Mathlib.Text.{starts_with}
use ia_cstudio.Prelude.{String, ◌<>◌, Bool, true, false, not, ◌||◌, [], ◌∷◌, if◌then◌else◌, ◌==◌}
use ia_cstudio.Text.Trim.{trim_space, contains_any}
use ia_cstudio.Airlock.Types.{ToolRisk, ToolAllowlist, ToolDecision, risk_text, default_risk}
use ia_cstudio.Airlock.Allow.{is_tool_allowlisted}

unfoldable pub normalized_schema_state : String → String
normalized_schema_state state =
    let trimmed = trim_space state in
    if trimmed == "known" || trimmed == "new" || trimmed == "changed" || trimmed == "unknown"
    then trimmed
    else "unknown"

unfoldable pub schema_review_required : String → Bool
schema_review_required state = not (normalized_schema_state state == "known")

module _ (risk : ToolRisk) (allowlisted : Bool) where
  abbrev blocked : String → ToolDecision
  blocked reason = record {
    status = "blocked";
    allowed = false;
    approval_required = false;
    risk = risk;
    reason = reason;
    allowlisted = allowlisted;
    untrusted_output = true;
  }

  abbrev approval : String → ToolDecision
  approval reason = record (blocked reason) {
    status = "approval_required";
    approval_required = true;
  }

  abbrev allow : String → ToolDecision
  allow reason = record (blocked reason) { status = "allowed"; allowed = true }

  -- the switch on the risk, under a known schema
  unfoldable pub decide_risk : ToolDecision
  decide_risk = elim risk [
    | ToolRisk.read_only ↦ allow "read-only tools are allowed by default; output remains untrusted"
    | ToolRisk.generate_code ↦
        if not allowlisted
        then blocked "generate-code tools require an explicit server or project allowlist"
        else approval "generate-code tools require explicit user approval before execution"
    | ToolRisk.unknown ↦
        if not allowlisted
        then blocked
            "unknown external MCP tools are blocked until classified or explicitly allowlisted"
        else approval "allowlisted unknown tools still require explicit approval"
    | ToolRisk.other s ↦
        if not allowlisted
        then blocked
            "unknown external MCP tools are blocked until classified or explicitly allowlisted"
        else approval "allowlisted unknown tools still require explicit approval"
    | named ↦
        if not allowlisted
        then blocked (risk_text named <> " tools require an explicit server or project allowlist")
        else approval (risk_text named <> " tools require explicit user approval before execution")
  ]

  unfoldable pub decide_state : String → ToolDecision
  decide_state state =
      if schema_review_required state
      then (if not allowlisted
          then blocked (
              state
              <> " external MCP tool schemas are blocked until a later discovery confirms the same schema, or until explicitly allowlisted")
          else approval (
              "allowlisted " <> state
              <> " external MCP tool schemas require explicit user approval before execution"))
      else decide_risk

unfoldable pub decide_tool_with_allowlist :
    String → String → String → ToolRisk → String → ToolAllowlist → ToolDecision
decide_tool_with_allowlist server project tool risk state allowlist =
    decide_state (default_risk risk) (is_tool_allowlisted allowlist server project tool)
      (normalized_schema_state state)

-- What `ClassifyTool` reads of a tool: `text` is the lower-cased name, description and schema, `name`
-- the lower-cased name, `hint` the read-only annotation.
unfoldable pub classify_text : String → String → Bool → ToolRisk
classify_text text name hint =
    if contains_any text (
      "destroy" ∷ "delete" ∷ "remove" ∷ "terminate" ∷ "drop " ∷ "revoke" ∷ "detach" ∷ "decommission"
      ∷ "purge" ∷ [])
    then ToolRisk.destructive
    else if contains_any text (
        "secret" ∷ "token" ∷ "credential" ∷ "private_key" ∷ "private key" ∷ "session"
        ∷ "assume_role" ∷ "assume role" ∷ "client_secret" ∷ "access key" ∷ [])
    then ToolRisk.secret_sensitive
    else if contains_any text (
        "apply" ∷ "deploy" ∷ "create" ∷ "update" ∷ "put " ∷ "patch" ∷ "authorize" ∷ "ingress"
        ∷ "egress" ∷ "security group" ∷ "iam policy" ∷ "route table" ∷ [])
    then ToolRisk.cloud_mutation
    else if contains_any text (
        "write file" ∷ "workspace" ∷ "edit" ∷ "modify file" ∷ "commit" ∷ "pull request"
        ∷ "pr branch" ∷ "rename" ∷ "move file" ∷ [])
    then ToolRisk.modify_workspace
    else if contains_any text (
        "generate" ∷ "template" ∷ "hcl" ∷ "terraform code" ∷ "rego" ∷ "policy code" ∷ "yaml"
        ∷ "json patch" ∷ [])
    then ToolRisk.generate_code
    else if hint || starts_with name "get" || starts_with name "list" || starts_with name "describe"
    then ToolRisk.read_only
    else if contains_any text (
        "read" ∷ "lookup" ∷ "search" ∷ "show" ∷ "inspect" ∷ "query" ∷ "documentation" ∷ "docs"
        ∷ "registry" ∷ "provider" ∷ "module" ∷ [])
    then ToolRisk.read_only
    else ToolRisk.unknown
