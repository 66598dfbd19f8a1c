-- ===== src/Airlock/Types.antt =====
-- internal/mcpairlock/tools.go: the types of the tool firewall. A Go string type with constants is a
-- data type; `other` holds any value that is none of the constants.
use ia_cstudio.Prelude.{String, Bool, true, false, List, ◌==◌, if◌then◌else◌}

pub data ToolRisk : Type 0 where
  read_only generate_code modify_workspace cloud_mutation : ToolRisk
  secret_sensitive destructive unknown : ToolRisk
  other : String → ToolRisk

-- `==` on risks
unfoldable pub same_risk : ToolRisk → ToolRisk → Bool
same_risk ToolRisk.read_only ToolRisk.read_only = true
same_risk ToolRisk.generate_code ToolRisk.generate_code = true
same_risk ToolRisk.modify_workspace ToolRisk.modify_workspace = true
same_risk ToolRisk.cloud_mutation ToolRisk.cloud_mutation = true
same_risk ToolRisk.secret_sensitive ToolRisk.secret_sensitive = true
same_risk ToolRisk.destructive ToolRisk.destructive = true
same_risk ToolRisk.unknown ToolRisk.unknown = true
same_risk (ToolRisk.other a) (ToolRisk.other b) = a == b
same_risk _ _ = false

-- the text of a risk
abbrev pub risk_text : ToolRisk → String
risk_text ToolRisk.read_only = "read_only"
risk_text ToolRisk.generate_code = "generate_code"
risk_text ToolRisk.modify_workspace = "modify_workspace"
risk_text ToolRisk.cloud_mutation = "cloud_mutation"
risk_text ToolRisk.secret_sensitive = "secret_sensitive"
risk_text ToolRisk.destructive = "destructive"
risk_text ToolRisk.unknown = "unknown"
risk_text (ToolRisk.other s) = s

-- `if risk == "" { risk = RiskUnknown }`
abbrev pub default_risk : ToolRisk → ToolRisk
default_risk (ToolRisk.other s) = if s == "" then ToolRisk.unknown else ToolRisk.other s
default_risk risk = risk

-- The maps of `ToolAllowlist`, as association lists.
pub record ToolAllowlist : Type 0 where
  pub server_tools : List (String × List String)
  pub project_tools : List (String × List (String × List String))

pub record ToolDecision : Type 0 where
  pub status : String
  pub allowed : Bool
  pub approval_required : Bool
  pub risk : ToolRisk
  pub reason : String
  pub allowlisted : Bool
  pub untrusted_output : Bool

pub record ToolInventoryEntry : Type 0 where
  pub server_id : String
  pub name : String
  pub description : String
  pub input_schema_hash : String
  pub last_seen_at : String
  pub schema_state : String
  pub risk : ToolRisk
  pub decision : ToolDecision

-- `persistedToolRecord`
pub record ToolRecord : Type 0 where
  pub description : String
  pub input_schema_hash : String
  pub last_seen_at : String
  pub schema_state : String
  pub risk : ToolRisk

-- `Check`
pub record Check : Type 0 where
  pub name : String
  pub status : String
  pub message : String
