-- ===== src/Airlock/Tests.antt =====
-- The tool firewall of internal/mcpairlock/tools.go on concrete tools.
use ia_cstudio.Prelude.{ok, ◌≡◌, String, ◌<>◌, true, not, [], ◌∷◌, some, All}
use ia_cstudio.Airlock.Types.{ToolRisk, ToolAllowlist, ToolRecord, default_risk}
use ia_cstudio.Airlock.Allow.{is_tool_allowlisted}
use ia_cstudio.Airlock.Firewall.{
  normalized_schema_state, schema_review_required, decide_tool_with_allowlist,
}
use ia_cstudio.Airlock.Inventory.{
  Codec, DiscoveredTool, Inventory, server_of, persist_discovered_tools,
}
use ia_cstudio.Airlock.Verdict.{verdict, flags, flags_of, is_read_only, decide-verdict}
use ia_cstudio.Airlock.Discovery.{Confirmed, persist-Confirmed}

abbrev listed : ToolAllowlist
listed = record {
  server_tools = ("aws", "apply" ∷ []) ∷ [];
  project_tools = ("demo", ("aws", "plan" ∷ "apply" ∷ []) ∷ []) ∷ [];
}

decide-verdict_example :
    flags_of (decide_tool_with_allowlist "aws" "demo" "plan" ToolRisk.cloud_mutation "known" listed)
    ≡ flags (
        verdict
          (not (schema_review_required (normalized_schema_state "known")))
          (is_read_only (default_risk ToolRisk.cloud_mutation))
          (is_tool_allowlisted listed "aws" "demo" "plan"))
decide-verdict_example = decide-verdict "aws" "demo" "plan" ToolRisk.cloud_mutation "known" listed

abbrev codec : Codec String
codec = record { schema_text = λ s. s; schema_hash = λ s. "h" <> s; to_lower = λ s. s }

abbrev get_tool : DiscoveredTool String
get_tool = record {
  name = " get_bucket ";
  description = "a bucket";
  input_schema = "s";
  read_only_hint = some true;
}

abbrev known_record : ToolRecord
known_record = record {
  description = "a bucket";
  input_schema_hash = "hs";
  last_seen_at = "t0";
  schema_state = "new";
  risk = ToolRisk.read_only;
}

abbrev inventory : Inventory
inventory = record {
  allowlist = listed;
  servers =
      ("aws", record { discovered_at = "t0"; tools = ("get_bucket", known_record) ∷ [] }) ∷ [];
}

persist-Confirmed_example :
    All
      (Confirmed (server_of inventory "aws").tools)
      (persist_discovered_tools codec listed "aws" "t1" (get_tool ∷ []) (ok inventory)).0
persist-Confirmed_example = persist-Confirmed codec listed "aws" "t1" (get_tool ∷ []) (ok inventory)
