-- ===== src/Airlock/Evaluation.antt =====
-- internal/mcpairlock/tools.go: the evaluation of one tool, and changes of the allowlist.
use ia_cstudio.Prelude.{
  String, Bool, not, Option, none, some, if◌then◌else◌, ◌==◌, Result, ok, err, entry,
}
use ia_cstudio.Text.Trim.{trim_space}
use ia_cstudio.Airlock.Types.{ToolRisk, ToolAllowlist, ToolInventoryEntry, default_risk}
use ia_cstudio.Airlock.Allow.{merge_allowlist, add_allowlist_tool, remove_allowlist_tool}
use ia_cstudio.Airlock.Firewall.{normalized_schema_state, decide_tool_with_allowlist}
use ia_cstudio.Airlock.Inventory.{Inventory, server_of}

unfoldable pub evaluate_tool_from_snapshot :
    ToolAllowlist → Inventory → String → String → String → ToolInventoryEntry
evaluate_tool_from_snapshot configured snapshot server project tool =
    let allowlist = merge_allowlist configured snapshot.allowlist in
    elim (entry (server_of snapshot server).tools tool) [
      | none ↦ record {
        server_id = server;
        name = tool;
        description = "";
        input_schema_hash = "";
        last_seen_at = "";
        schema_state = "unknown";
        risk = ToolRisk.unknown;
        decision =
            decide_tool_with_allowlist server project tool ToolRisk.unknown "unknown" allowlist;
      }
      | some r ↦ record {
        server_id = server;
        name = tool;
        description = r.description;
        input_schema_hash = r.input_schema_hash;
        last_seen_at = r.last_seen_at;
        schema_state = normalized_schema_state r.schema_state;
        risk = default_risk r.risk;
        decision =
            decide_tool_with_allowlist server project tool (default_risk r.risk)
              (normalized_schema_state r.schema_state) allowlist;
      }
    ]

pub data ToolError : Type 0 where
  unknown_server tool_name_required : ToolError
  inventory_error : String → ToolError

-- `EvaluateTool`; `known` tells the ids of the manager's servers, `load` is what `loadInventory` returns.
unfoldable pub evaluate_tool :
    (String → Bool)
    → ToolAllowlist
    → Result ToolError Inventory
    → String
    → String
    → String
    → Result ToolError ToolInventoryEntry
evaluate_tool known configured load server project tool =
    if known server
    then (if trim_space tool == "" then err ToolError.tool_name_required else elim load [
      | err e ↦ err e
      | ok snapshot ↦
          ok (evaluate_tool_from_snapshot configured snapshot server project (trim_space tool))
    ])
    else err ToolError.unknown_server

-- the change that `SetToolAllowlist` saves
unfoldable pub change_allowlist : String → String → String → Bool → Inventory → Inventory
change_allowlist server project tool allowed inventory = record inventory {
  allowlist =
      if allowed
      then add_allowlist_tool inventory.allowlist server project tool
      else remove_allowlist_tool inventory.allowlist server project tool;
}

-- `SetToolAllowlist`; `load_error` and `save_error` are what the inventory's file gives.
unfoldable pub set_tool_allowlist :
    (String → Bool)
    → ToolAllowlist
    → Option String
    → Option String
    → String
    → String
    → String
    → Bool
    → Inventory
    → Inventory × Result ToolError ToolInventoryEntry
unfolding change_allowlist
set_tool_allowlist known configured load_error save_error server project tool allowed inventory =
    let next = change_allowlist server project (trim_space tool) allowed inventory in
    if not (known server)
    then (inventory, err ToolError.unknown_server)
    else if trim_space tool == ""
    then (inventory, err ToolError.tool_name_required)
    else elim load_error [
      | some message ↦ (inventory, err (ToolError.inventory_error message))
      | none ↦ elim save_error [
        | some message ↦ (inventory, err (ToolError.inventory_error message))
        | none ↦ (
          next,
          ok (evaluate_tool_from_snapshot configured next server project (trim_space tool)),
        )
      ]
    ]
