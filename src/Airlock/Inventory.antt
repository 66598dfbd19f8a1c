-- ===== src/Airlock/Inventory.antt =====
-- internal/mcpairlock/tools.go: the discovered tools of a server. JSON schemas and their hash, and
-- lower-casing, are parameters.
use Prim.Native.String.{compare}
use Prim.Native.Nat.{Ordering}
use ia_cstudio.Prelude.{
  ◌<>◌, ◌++◌, String, Bool, true, false, List, [], ◌∷◌, Option, none, some, if◌then◌else◌, ◌==◌,
  Result, ok, err, length, entry, or_else, assign,
}
use ia_cstudio.Text.Trim.{trim_space}
use ia_cstudio.Text.Numbered.{decimal}
use ia_cstudio.Airlock.Types.{
  ToolRisk, ToolAllowlist, ToolInventoryEntry, ToolRecord, Check, same_risk, risk_text,
}
use ia_cstudio.Airlock.Allow.{merge_allowlist}
use ia_cstudio.Airlock.Firewall.{decide_tool_with_allowlist, classify_text}

-- A tool of `tools/list`; the hint is the annotation `readOnlyHint`, where it is a Boolean.
pub record DiscoveredTool (Schema : Type 0) : Type 0 where
  pub name : String
  pub description : String
  pub input_schema : Schema
  pub read_only_hint : Option Bool

-- `schemaText`, `schemaHash` and `strings.ToLower`
pub record Codec (Schema : Type 0) : Type 0 where
  pub schema_text : Schema → String
  pub schema_hash : Schema → String
  pub to_lower : String → String

pub record ServerTools : Type 0 where
  pub discovered_at : String
  pub tools : List (String × ToolRecord)

-- `persistedToolInventory`
pub record Inventory : Type 0 where
  pub allowlist : ToolAllowlist
  pub servers : List (String × ServerTools)

abbrev pub no_tools : ServerTools
no_tools = record { discovered_at = ""; tools = [] }

abbrev pub server_of : Inventory → String → ServerTools
server_of inventory id = or_else (entry inventory.servers id) no_tools

-- `<` on strings: the order of bytes, which is that of code points
abbrev less : String → String → Bool
less a b = elim (compare a b) [ Ordering.lt ↦ true | _ ↦ false ]

-- the order of `sortToolEntries`
unfoldable pub comes_before : ToolInventoryEntry → ToolInventoryEntry → Bool
comes_before a b =
    if same_risk a.risk b.risk
    then less a.name b.name
    else less (risk_text a.risk) (risk_text b.risk)

-- a row in front of those that do not come before it
unfoldable pub insert_entry : ToolInventoryEntry → List ToolInventoryEntry → List ToolInventoryEntry
unfolding comes_before
insert_entry e [] = e ∷ []
insert_entry e (x ∷ xs) =
    let later = insert_entry e xs in if comes_before x e then x ∷ later else e ∷ x ∷ xs

-- `sortToolEntries`, which is stable
unfoldable pub sort_tool_entries : List ToolInventoryEntry → List ToolInventoryEntry
unfolding insert_entry
sort_tool_entries [] = []
sort_tool_entries (e ∷ es) = insert_entry e (sort_tool_entries es)

-- the inventory that a discovery starts from, and the warning if none could be loaded
abbrev pub previous_of : Result String Inventory → Inventory × List Check
previous_of (ok inventory) = (inventory, [])
previous_of (err message) = (
  record { allowlist = record { server_tools = []; project_tools = [] }; servers = [] },
  record { name = "inventory"; status = "warn"; message = message } ∷ [],
)

-- the last check of a discovery
unfoldable pub discovery_check : List ToolInventoryEntry → Check
discovery_check [] = record {
  name = "tool_discovery";
  status = "warn";
  message = "tools/list returned no tools";
}
discovery_check (e ∷ es) = record {
  name = "tool_discovery";
  status = "pass";
  message = "discovered " <> decimal (length (e ∷ es)) <> " external MCP tools";
}

module _ {Schema : Type 0} (codec : Codec Schema) where
  unfoldable pub classify_tool : DiscoveredTool Schema → ToolRisk
  classify_tool tool =
      classify_text
        (codec.to_lower
          (tool.name <> " " <> tool.description <> " " <> codec.schema_text tool.input_schema))
        (codec.to_lower tool.name) (or_else tool.read_only_hint false)

  -- the state of a schema against the record of the last discovery
  unfoldable pub schema_state : Option ToolRecord → String → String
  schema_state none hash = "new"
  schema_state (some prior) hash = if prior.input_schema_hash == hash then "known" else "changed"

  -- the entry of one tool, in the loop of `persistDiscoveredTools`
  unfoldable pub discovered_entry :
      String
      → String
      → List (String × ToolRecord)
      → ToolAllowlist
      → DiscoveredTool Schema
      → ToolInventoryEntry
  unfolding classify_tool schema_state
  discovered_entry id at prior allowlist tool =
      let name = trim_space tool.name in
      let hash = codec.schema_hash tool.input_schema in
      let state = schema_state (entry prior name) hash in
      let risk = classify_tool tool in
      record {
        server_id = id;
        name = name;
        description = trim_space tool.description;
        input_schema_hash = hash;
        last_seen_at = at;
        schema_state = state;
        risk = risk;
        decision = decide_tool_with_allowlist id "" name risk state allowlist;
      }

  abbrev pub record_of : ToolInventoryEntry → ToolRecord
  record_of e = record {
    description = e.description;
    input_schema_hash = e.input_schema_hash;
    last_seen_at = e.last_seen_at;
    schema_state = e.schema_state;
    risk = e.risk;
  }

  -- The loop: the entries, in the order of discovery, and the records in `seen`.
  unfoldable pub discover :
      String
      → String
      → List (String × ToolRecord)
      → ToolAllowlist
      → List (DiscoveredTool Schema)
      → List (String × ToolRecord)
      → List ToolInventoryEntry × List (String × ToolRecord)
  unfolding discovered_entry
  discover id at prior allowlist [] seen = ([], seen)
  discover id at prior allowlist (tool ∷ tools) seen =
      let e = discovered_entry id at prior allowlist tool in
      let skipped = discover id at prior allowlist tools seen in
      let later = discover id at prior allowlist tools (assign seen e.name (record_of e)) in
      if trim_space tool.name == "" then skipped else (e ∷ later.0, later.1)

  -- `persistDiscoveredTools`: the rows, the inventory that is saved, and the checks that are appended;
  -- `configured` is the manager's own allowlist, `loaded` what the inventory's file gave.
  unfoldable pub persist_discovered_tools :
      ToolAllowlist
      → String
      → String
      → List (DiscoveredTool Schema)
      → Result String Inventory
      → List ToolInventoryEntry × Inventory × List Check
  unfolding discover sort_tool_entries discovery_check
  persist_discovered_tools configured id at tools loaded =
      let previous = (previous_of loaded).0 in
      let found =
        discover id at (server_of previous id).tools (merge_allowlist configured previous.allowlist)
          tools [] in
      (
        sort_tool_entries found.0,
        record previous {
          servers = assign previous.servers id (record { discovered_at = at; tools = found.1 });
        },
        (previous_of loaded).1 ++ discovery_check found.0 ∷ [],
      )
