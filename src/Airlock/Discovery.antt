-- ===== src/Airlock/Discovery.antt =====
-- Discoveries of internal/mcpairlock/tools.go, `persistDiscoveredTools`.
use ia_cstudio.Prelude.{
  ◌≡◌, refl, sym, ap, ◌∙◌, String, Bool, true, false, List, [], ◌∷◌, Option, none, some, arith,
  Bool-cases, inl, inr, ◌==◌, eq_iff, entry, assign, All, Result,
}
use ia_cstudio.Text.Trim.{trim_space}
use ia_cstudio.Airlock.Types.{ToolRisk, ToolAllowlist, ToolInventoryEntry, ToolRecord, default_risk}
use ia_cstudio.Airlock.Allow.{merge_allowlist}
use ia_cstudio.Airlock.Firewall.{normalized_schema_state, schema_review_required}
use ia_cstudio.Airlock.Inventory.{
  Codec, DiscoveredTool, Inventory, server_of, classify_tool, schema_state, discovered_entry,
  record_of, discover, insert_entry, comes_before, sort_tool_entries, previous_of,
  persist_discovered_tools,
}
use ia_cstudio.Airlock.Verdict.{verdict, flags, is_read_only, decide-verdict}

-- an allowed tool has a known schema and reads only
verdict_allowed :
    (known reads listed : Bool)
    → (flags (verdict known reads listed)).1 ≡ true
    → (known ≡ true) × (reads ≡ true)
unfolding verdict
verdict_allowed true true listed e = (refl, refl)
verdict_allowed true false true e = cc
verdict_allowed true false false e = cc
verdict_allowed false reads true e = cc
verdict_allowed false reads false e = cc

reads_only : (risk : ToolRisk) → is_read_only (default_risk risk) ≡ true → risk ≡ ToolRisk.read_only
reads_only ToolRisk.read_only e = refl
reads_only (ToolRisk.other s) e = elim (Bool-cases (s == "")) [
  | inl blank ↦ let clash = rw blank at e in cc
  | inr named ↦ let clash = rw named at e in cc
]
reads_only _ e = cc

-- An entry that is allowed has the name and the schema's hash of a tool of the last discovery.
abbrev pub Confirmed : List (String × ToolRecord) → ToolInventoryEntry → Type 0
Confirmed prior e =
    e.decision.allowed ≡ true
    → (r : ToolRecord) × (entry prior e.name ≡ some r)
      × (r.input_schema_hash ≡ e.input_schema_hash)
      × (e.risk ≡ ToolRisk.read_only)

module _ {Schema : Type 0} (codec : Codec Schema) where
  known_schema :
      (prior : Option ToolRecord) (hash : String)
      → schema_review_required (normalized_schema_state (schema_state codec prior hash)) ≡ false
      → (r : ToolRecord) × (prior ≡ some r) × (r.input_schema_hash ≡ hash)
  unfolding schema_state normalized_schema_state schema_review_required trim_space
  known_schema none hash e = cc
  known_schema (some r) hash e = elim (Bool-cases (r.input_schema_hash == hash)) [
    | inl same ↦ (r, refl, (eq_iff r.input_schema_hash hash).0 same)
    | inr differs ↦ let clash = rw differs at e in cc
  ]

  allowed-entry :
      (id at : String) (prior : List (String × ToolRecord)) (allowlist : ToolAllowlist)
      (tool : DiscoveredTool Schema)
      → Confirmed prior (discovered_entry codec id at prior allowlist tool)
  unfolding discovered_entry
  allowed-entry id at prior allowlist tool allowed =
      let name = trim_space tool.name in
      let state = schema_state codec (entry prior name) (codec.schema_hash tool.input_schema) in
      let shape = decide-verdict id "" name (classify_tool codec tool) state allowlist in
      let (known, reads) = verdict_allowed _ _ _ (sym (ap (λ f. f.1) shape) ∙ allowed) in
      let (r, found, same) = known_schema (entry prior name) _ (ground (arith, known)) in
      (r, found, same, reads_only (classify_tool codec tool) reads)

  discover-Confirmed :
      (id at : String) (prior : List (String × ToolRecord)) (allowlist : ToolAllowlist)
      (tools : List (DiscoveredTool Schema)) (seen : List (String × ToolRecord))
      → All (Confirmed prior) (discover codec id at prior allowlist tools seen).0
  unfolding discover
  discover-Confirmed id at prior allowlist [] seen = tt
  discover-Confirmed id at prior allowlist (tool ∷ tools) seen =
      let e = discovered_entry codec id at prior allowlist tool in
      elim (Bool-cases (trim_space tool.name == "")) [
        | inl blank ↦ rw (blank, discover) (discover-Confirmed id at prior allowlist tools seen)
        | inr named ↦
            rw (named, discover)
              (
                allowed-entry id at prior allowlist tool,
                discover-Confirmed id at prior allowlist tools
                    (assign seen e.name (record_of codec e)),
              )
      ]

  insert_entry-Confirmed :
      (prior : List (String × ToolRecord)) (e : ToolInventoryEntry) (es : List ToolInventoryEntry)
      → Confirmed prior e
      → All (Confirmed prior) es
      → All (Confirmed prior) (insert_entry e es)
  unfolding insert_entry
  insert_entry-Confirmed prior e [] c cs = (c, tt)
  insert_entry-Confirmed prior e (x ∷ xs) c (cx, cs) = elim (Bool-cases (comes_before x e)) [
    | inl first ↦ rw (first, insert_entry) (cx, insert_entry-Confirmed prior e xs c cs)
    | inr last ↦ rw (last, insert_entry) (c, (cx, cs))
  ]

  sort-Confirmed :
      (prior : List (String × ToolRecord)) (es : List ToolInventoryEntry)
      → All (Confirmed prior) es
      → All (Confirmed prior) (sort_tool_entries es)
  unfolding sort_tool_entries
  sort-Confirmed prior [] cs = tt
  sort-Confirmed prior (e ∷ es) (c, cs) =
      insert_entry-Confirmed prior e (sort_tool_entries es) c (sort-Confirmed prior es cs)

  -- A discovery allows a tool only if the inventory that was loaded has a tool of the same server and
  -- name with the same hash of its schema, and the tool is classified as read-only: a new or a
  -- changed tool is never allowed, and none is if the inventory could not be loaded.
  pub persist-Confirmed :
      (configured : ToolAllowlist) (id at : String) (tools : List (DiscoveredTool Schema))
      (loaded : Result String Inventory)
      → All
          (Confirmed (server_of (previous_of loaded).0 id).tools)
          (persist_discovered_tools codec configured id at tools loaded).0
  unfolding persist_discovered_tools
  persist-Confirmed configured id at tools loaded =
      let previous = (previous_of loaded).0 in
      sort-Confirmed (server_of previous id).tools _ (
        discover-Confirmed id at (server_of previous id).tools
          (merge_allowlist configured previous.allowlist) tools [])
