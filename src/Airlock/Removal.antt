-- ===== src/Airlock/Removal.antt =====
-- `removeAllowlistTool` of internal/mcpairlock/tools.go.
use ia_cstudio.Prelude.{
  ◌≡◌, refl, String, false, not, ◌&&◌, List, [], ◌∷◌, any, arith, Bool-cases, Option-cases, inl,
  inr, ◌==◌, eq_refl, entry, assign, entry-assign, entry_empty,
}
use ia_cstudio.Text.Trim.{trim_space}
use ia_cstudio.Airlock.Types.{ToolAllowlist}
use ia_cstudio.Airlock.Allow.{
  contains_string, remove_string, server_list, is_tool_allowlisted, remove_allowlist_tool,
}

contains-remove_string :
    (values : List String) (target : String)
    → contains_string (remove_string values target) target ≡ false
unfolding contains_string remove_string
contains-remove_string [] target = refl
contains-remove_string (value ∷ values) target = elim (Bool-cases (trim_space value == target)) [
  | inl gone ↦ rw (gone, remove_string) (contains-remove_string values target)
  | inr stays ↦ rw (stays, remove_string) (rw stays (contains-remove_string values target))
]

removed :
    (tools : List (String × List String)) (server tool : String)
    → contains_string
        (server_list (assign tools server (remove_string (server_list tools server) tool)) server)
        tool
      ≡ false
removed tools server tool =
    rw (entry-assign tools server (remove_string (server_list tools server) tool) server)
      (rw eq_refl (contains-remove_string (server_list tools server) tool))

removed_any :
    (tools : List (String × List String)) (server tool : String)
    → any
        (λ value. trim_space value == tool)
        (server_list (assign tools server (remove_string (server_list tools server) tool)) server)
      ≡ false
unfolding contains_string
removed_any tools server tool = removed tools server tool

-- After a tool is removed for a server and a project it is on the allowlist for them only if it is
-- on the server's own list, and then only if a project was named; the server's list does not change
-- in that case, and loses the tool if no project was named.
remove-allowlisted :
    (allowlist : ToolAllowlist) (server project tool : String)
    → is_tool_allowlisted (remove_allowlist_tool allowlist server project tool) server project tool
      ≡ (not (trim_space project == "")
          && contains_string
              (server_list allowlist.server_tools (trim_space server))
              (trim_space tool))
unfolding is_tool_allowlisted remove_allowlist_tool contains_string
remove-allowlisted allowlist server project tool = elim (Bool-cases (trim_space project == "")) [
  | inl alone ↦
      rw (alone, remove_allowlist_tool)
        (rw (removed_any allowlist.server_tools (trim_space server) (trim_space tool)) refl)
  | inr named ↦ elim (Option-cases (entry allowlist.project_tools (trim_space project))) [
    | inl missing ↦
        rw (named, missing, remove_allowlist_tool)
          (rw missing (rw (entry_empty {A = List String} (trim_space server)) (ground arith)))
    | inr (servers, there) ↦
        let left = remove_string (server_list servers (trim_space server)) (trim_space tool) in
        let kept = assign servers (trim_space server) left in
        let project_entry =
          entry-assign allowlist.project_tools (trim_space project) kept (trim_space project) in
        let gone = removed_any servers (trim_space server) (trim_space tool) in
        rw (named, there, remove_allowlist_tool) (rw (project_entry, eq_refl, gone) (ground arith))
  ]
]
