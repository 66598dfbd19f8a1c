-- ===== src/Airlock/Allow.antt =====
-- internal/mcpairlock/tools.go: the allowlist of tools.
use ia_cstudio.Prelude.{
  String, Bool, not, ◌&&◌, ◌||◌, List, [], ◌∷◌, ◌++◌, none, some, if◌then◌else◌, any, ◌==◌, entry,
  or_else, assign,
}
use ia_cstudio.Text.Trim.{trim_space}
use ia_cstudio.Airlock.Types.{ToolAllowlist}

unfoldable pub contains_string : List String → String → Bool
contains_string values target = any (λ value. trim_space value == target) values

unfoldable pub remove_string : List String → String → List String
remove_string [] target = []
remove_string (value ∷ values) target =
    let out = remove_string values target in if trim_space value == target then out else value ∷ out

-- a missing key of the maps
abbrev pub server_list : List (String × List String) → String → List String
server_list tools server = or_else (entry tools server) []

abbrev pub project_list :
    List (String × List (String × List String)) → String → List (String × List String)
project_list tools project = or_else (entry tools project) []

unfoldable pub is_tool_allowlisted : ToolAllowlist → String → String → String → Bool
unfolding contains_string
is_tool_allowlisted allowlist server project tool =
    let server = trim_space server in
    let project = trim_space project in
    let tool = trim_space tool in
    contains_string (server_list allowlist.server_tools server) tool
    || not (project == "")
      && contains_string (server_list (project_list allowlist.project_tools project) server) tool

unfoldable pub append_tool :
    List (String × List String) → String → String → List (String × List String)
unfolding contains_string
append_tool tools server tool =
    if contains_string (server_list tools server) tool
    then tools
    else assign tools server (server_list tools server ++ tool ∷ [])

-- A project without tools is in the map after a call, with no server, as in the source.
unfoldable pub add_allowlist_tool : ToolAllowlist → String → String → String → ToolAllowlist
unfolding append_tool
add_allowlist_tool allowlist server project tool =
    let server = trim_space server in
    let project = trim_space project in
    let tool = trim_space tool in
    if tool == ""
    then allowlist
    else if project == ""
    then record allowlist { server_tools = append_tool allowlist.server_tools server tool }
    else record allowlist {
      project_tools =
          assign allowlist.project_tools project
            (append_tool (project_list allowlist.project_tools project) server tool);
    }

unfoldable pub remove_allowlist_tool : ToolAllowlist → String → String → String → ToolAllowlist
remove_allowlist_tool allowlist server project tool =
    let server = trim_space server in
    let project = trim_space project in
    let tool = trim_space tool in
    if project == ""
    then record allowlist {
      server_tools =
          assign allowlist.server_tools server
            (remove_string (server_list allowlist.server_tools server) tool);
    }
    else elim (entry allowlist.project_tools project) [
      | none ↦ allowlist
      | some servers ↦ record allowlist {
        project_tools =
            assign allowlist.project_tools project
              (assign servers server (remove_string (server_list servers server) tool));
      }
    ]

-- The loops of `mergeAllowlist`, in the order of the association lists; Go visits a map in any order.
add_tools : ToolAllowlist → String → String → List String → ToolAllowlist
add_tools dst server project [] = dst
add_tools dst server project (tool ∷ tools) =
    add_tools (add_allowlist_tool dst server project tool) server project tools

add_servers : ToolAllowlist → String → List (String × List String) → ToolAllowlist
unfolding add_tools
add_servers dst project [] = dst
add_servers dst project ((server, tools) ∷ rest) =
    add_servers (add_tools dst server project tools) project rest

add_projects : ToolAllowlist → List (String × List (String × List String)) → ToolAllowlist
unfolding add_servers
add_projects dst [] = dst
add_projects dst ((project, servers) ∷ rest) = add_projects (add_servers dst project servers) rest

unfoldable pub merge_allowlist : ToolAllowlist → ToolAllowlist → ToolAllowlist
unfolding add_projects add_servers
merge_allowlist dst src = add_projects (add_servers dst "" src.server_tools) src.project_tools
