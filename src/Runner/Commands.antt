-- ===== src/Runner/Commands.antt =====
-- `buildArgs` of internal/runner/runner.go; `RequiresApproval`, `timeoutFor` and `ParsePlanSummary` of
-- internal/runner/safe_runner.go.
use ia_cstudio.Prelude.{String, Bool, ◌&&◌, ◌||◌, List, [], ◌∷◌, ◌++◌, any, if◌then◌else◌, ◌==◌, ℕ}
use ia_cstudio.Text.Split.{split}
use ia_cstudio.Text.Trim.{trim_space, contains}

-- no arguments for an unknown command
unfoldable pub terraform_args : String → String → List String
terraform_args command binary =
    if command == "init"
    then binary ∷ "init" ∷ []
    else if command == "plan"
    then binary ∷ "plan" ∷ "-out=tfplan" ∷ "-no-color" ∷ []
    else if command == "apply"
    then binary ∷ "apply" ∷ "-no-color" ∷ "tfplan" ∷ []
    else if command == "destroy"
    then binary ∷ "destroy" ∷ "-auto-approve" ∷ "-no-color" ∷ []
    else if command == "validate"
    then binary ∷ "validate" ∷ "-no-color" ∷ []
    else if command == "fmt"
    then binary ∷ "fmt" ∷ []
    else []

unfoldable pub with_stack : String → List String → List String
with_stack env args = if env == "" then args else args ++ "--stack" ∷ env ∷ []

unfoldable pub pulumi_args : String → String → List String
unfolding with_stack
pulumi_args command env =
    if command == "init"
    then "npm" ∷ "install" ∷ []
    else if command == "plan" || command == "preview"
    then with_stack env ("pulumi" ∷ "preview" ∷ "--non-interactive" ∷ "--color=never" ∷ [])
    else if command == "apply" || command == "up"
    then with_stack env ("pulumi" ∷ "up" ∷ "--yes" ∷ "--non-interactive" ∷ "--color=never" ∷ [])
    else if command == "destroy"
    then with_stack env
        ("pulumi" ∷ "destroy" ∷ "--yes" ∷ "--non-interactive" ∷ "--color=never" ∷ [])
    else if command == "refresh"
    then with_stack env
        ("pulumi" ∷ "refresh" ∷ "--yes" ∷ "--non-interactive" ∷ "--color=never" ∷ [])
    else if command == "validate"
    then "npx" ∷ "tsc" ∷ "--noEmit" ∷ []
    else []

unfoldable pub ansible_args : String → List String
ansible_args command =
    if command == "check"
    then "ansible-playbook" ∷ "site.yml" ∷ "--check" ∷ "--diff" ∷ []
    else if command == "playbook" || command == "apply"
    then "ansible-playbook" ∷ "site.yml" ∷ []
    else if command == "syntax"
    then "ansible-playbook" ∷ "site.yml" ∷ "--syntax-check" ∷ []
    else if command == "inventory"
    then "ansible-inventory" ∷ "--list" ∷ []
    else []

unfoldable pub build_args : String → String → String → List String
unfolding terraform_args ansible_args pulumi_args
build_args tool command env =
    if tool == "terraform"
    then terraform_args command "terraform"
    else if tool == "opentofu"
    then terraform_args command "tofu"
    else if tool == "ansible"
    then ansible_args command
    else if tool == "pulumi"
    then pulumi_args command env
    else []

-- the durations of `SafetyConfig` are numbers
pub record SafetyConfig : Type 0 where
  pub default_timeout : ℕ
  pub plan_timeout : ℕ
  pub apply_timeout : ℕ
  pub init_timeout : ℕ
  pub require_approval : Bool
  pub max_output_bytes : ℕ

unfoldable pub requires_approval : SafetyConfig → String → Bool
requires_approval defaults command =
    defaults.require_approval
    && any (λ c. command == c) ("apply" ∷ "playbook" ∷ "up" ∷ "destroy" ∷ "refresh" ∷ [])

unfoldable pub timeout_for : SafetyConfig → String → ℕ
timeout_for defaults command =
    if command == "init"
    then defaults.init_timeout
    else if command == "plan" || command == "preview"
    then defaults.plan_timeout
    else if any (λ c. command == c) ("apply" ∷ "up" ∷ "destroy" ∷ "refresh" ∷ [])
    then defaults.apply_timeout
    else defaults.default_timeout

summary_of_lines : List String → String
summary_of_lines [] = "Unable to parse plan summary"
summary_of_lines (line ∷ lines) =
    let later = summary_of_lines lines in
    if contains line "to add" && contains line "to change"
    then trim_space line
    else if contains line "No changes" || contains line "no changes"
    then "No changes. Infrastructure is up-to-date."
    else later

unfoldable pub parse_plan_summary : String → String
unfolding summary_of_lines
parse_plan_summary output = summary_of_lines (split b'\n' output)
