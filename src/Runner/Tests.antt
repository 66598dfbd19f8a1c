-- ===== src/Runner/Tests.antt =====
-- Runs of internal/runner at concrete inputs.
use ia_cstudio.Prelude.{
  ◌≡◌, refl, ◌≢◌, ℕ, String, ◌<>◌, Bool, true, false, Option, none, List, [], ◌∷◌, ◌++◌, All, ◌⊎◌,
  inl, inr, length, take,
}
use ia_cstudio.Runner.Environment.{scoped_command_env, inheritable}
use ia_cstudio.Runner.Merging.{IsEntry}
use ia_cstudio.Runner.Scoped.{IsSource, scoped_command_env-IsSource}
use ia_cstudio.Runner.Ambient.{scoped_ignores}
use ia_cstudio.Runner.Output.{write_all, new_writer, limited, write_all_exact, joined}
use ia_cstudio.Runner.Commands.{
  SafetyConfig, build_args, requires_approval, timeout_for, parse_plan_summary,
}
use ia_cstudio.Runner.Approval.{IsHarmless, unapproved-IsHarmless}

abbrev server_env : List String
server_env =
    "PATH=/bin" ∷ "AWS_PROFILE=admin" ∷ "EDITOR=vi" ∷ "PATH=/tmp" ∷ "nonsense" ∷ "HOME=/root" ∷ []

abbrev connection : List (String × String)
connection = ("AWS_REGION", "eu-west-1") ∷ ("HOME", "/tmp/x") ∷ (" ", "blank") ∷ []

abbrev default_config : SafetyConfig
default_config = record {
  default_timeout = 300;
  plan_timeout = 600;
  apply_timeout = 1800;
  init_timeout = 300;
  require_approval = true;
  max_output_bytes = 10485760;
}

scoped_test :
    scoped_command_env "/dev/null" server_env connection
    ≡ "PATH=/bin" ∷ "HOME=/tmp/x" ∷ "AWS_REGION=eu-west-1" ∷ "AWS_SHARED_CREDENTIALS_FILE=/dev/null"
      ∷ "AWS_CONFIG_FILE=/dev/null" ∷ "AWS_EC2_METADATA_DISABLED=true" ∷ []
unfolding scoped_command_env ia_cstudio.Text.Trim.trim_space ia_cstudio.Prelude.entry
    ia_cstudio.Prelude.assign ia_cstudio.Runner.Environment.kept_variable ia_cstudio.Text.Split.cut
    inheritable ia_cstudio.Runner.Environment.is_cloud_credential_env_key
    ia_cstudio.Runner.Environment.env_entry ia_cstudio.Runner.Environment.has_key
scoped_test = refl

given_test :
    scoped_command_env "/dev/null" server_env (("AWS_PROFILE", "dev") ∷ [])
    ≡ "PATH=/bin" ∷ "HOME=/root" ∷ "AWS_PROFILE=dev" ∷ "AWS_EC2_METADATA_DISABLED=true" ∷ []
unfolding scoped_command_env ia_cstudio.Text.Trim.trim_space ia_cstudio.Prelude.entry
    ia_cstudio.Runner.Environment.kept_variable ia_cstudio.Text.Split.cut inheritable
    ia_cstudio.Runner.Environment.is_cloud_credential_env_key
    ia_cstudio.Runner.Environment.env_entry ia_cstudio.Prelude.assign
    ia_cstudio.Runner.Environment.has_key
given_test = refl

args_test :
    build_args "pulumi" "apply" "dev"
    ≡ "pulumi" ∷ "up" ∷ "--yes" ∷ "--non-interactive" ∷ "--color=never" ∷ "--stack" ∷ "dev" ∷ []
unfolding build_args
args_test = refl

timeout_test : timeout_for default_config "preview" ≡ 600
unfolding timeout_for
timeout_test = refl

summary_test :
    parse_plan_summary "Refreshing\n  Plan: 1 to add, 0 to change, 0 to destroy. \n"
    ≡ "Plan: 1 to add, 0 to change, 0 to destroy."
unfolding parse_plan_summary ia_cstudio.Text.Split.split ia_cstudio.Text.Trim.contains
    ia_cstudio.Text.Trim.trim_space
summary_test = refl

write_test :
    write_all 3 new_writer ((1 ∷ 2 ∷ []) ∷ (3 ∷ 4 ∷ []) ∷ (5 ∷ []) ∷ [])
    ≡ record { buf = 1 ∷ 2 ∷ 3 ∷ []; truncated = true }
unfolding write_all new_writer
write_test = refl

write_all_exact_example :
    write_all 3 new_writer ((1 ∷ 2 ∷ []) ∷ (3 ∷ 4 ∷ []) ∷ (5 ∷ []) ∷ [])
    ≡ limited 3 (joined ((1 ∷ 2 ∷ []) ∷ (3 ∷ 4 ∷ []) ∷ (5 ∷ []) ∷ []))
write_all_exact_example = write_all_exact 3 ((1 ∷ 2 ∷ []) ∷ (3 ∷ 4 ∷ []) ∷ (5 ∷ []) ∷ [])

scoped_command_env-IsSource_example :
    All
      (IsEntry (IsSource "/dev/null" server_env connection))
      (scoped_command_env "/dev/null" server_env connection)
scoped_command_env-IsSource_example = scoped_command_env-IsSource "/dev/null" server_env connection

scoped_ignores_example :
    scoped_command_env "/dev/null"
      (("PATH=/bin" ∷ []) ++ "AWS_PROFILE=admin" ∷ "HOME=/root" ∷ [])
      connection
    ≡ scoped_command_env "/dev/null" (("PATH=/bin" ∷ []) ++ "HOME=/root" ∷ []) connection
unfolding ia_cstudio.Text.Split.cut inheritable
    ia_cstudio.Runner.Environment.is_cloud_credential_env_key
scoped_ignores_example =
    scoped_ignores "AWS_PROFILE=admin" "AWS_PROFILE" "admin" refl (inr refl) "/dev/null"
      ("PATH=/bin" ∷ []) ("HOME=/root" ∷ []) connection

unapproved-IsHarmless_example : IsHarmless "dev" (build_args "pulumi" "preview" "dev")
unfolding requires_approval
unapproved-IsHarmless_example =
    unapproved-IsHarmless default_config "pulumi" "preview" "dev" refl refl
