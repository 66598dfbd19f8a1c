-- ===== src/Runner/Fallback.antt =====
-- The settings of a scoped command that has no AWS credentials, of internal/runner/safe_runner.go.
use Prim.Native.Char.{code}
use ia_cstudio.Prelude.{String, eqb, Bool, true, not, ◌&&◌, List, [], ◌∷◌}
use ia_cstudio.Runner.Environment.{set_env_value}

-- A key without the separator.
plain : String → Bool
plain String.[] = true
plain (String.◌∷◌ c k) = let rest = plain k in not (eqb (code c) b'=') && rest

abbrev pub config_key : String
config_key = "AWS_CONFIG_FILE"

abbrev pub credentials_key : String
credentials_key = "AWS_SHARED_CREDENTIALS_FILE"

abbrev pub metadata_key : String
metadata_key = "AWS_EC2_METADATA_DISABLED"

abbrev with_files : List String → String → List String
with_files env dev_null =
    set_env_value (set_env_value env credentials_key dev_null) config_key dev_null
