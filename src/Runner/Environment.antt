-- ===== src/Runner/Environment.antt =====
-- The environments of commands: `scopedCommandEnv`, `mergeEnv` and their helpers of
-- internal/runner/safe_runner.go. The map of overrides is a list of pairs with different keys, in the
-- order in which Go happens to run through it; `os.DevNull` is a parameter.
use text.Mathlib.Text.{starts_with}
use ia_cstudio.Prelude.{
  String, ◌<>◌, Bool, false, not, ◌&&◌, ◌||◌, Option, none, some, List, [], ◌∷◌, ◌++◌, map, any,
  if◌then◌else◌, ◌==◌, entry, assign, or_else,
}
use ia_cstudio.Text.Split.{cut}
use ia_cstudio.Text.Trim.{trim_space}

-- `key + "=" + value`
unfoldable pub env_entry : String → String → String
env_entry key value = key <> "=" <> value

abbrev pub cloud_credential_keys : List String
cloud_credential_keys =
    "AWS_ACCESS_KEY_ID" ∷ "AWS_SECRET_ACCESS_KEY" ∷ "AWS_SESSION_TOKEN" ∷ "AWS_PROFILE"
    ∷ "AWS_DEFAULT_PROFILE" ∷ "AWS_SHARED_CREDENTIALS_FILE" ∷ "AWS_CONFIG_FILE"
    ∷ "AWS_SDK_LOAD_CONFIG" ∷ "AWS_ROLE_ARN" ∷ "AWS_WEB_IDENTITY_TOKEN_FILE"
    ∷ "AWS_CONTAINER_CREDENTIALS_FULL_URI" ∷ "AWS_CONTAINER_CREDENTIALS_RELATIVE_URI"
    ∷ "AWS_CONTAINER_AUTHORIZATION_TOKEN" ∷ "AWS_CONTAINER_AUTHORIZATION_TOKEN_FILE"
    ∷ "AWS_EC2_METADATA_DISABLED" ∷ "AWS_REGION" ∷ "AWS_DEFAULT_REGION" ∷ "ARM_CLIENT_ID"
    ∷ "ARM_CLIENT_SECRET" ∷ "ARM_CLIENT_CERTIFICATE_PATH" ∷ "ARM_CLIENT_CERTIFICATE_PASSWORD"
    ∷ "ARM_TENANT_ID" ∷ "ARM_SUBSCRIPTION_ID" ∷ "ARM_USE_MSI" ∷ "ARM_MSI_ENDPOINT"
    ∷ "ARM_OIDC_TOKEN" ∷ "ARM_USE_OIDC" ∷ "AZURE_CLIENT_ID" ∷ "AZURE_CLIENT_SECRET"
    ∷ "AZURE_TENANT_ID" ∷ "AZURE_SUBSCRIPTION_ID" ∷ "GOOGLE_APPLICATION_CREDENTIALS"
    ∷ "GOOGLE_CREDENTIALS" ∷ "GOOGLE_CLOUD_KEYFILE_JSON" ∷ "GOOGLE_OAUTH_ACCESS_TOKEN"
    ∷ "GOOGLE_PROJECT" ∷ "GOOGLE_CLOUD_PROJECT" ∷ "GOOGLE_REGION"
    ∷ "CLOUDSDK_AUTH_CREDENTIAL_FILE_OVERRIDE" ∷ "CLOUDSDK_CORE_PROJECT" ∷ "CLOUDSDK_COMPUTE_REGION"
    ∷ "TF_CLOUD_TOKEN" ∷ "TFE_TOKEN" ∷ []

unfoldable pub is_cloud_credential_env_key : String → Bool
is_cloud_credential_env_key key =
    starts_with key "TF_TOKEN_" || any (λ k. key == k) cloud_credential_keys

-- the keys of `allow`
abbrev pub allowed_keys : List String
allowed_keys =
    "PATH" ∷ "Path" ∷ "PATHEXT" ∷ "HOME" ∷ "USERPROFILE" ∷ "HOMEDRIVE" ∷ "HOMEPATH" ∷ "APPDATA"
    ∷ "LOCALAPPDATA" ∷ "SystemRoot" ∷ "WINDIR" ∷ "TMPDIR" ∷ "TMP" ∷ "TEMP" ∷ "LANG" ∷ "LC_ALL"
    ∷ "SSL_CERT_FILE" ∷ "SSL_CERT_DIR" ∷ "REQUESTS_CA_BUNDLE" ∷ "CURL_CA_BUNDLE" ∷ "HTTP_PROXY"
    ∷ "HTTPS_PROXY" ∷ "NO_PROXY" ∷ "http_proxy" ∷ "https_proxy" ∷ "no_proxy" ∷ []

unfoldable pub inheritable : String → Bool
inheritable key =
    not (key == "") && any (λ k. key == k) allowed_keys && not (is_cloud_credential_env_key key)

-- what an entry of the base contributes, given the keys that were seen
unfoldable pub kept_variable : List String → String → Option (String × String)
kept_variable seen e = elim (cut b'=' e) [
  | none ↦ none
  | some (key, value) ↦
      if not (any (λ k. key == k) seen) && inheritable key then some (key, value) else none
]

unfoldable pub minimal_from : List String → List String → List String
minimal_from seen [] = []
minimal_from seen (e ∷ base) = elim (kept_variable seen e) [
  | none ↦ minimal_from seen base
  | some (key, value) ↦ env_entry key value ∷ minimal_from (key ∷ seen) base
]

unfoldable pub minimal_command_env : List String → List String
unfolding minimal_from
minimal_command_env base = minimal_from [] base

-- the variables `values` and `order` of `mergeEnv`
pub record Merged : Type 0 where
  pub values : List (String × String)
  pub order : List String

unfoldable pub put : Merged → String → String → Merged
put m key value = record {
  values = assign m.values key value;
  order = elim (entry m.values key) [ none ↦ m.order ++ key ∷ [] | some _ ↦ m.order ];
}

unfoldable pub merge_base : Merged → List String → Merged
unfolding put
merge_base m [] = m
merge_base m (e ∷ base) = elim (cut b'=' e) [
  | none ↦ merge_base m base
  | some (key, value) ↦ merge_base (if key == "" then m else put m key value) base
]

unfoldable pub merge_overrides : Merged → List (String × String) → Merged
unfolding put
merge_overrides m [] = m
merge_overrides m ((key, value) ∷ overrides) =
    merge_overrides (if trim_space key == "" then m else put m key value) overrides

unfoldable pub merged_entry : Merged → String → String
merged_entry m key = env_entry key (or_else (entry m.values key) "")

unfoldable pub merge_env : List String → List (String × String) → List String
unfolding merge_base merge_overrides merged_entry
merge_env base overrides =
    let m = merge_overrides (merge_base (record { values = []; order = [] }) base) overrides in
    map (merged_entry m) m.order

unfoldable pub has_key : String → String → Bool
has_key e key = elim (cut b'=' e) [ none ↦ false | some (k, _) ↦ k == key ]

unfoldable pub env_value : List String → String → Option String
env_value [] want = none
env_value (e ∷ env) want = elim (cut b'=' e) [
  | none ↦ env_value env want
  | some (key, value) ↦ if key == want then some value else env_value env want
]

unfoldable pub env_has_non_empty_value : List String → String → Bool
unfolding env_value
env_has_non_empty_value env want = elim (env_value env want) [
  | none ↦ false
  | some value ↦ not (trim_space value == "")
]

unfoldable pub has_aws_credential_source : List String → Bool
unfolding env_has_non_empty_value
has_aws_credential_source env =
    let has = env_has_non_empty_value env in
    has "AWS_ACCESS_KEY_ID" && has "AWS_SECRET_ACCESS_KEY"
    || has "AWS_ROLE_ARN" && has "AWS_WEB_IDENTITY_TOKEN_FILE"
    || has "AWS_PROFILE"
    || has "AWS_DEFAULT_PROFILE"
    || has "AWS_SHARED_CREDENTIALS_FILE"
    || has "AWS_CONFIG_FILE"
    || has "AWS_CONTAINER_CREDENTIALS_RELATIVE_URI"
    || has "AWS_CONTAINER_CREDENTIALS_FULL_URI"

unfoldable pub set_env_value : List String → String → String → List String
set_env_value [] key value = env_entry key value ∷ []
set_env_value (e ∷ env) key value =
    let later = set_env_value env key value in
    if has_key e key then env_entry key value ∷ env else e ∷ later

unfoldable pub scoped_command_env : String → List String → List (String × String) → List String
unfolding minimal_command_env merge_env has_aws_credential_source env_has_non_empty_value
    set_env_value
scoped_command_env dev_null base overrides =
    let merged = merge_env (minimal_command_env base) overrides in
    let env =
      if has_aws_credential_source merged
      then merged
      else set_env_value (set_env_value merged "AWS_SHARED_CREDENTIALS_FILE" dev_null)
          "AWS_CONFIG_FILE" dev_null in
    if env_has_non_empty_value env "AWS_EC2_METADATA_DISABLED"
    then env
    else set_env_value env "AWS_EC2_METADATA_DISABLED" "true"
