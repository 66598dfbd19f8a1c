-- ===== src/Runner/Scoped.antt =====
-- What a scoped command can see, of internal/runner/safe_runner.go.

use mathlib.Core.Option.{none-ne-some, some-injective}
use ia_cstudio.Prelude.{
  ◌≡◌, refl, sym, ap, ◌∙◌, ◌⊎◌, inl, inr, String, true, not, ◌&&◌, some, List, [], ◌∷◌, any, arith,
  Bool-cases, Option-cases, ◌==◌, entry_empty, All, if-both, Bool, false,
}
use ia_cstudio.Text.Split.{cut}
use ia_cstudio.Runner.Environment.{
  allowed_keys, is_cloud_credential_env_key, inheritable, kept_variable, minimal_from,
  minimal_command_env, merge_base, merge_overrides, merge_env, env_has_non_empty_value,
  has_aws_credential_source, set_env_value, scoped_command_env,
}
use ia_cstudio.Runner.Cutting.{IsCut, cut-IsCut}
use ia_cstudio.Runner.Merging.{
  In, IsEntry, IsCutEntry, IsMerged, merge_base-IsMerged, merge_overrides-IsMerged, merged-All,
  set-All,
}

-- A key that a scoped command may inherit: one of those allowed, and not of a cloud credential.
pub IsAllowed : String → Type 0
IsAllowed key =
    (any (λ k. key == k) allowed_keys ≡ true) × (is_cloud_credential_env_key key ≡ false)

last_two : (a b c : Bool) → (not a && b && not c) ≡ true → (b ≡ true) × (c ≡ false)
last_two a b c h = (ground arith, ground arith)

inheritable-IsAllowed : (key : String) → inheritable key ≡ true → IsAllowed key
unfolding inheritable IsAllowed
inheritable-IsAllowed key h =
    last_two (key == "") (any (λ k. key == k) allowed_keys) (is_cloud_credential_env_key key) h

-- A base has the variable, with a key that may be inherited.
pub IsInherited : List String → String → String → Type 0
IsInherited base key value =
    ((source : String) × In source base × (cut b'=' source ≡ some (key, value))) × IsAllowed key

pub IsSetting : String → String → String → Type 0
IsSetting dev_null key value =
    In {A = String × String} (key, value)
      (("AWS_SHARED_CREDENTIALS_FILE", dev_null)
        ∷ ("AWS_CONFIG_FILE", dev_null)
        ∷ ("AWS_EC2_METADATA_DISABLED", "true")
        ∷ [])

-- Where a variable of a scoped command may come from.
pub IsSource : String → List String → List (String × String) → String → String → Type 0
IsSource dev_null base overrides key value =
    In (key, value) overrides ⊎ (IsInherited base key value ⊎ IsSetting dev_null key value)

kept-inheritable :
    (seen : List String) (e : String) (p : String × String)
    → kept_variable seen e ≡ some p
    → (cut b'=' e ≡ some p) × (inheritable p.0 ≡ true)
unfolding kept_variable
kept-inheritable seen e p h = elim (Option-cases (cut b'=' e)) [
  | inl nothing ↦ absurd (none-ne-some _ (rw (nothing, kept_variable) at h))
  | inr ((k, v), found) ↦ elim (Bool-cases (not (any (λ x. k == x) seen) && inheritable k)) [
    | inr out ↦ absurd (none-ne-some _ (rw (found, kept_variable, out) at h))
    | inl taken ↦
        let same = some-injective _ _ (rw (found, kept_variable, taken) at h) in
        (found ∙ ap some same, ap (λ q. inheritable q.0) (sym same) ∙ ground arith)
  ]
]

module _ (dev_null : String) (base : List String) (overrides : List (String × String)) where
  minimal-All :
      (seen rest : List String)
      → ((source : String) → In source rest → In source base)
      → All (IsCutEntry (IsSource dev_null base overrides)) (minimal_from seen rest)
  unfolding minimal_from IsCutEntry IsInherited IsCut IsSource
  minimal-All seen [] within = tt
  minimal-All seen (e ∷ rest) within = elim (Option-cases (kept_variable seen e)) [
    | inl skipped ↦
        rw (skipped, minimal_from)
          (minimal-All seen rest (λ source inside. within source (inr inside)))
    | inr ((key, value), taken) ↦
        let facts = kept-inheritable seen e (key, value) taken in
        rw (taken, minimal_from)
          (
            (
              key,
              value,
              cut-IsCut e (key, value) facts.0,
              inr (inl ((e, within e (inl refl), facts.0), inheritable-IsAllowed key facts.1)),
            ),
            minimal-All (key ∷ seen) rest (λ source inside. within source (inr inside)),
          )
  ]

  merged_env-All :
      All
        (IsEntry (IsSource dev_null base overrides))
        (merge_env (minimal_command_env base) overrides)
  unfolding merge_env minimal_command_env IsMerged IsSource
  merged_env-All =
      let m =
        merge_overrides (merge_base (record { values = []; order = [] }) (minimal_from [] base))
          overrides in
      let good =
        merge_overrides-IsMerged (IsSource dev_null base overrides)
          (merge_base (record { values = []; order = [] }) (minimal_from [] base)) overrides
          (λ p inside. inl inside)
          (merge_base-IsMerged (IsSource dev_null base overrides)
            (record { values = []; order = [] }) (minimal_from [] base)
            (minimal-All [] base (λ source inside. inside))
            (λ key value found. absurd (none-ne-some _ (sym (entry_empty key) ∙ found)), tt)) in
      merged-All (IsSource dev_null base overrides) m m.order good.0 good.1

  set_setting :
      (env : List String) (key value : String)
      → IsSetting dev_null key value
      → All (IsEntry (IsSource dev_null base overrides)) env
      → All (IsEntry (IsSource dev_null base overrides)) (set_env_value env key value)
  unfolding IsSource
  set_setting env key value setting =
      set-All (IsSource dev_null base overrides) env key value (inr (inr setting))

  -- Every variable of a scoped command is one that the caller gave, or one of the fixed settings, or
  -- comes from the environment of the server, where its key is then one of those allowed and is not
  -- that of a cloud credential.
  pub scoped_command_env-IsSource :
      All (IsEntry (IsSource dev_null base overrides)) (scoped_command_env dev_null base overrides)
  unfolding scoped_command_env IsSetting
  scoped_command_env-IsSource =
      let P = All (IsEntry (IsSource dev_null base overrides)) in
      let merged = merge_env (minimal_command_env base) overrides in
      let env = if-both P (has_aws_credential_source merged) merged_env-All (
        set_setting _ "AWS_CONFIG_FILE" dev_null (inr (inl refl))
          (set_setting merged "AWS_SHARED_CREDENTIALS_FILE" dev_null (inl refl) merged_env-All)) in
      if-both P (env_has_non_empty_value _ "AWS_EC2_METADATA_DISABLED") env
        (set_setting _ "AWS_EC2_METADATA_DISABLED" "true" (inr (inr (inl refl))) env)
