-- ===== src/Runner/Ambient.antt =====
-- What a scoped command cannot see of the server's environment, of internal/runner/safe_runner.go.

use ia_cstudio.Prelude.{
  ◌≡◌, ◌⊎◌, refl, ap, inl, inr, String, false, none, some, List, [], ◌∷◌, ◌++◌, any, Bool-cases,
  Option-cases, ◌==◌, Bool, true, not, ◌&&◌, arith,
}
use ia_cstudio.Text.Split.{cut}
use ia_cstudio.Runner.Environment.{
  env_entry, allowed_keys, is_cloud_credential_env_key, inheritable, kept_variable, minimal_from,
  minimal_command_env, scoped_command_env,
}

either_false : (a b c : Bool) → (b ≡ false) ⊎ (c ≡ true) → (not a && b && not c) ≡ false
either_false a b c (inl h) = ground arith
either_false a b c (inr h) = ground arith

refused_key :
    (key : String)
    → (any (λ k. key == k) allowed_keys ≡ false) ⊎ (is_cloud_credential_env_key key ≡ true)
    → inheritable key ≡ false
unfolding inheritable
refused_key key h =
    either_false (key == "") (any (λ k. key == k) allowed_keys) (is_cloud_credential_env_key key) h

kept_refused :
    (seen : List String) (e key value : String)
    → cut b'=' e ≡ some (key, value)
    → inheritable key ≡ false
    → kept_variable seen e ≡ none
unfolding kept_variable
kept_refused seen e key value found refused =
    rw (found, kept_variable)
      (elim (Bool-cases (any (λ x. key == x) seen)) [
        | inl old ↦ rw (old) refl
        | inr new ↦ rw (new, refused) refl
      ])

module _ (e key value : String) (found : cut b'=' e ≡ some (key, value))
    (refused : (any (λ k. key == k) allowed_keys ≡ false)
      ⊎ (is_cloud_credential_env_key key ≡ true)) where
  minimal_ignores :
      (seen before after : List String)
      → minimal_from seen (before ++ e ∷ after) ≡ minimal_from seen (before ++ after)
  unfolding minimal_from
  minimal_ignores seen [] after =
      rw (kept_refused seen e key value found (refused_key key refused), minimal_from) refl
  minimal_ignores seen (d ∷ before) after = elim (Option-cases (kept_variable seen d)) [
    | inl skipped ↦ rw (skipped, minimal_from) (minimal_ignores seen before after)
    | inr ((k, v), taken) ↦
        rw (taken, minimal_from)
          (ap (λ env. env_entry k v ∷ env) (minimal_ignores (k ∷ seen) before after))
  ]

  -- A variable of the server whose key is not allowed, or is that of a cloud credential, makes no
  -- difference to a scoped command, wherever it stands in the server's environment.
  pub scoped_ignores :
      (dev_null : String) (before after : List String) (overrides : List (String × String))
      → scoped_command_env dev_null (before ++ e ∷ after) overrides
        ≡ scoped_command_env dev_null (before ++ after) overrides
  unfolding scoped_command_env minimal_command_env
  scoped_ignores dev_null before after overrides = rw (minimal_ignores [] before after) refl
