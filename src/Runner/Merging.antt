-- ===== src/Runner/Merging.antt =====
-- What `mergeEnv` and `setEnvValue` of internal/runner/safe_runner.go keep of every variable.

use mathlib.Core.Option.{some-injective}
use ia_cstudio.Prelude.{
  ◌≡◌, refl, sym, ◌∙◌, ◌⊎◌, inl, inr, String, subst, some, List, [], ◌∷◌, map, if◌then◌else◌,
  Bool-cases, Option-cases, ◌==◌, eq_iff, eq_refl, entry, assign, entry-assign, All, All-append,
  if-both,
}
use ia_cstudio.Text.Split.{cut}
use ia_cstudio.Text.Trim.{trim_space}
use ia_cstudio.Runner.Environment.{
  env_entry, Merged, put, merge_base, merge_overrides, merged_entry, has_key, set_env_value,
}

abbrev pub In : {A : Type 0} → A → List A → Type 0
In x [] = ⊥
In x (y ∷ ys) = (y ≡ x) ⊎ In x ys

-- Merging, for any predicate on the variables.
module _ (S : String → String → Type 0) where
  pub IsEntry : String → Type 0
  IsEntry e = (key : String) × (value : String) × (e ≡ env_entry key value) × S key value

  unfoldable pub IsCutEntry : String → Type 0
  IsCutEntry e = (key : String) × (value : String) × (cut b'=' e ≡ some (key, value)) × S key value

  unfoldable pub HasEntry : List (String × String) → String → Type 0
  HasEntry values key = (value : String) × (entry values key ≡ some value)

  unfoldable pub IsMerged : Merged → Type 0
  unfolding HasEntry
  IsMerged m =
      ((key value : String) → entry m.values key ≡ some value → S key value)
      × All (HasEntry m.values) m.order

  put-HasEntry :
      (m : Merged) (key value k : String)
      → HasEntry m.values k
      → HasEntry (assign m.values key value) k
  unfolding HasEntry
  put-HasEntry m key value k (v, found) = elim (Bool-cases (key == k)) [
    | inl same ↦ (value, entry-assign m.values key value k ∙ rw same refl)
    | inr apart ↦ (v, entry-assign m.values key value k ∙ rw (apart, found) refl)
  ]

  put-keys :
      (m : Merged) (key value : String) (ks : List String)
      → All (HasEntry m.values) ks
      → All (HasEntry (assign m.values key value)) ks
  put-keys m key value [] h = tt
  put-keys m key value (k ∷ ks) (hk, h) = (put-HasEntry m key value k hk, put-keys m key value ks h)

  put-order :
      (m : Merged) (key value : String)
      → All (HasEntry m.values) m.order
      → All (HasEntry (assign m.values key value)) (put m key value).order
  unfolding put HasEntry
  put-order m key value keys = elim (Option-cases (entry m.values key)) [
    | inl new ↦
        rw (new, put)
          (All-append (HasEntry (assign m.values key value)) m.order (key ∷ [])
            (put-keys m key value m.order keys)
            ((value, entry-assign m.values key value key ∙ rw (eq_refl key) refl), tt))
    | inr (v, old) ↦ rw (old, put) (put-keys m key value m.order keys)
  ]

  put-IsMerged :
      (m : Merged) (key value : String) → S key value → IsMerged m → IsMerged (put m key value)
  unfolding IsMerged HasEntry put
  put-IsMerged m key value s (sound, keys) = (
    λ k v found. elim (Bool-cases (key == k)) [
      | inl same ↦
          subst (λ x. S x v) ((eq_iff key k).0 same)
            (subst (S key)
              (some-injective _ _ (sym (entry-assign m.values key value k ∙ rw same refl) ∙ found))
              s)
      | inr apart ↦ sound k v (sym (entry-assign m.values key value k ∙ rw apart refl) ∙ found)
    ],
    put-order m key value keys,
  )

  pub merge_base-IsMerged :
      (m : Merged) (base : List String)
      → All IsCutEntry base
      → IsMerged m
      → IsMerged (merge_base m base)
  unfolding merge_base IsCutEntry
  merge_base-IsMerged m [] h good = good
  merge_base-IsMerged m (e ∷ base) ((key, value, found, s), h) good =
      rw (found, merge_base)
        (merge_base-IsMerged (if key == "" then m else put m key value) base h
          (if-both IsMerged (key == "") good (put-IsMerged m key value s good)))

  pub merge_overrides-IsMerged :
      (m : Merged) (overrides : List (String × String))
      → ((p : String × String) → In p overrides → S p.0 p.1)
      → IsMerged m
      → IsMerged (merge_overrides m overrides)
  unfolding merge_overrides
  merge_overrides-IsMerged m [] h good = good
  merge_overrides-IsMerged m ((key, value) ∷ overrides) h good =
      merge_overrides-IsMerged (if trim_space key == "" then m else put m key value) overrides
        (λ p inside. h p (inr inside))
        (if-both IsMerged (trim_space key == "") good
          (put-IsMerged m key value (h (key, value) (inl refl)) good))

  pub merged-All :
      (m : Merged) (keys : List String)
      → ((key value : String) → entry m.values key ≡ some value → S key value)
      → All (HasEntry m.values) keys
      → All IsEntry (map (merged_entry m) keys)
  unfolding HasEntry IsEntry merged_entry
  merged-All m [] sound h = tt
  merged-All m (k ∷ keys) sound ((v, found), h) =
      ((k, v, rw found refl, sound k v found), merged-All m keys sound h)

  pub set-All :
      (env : List String) (key value : String)
      → S key value
      → All IsEntry env
      → All IsEntry (set_env_value env key value)
  unfolding set_env_value IsEntry
  set-All [] key value s h = ((key, value, refl, s), tt)
  set-All (e ∷ env) key value s (he, h) =
      if-both (All IsEntry) (has_key e key) ((key, value, refl, s), h)
        (he, set-All env key value s h)
