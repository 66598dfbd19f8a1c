-- ===== src/Routing/Scoped.antt =====
-- The policy store of internal/agentrouting/policy_store.go, as a map from scopes to policies.
use mathlib.Core.Option.{none-ne-some, some-injective}
use ia_cstudio.Prelude.{
  ◌≡◌, refl, sym, ◌∙◌, String, true, [], ◌∷◌, none, some, arith, inl, inr, if◌then◌else◌, ◌==◌,
  eq_iff, Bool-cases, Option-cases, Result, ok, Result-cases, all,
}
use ia_cstudio.Routing.Policy.{Policy, valid_policy}
use ia_cstudio.Routing.Authorizer.{
  PolicyScope, PolicyStore, Policies, PolicyError, valid_scope, same_scope, set_policy, find_policy,
  in_scope, save, get_policy,
}

same_scope_eq : (a b : PolicyScope) → same_scope a b ≡ true → a ≡ b
unfolding same_scope
same_scope_eq a b e =
    let project : a.project ≡ b.project = ground (arith, eq_iff a.project b.project) in
    let provider : a.provider_id ≡ b.provider_id =
      ground (arith, eq_iff a.provider_id b.provider_id) in
    cc

same_scope_refl : (a : PolicyScope) → same_scope a a ≡ true
unfolding same_scope
same_scope_refl a = ground (arith, eq_iff a.project a.project, eq_iff a.provider_id a.provider_id)

find-set_policy :
    (policies : Policies) (scope other : PolicyScope) (policy : Policy)
    → find_policy (set_policy policies scope policy) other
      ≡ (if same_scope scope other then some policy else find_policy policies other)
unfolding find_policy set_policy
find-set_policy [] scope other policy = refl
find-set_policy ((k, old) ∷ rest) scope other policy = elim (Bool-cases (same_scope k scope)) [
  | inl same ↦
      let is : k ≡ scope = same_scope_eq k scope same in
      rw (same, is)
        (elim (Bool-cases (same_scope scope other)) [
          | inl hit ↦ rw hit refl
          | inr miss ↦ rw miss refl
        ])
  | inr differ ↦ rw differ (elim (Bool-cases (same_scope k other)) [
    | inr miss ↦ rw miss (find-set_policy rest scope other policy)
    | inl hit ↦ rw hit (elim (Bool-cases (same_scope scope other)) [
      | inr apart ↦ rw apart refl
      | inl both ↦
          let a = same_scope_eq k other hit in
          let b = same_scope_eq scope other both in
          let clash : same_scope k scope ≡ true = rw (a, b) (same_scope_refl other) in
          absurd (ground arith)
    ])
  ])
]

-- A policy that the store holds is valid, and each of its rules is in the policy's scope.
abbrev pub IsScoped : Policies → Type 0
IsScoped policies =
    (scope : PolicyScope) (policy : Policy)
    → find_policy policies scope ≡ some policy
    → (valid_policy policy ≡ true) × (all (in_scope scope) policy ≡ true)

-- What a save in memory did, when it gave no error.
save-ok :
    (persist : String → PolicyScope → Policy → Result String Policies) (scope : PolicyScope)
    (policy : Policy) (s : PolicyStore)
    → s.path ≡ ""
    → (save persist scope policy s).1 ≡ none
    → (valid_scope scope ≡ true)
      × (valid_policy policy ≡ true)
      × (all (in_scope scope) policy ≡ true)
      × ((save persist scope policy s).0
          ≡ record s { policies = set_policy s.policies scope policy })
unfolding save
save-ok persist scope policy s memory e = elim (Bool-cases (valid_scope scope)) [
  | inr bad ↦ absurd (none-ne-some _ (sym (rw (bad, save) at e)))
  | inl good ↦ elim (Bool-cases (valid_policy policy)) [
    | inr bad ↦ absurd (none-ne-some _ (sym (rw (good, bad, save) at e)))
    | inl valid ↦ elim (Bool-cases (all (in_scope scope) policy)) [
      | inr bad ↦ absurd (none-ne-some _ (sym (rw (good, valid, bad, save) at e)))
      | inl inside ↦
          let at_memory : (s.path == "") ≡ true = rw memory refl in
          (good, valid, inside, rw (good, valid, inside, at_memory, save) refl)
    ]
  ]
]

-- A failed save changes nothing.
save_failed :
    (persist : String → PolicyScope → Policy → Result String Policies) (scope : PolicyScope)
    (policy : Policy) (s : PolicyStore) (x : PolicyError)
    → (save persist scope policy s).1 ≡ some x
    → (save persist scope policy s).0 ≡ s
unfolding save
save_failed persist scope policy s x e = elim (Bool-cases (valid_scope scope)) [
  | inr bad ↦ rw (bad, save) refl
  | inl good ↦ elim (Bool-cases (valid_policy policy)) [
    | inr bad ↦ rw (good, bad, save) refl
    | inl valid ↦ elim (Bool-cases (all (in_scope scope) policy)) [
      | inr bad ↦ rw (good, valid, bad, save) refl
      | inl inside ↦ elim (Bool-cases (s.path == "")) [
        | inl memory ↦ absurd (none-ne-some _ (rw (good, valid, inside, memory, save) at e))
        | inr durable ↦ elim (Result-cases (persist s.path scope policy)) [
          | inr (y, failed) ↦ rw (good, valid, inside, durable, save) (rw failed refl)
          | inl (persisted, done) ↦
              absurd (none-ne-some _ (rw done at (rw (good, valid, inside, durable, save) at e)))
        ]
      ]
    ]
  ]
]

module _ (persist : String → PolicyScope → Policy → Result String Policies) (scope : PolicyScope)
    (policy : Policy) (s : PolicyStore) (memory : s.path ≡ "") where
  -- After a policy is saved in memory without an error, its scope gives exactly this policy, and every
  -- other scope gives what it gave before.
  pub save-get_policy :
      (other : PolicyScope)
      → (save persist scope policy s).1 ≡ none
      → get_policy (save persist scope policy s).0 other
        ≡ (if same_scope scope other then ok policy else get_policy s other)
  unfolding get_policy
  save-get_policy other e =
      let (good, valid, inside, is) = save-ok persist scope policy s memory e in
      rw is (elim (Bool-cases (same_scope scope other)) [
        | inl same ↦
            let known : valid_scope other ≡ true = rw (same_scope_eq scope other same) at good in
            rw (same, known, get_policy)
              (rw (find-set_policy s.policies scope other policy) (rw same refl))
        | inr apart ↦ elim (Bool-cases (valid_scope other)) [
          | inr bad ↦ rw (apart, bad, get_policy) refl
          | inl fine ↦
              rw (apart, fine, get_policy)
                (rw (find-set_policy s.policies scope other policy) (rw apart refl))
        ]
      ])

  -- Saving in memory, with an error or without, keeps every policy of the store valid and inside the
  -- scope that it is stored under.
  save-IsScoped : IsScoped s.policies → IsScoped (save persist scope policy s).0.policies
  save-IsScoped scoped = elim (Option-cases (save persist scope policy s).1) [
    | inr (x, failed) ↦ rw (save_failed persist scope policy s x failed) scoped
    | inl e ↦
        let (good, valid, inside, is) = save-ok persist scope policy s memory e in
        rw is (λ other p found. elim (Bool-cases (same_scope scope other)) [
          | inl same ↦
              let at = sym (find-set_policy s.policies scope other policy) ∙ found in
              let stored : policy ≡ p = some-injective _ _ (rw same at at) in
              let here : scope ≡ other = same_scope_eq scope other same in
              rw (sym stored, sym here) (valid, inside)
          | inr apart ↦
              let at = sym (find-set_policy s.policies scope other policy) ∙ found in
              scoped other p (rw apart at at)
        ])
  ]
