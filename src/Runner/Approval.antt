-- ===== src/Runner/Approval.antt =====
-- Which commands of internal/runner run without an approval.
use ia_cstudio.Prelude.{
  ◌≡◌, refl, ◌⊎◌, inl, inr, String, true, false, ◌||◌, List, [], ◌∷◌, any, ◌==◌, arith, if-both,
}
use ia_cstudio.Runner.Merging.{In}
use ia_cstudio.Runner.Commands.{
  terraform_args, pulumi_args, ansible_args, with_stack, build_args, SafetyConfig,
  requires_approval,
}

-- The commands of Terraform and OpenTofu that need no approval.
abbrev pub harmless_terraform : String → List (List String)
harmless_terraform binary =
    (binary ∷ "init" ∷ [])
    ∷ (binary ∷ "plan" ∷ "-out=tfplan" ∷ "-no-color" ∷ [])
    ∷ (binary ∷ "validate" ∷ "-no-color" ∷ [])
    ∷ (binary ∷ "fmt" ∷ [])
    ∷ []

-- Those of Pulumi: a preview, of the stack of the environment if one is named, the installation of the
-- project's packages and the compilation of its program.
abbrev pub harmless_pulumi : String → List (List String)
harmless_pulumi env =
    ("npm" ∷ "install" ∷ [])
    ∷ ("pulumi" ∷ "preview" ∷ "--non-interactive" ∷ "--color=never" ∷ [])
    ∷ ("pulumi" ∷ "preview" ∷ "--non-interactive" ∷ "--color=never" ∷ "--stack" ∷ env ∷ [])
    ∷ ("npx" ∷ "tsc" ∷ "--noEmit" ∷ [])
    ∷ []

-- Those of Ansible: a rehearsal, a check of the syntax and the listing of the inventory.
abbrev pub harmless_ansible : List (List String)
harmless_ansible =
    ("ansible-playbook" ∷ "site.yml" ∷ "--check" ∷ "--diff" ∷ [])
    ∷ ("ansible-playbook" ∷ "site.yml" ∷ "--syntax-check" ∷ [])
    ∷ ("ansible-inventory" ∷ "--list" ∷ [])
    ∷ []

-- The arguments are one of these lists, or there are none: `executeWithEnv` then runs nothing.
unfoldable pub IsHarmless : String → List String → Type 0
IsHarmless env args =
    (args ≡ [])
    ⊎ (In args (harmless_terraform "terraform")
        ⊎ (In args (harmless_terraform "tofu")
            ⊎ (In args (harmless_pulumi env) ⊎ In args harmless_ansible)))

module _ (command : String)
    (other : any (λ c. command == c) ("apply" ∷ "playbook" ∷ "up" ∷ "destroy" ∷ "refresh" ∷ [])
      ≡ false) where
  terraform-In :
      (binary : String)
      → (terraform_args command binary ≡ [])
        ⊎ In (terraform_args command binary) (harmless_terraform binary)
  unfolding terraform_args
  terraform-In binary =
      let P = (λ (args : List String). (args ≡ []) ⊎ In args (harmless_terraform binary)) in
      let not_apply : command == "apply" ≡ false = ground arith in
      let not_destroy : command == "destroy" ≡ false = ground arith in
      rw (not_apply, not_destroy)
        (if-both P (command == "init") (inr (inl refl)) (
          if-both P (command == "plan") (inr (inr (inl refl))) (
            if-both P (command == "validate") (inr (inr (inr (inl refl))))
              (if-both P (command == "fmt") (inr (inr (inr (inr (inl refl))))) (inl refl)))))

  pulumi-In :
      (env : String)
      → (pulumi_args command env ≡ []) ⊎ In (pulumi_args command env) (harmless_pulumi env)
  unfolding pulumi_args with_stack
  pulumi-In env =
      let P = (λ (args : List String). (args ≡ []) ⊎ In args (harmless_pulumi env)) in
      let not_apply : command == "apply" ≡ false = ground arith in
      let not_up : command == "up" ≡ false = ground arith in
      let not_destroy : command == "destroy" ≡ false = ground arith in
      let not_refresh : command == "refresh" ≡ false = ground arith in
      rw (not_apply, not_up, not_destroy, not_refresh)
        (if-both P (command == "init") (inr (inl refl)) (
          if-both P (command == "plan" || command == "preview")
            (if-both P (env == "") (inr (inr (inl refl))) (inr (inr (inr (inl refl)))))
            (if-both P (command == "validate") (inr (inr (inr (inr (inl refl))))) (inl refl))))

  ansible-In : (ansible_args command ≡ []) ⊎ In (ansible_args command) harmless_ansible
  unfolding ansible_args
  ansible-In =
      let P = (λ (args : List String). (args ≡ []) ⊎ In args harmless_ansible) in
      let not_apply : command == "apply" ≡ false = ground arith in
      let not_playbook : command == "playbook" ≡ false = ground arith in
      rw (not_apply, not_playbook)
        (if-both P (command == "check") (inr (inl refl)) (
          if-both P (command == "syntax") (inr (inr (inl refl)))
            (if-both P (command == "inventory") (inr (inr (inr (inl refl)))) (inl refl))))

  build-IsHarmless : (tool env : String) → IsHarmless env (build_args tool command env)
  unfolding build_args IsHarmless
  build-IsHarmless tool env =
      if-both (IsHarmless env) (tool == "terraform")
        (elim (terraform-In "terraform") [ inl e ↦ inl e | inr h ↦ inr (inl h) ])
        (if-both (IsHarmless env) (tool == "opentofu")
          (elim (terraform-In "tofu") [ inl e ↦ inl e | inr h ↦ inr (inr (inl h)) ])
          (if-both (IsHarmless env) (tool == "ansible")
            (elim ansible-In [ inl e ↦ inl e | inr h ↦ inr (inr (inr (inr h))) ])
            (if-both (IsHarmless env) (tool == "pulumi")
              (elim (pulumi-In env) [ inl e ↦ inl e | inr h ↦ inr (inr (inr (inl h))) ])
              (inl refl))))

-- Where the configuration requires approvals, a command that needs none, whatever the tool and the
-- environment are, has no arguments, so that nothing is run, or has the arguments of an
-- initialisation, a plan or preview, a validation, a formatting, a rehearsal, a check of the syntax or
-- a listing, as they are written out in `IsHarmless`.
pub unapproved-IsHarmless :
    (defaults : SafetyConfig) (tool command env : String)
    → defaults.require_approval ≡ true
    → requires_approval defaults command ≡ false
    → IsHarmless env (build_args tool command env)
unfolding requires_approval
unapproved-IsHarmless defaults tool command env on free =
    build-IsHarmless command (rw on at free) tool env
