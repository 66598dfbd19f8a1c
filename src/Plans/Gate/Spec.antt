-- ===== src/Plans/Gate/Spec.antt =====
-- The gate as a function of its history.
use mathlib.Core.Option.{some-injective}
use ia_cstudio.Prelude.{
  ◌≢◌, ℕ, ◌≤◌, ◌<◌, ◌-◌, ◌≡◌, refl, sym, ap, ◌∙◌, ◌⊎◌, String, true, false, Option, none, some,
  arith, inl, inr, Bool-cases, Option-cases, ◌==◌, eq_iff, entry, erase,
}
use ia_cstudio.Text.Trim.{trim_space}
use ia_cstudio.Plans.Gate.{
  PlanReference, PlanRecord, Plans, Rejection, Command, plan_required, plan_mismatch,
  plan_hash_required, plan_hash_mismatch, is_current, misfits, plan_gate_ttl,
  plan_command_allows_mutation, check_plan, validate_plan_for_command, consume_validated,
  consume_plan_for_command,
}

-- The plan is current, and is one for the command and the hash.
pub record Accepts (c : Command) (provided_hash : String) (plan : PlanRecord) (now : ℕ)
    : Type 0 where
  pub current : now - plan.created_at < plan_gate_ttl
  pub tool : plan.reference.tool ≡ c.tool
  pub env : plan.reference.env ≡ c.env
  pub connection_id : plan.reference.connection_id ≡ c.connection_id
  pub allowed : plan_command_allows_mutation c.tool plan.reference.plan_command c.command ≡ true
  pub hash : trim_space provided_hash ≡ plan.reference.hash
  pub given : trim_space provided_hash == "" ≡ false

misfits-false :
    (ref : PlanReference) (c : Command)
    → misfits ref c ≡ false
    → (ref.tool ≡ c.tool)
      × (ref.env ≡ c.env)
      × (ref.connection_id ≡ c.connection_id)
      × (plan_command_allows_mutation c.tool ref.plan_command c.command ≡ true)
unfolding misfits
misfits-false ref c e = (
  (eq_iff ref.tool c.tool).0 (ground arith),
  (eq_iff ref.env c.env).0 (ground arith),
  (eq_iff ref.connection_id c.connection_id).0 (ground arith),
  ground arith,
)

false-misfits :
    (ref : PlanReference) (c : Command)
    → ref.tool ≡ c.tool
    → ref.env ≡ c.env
    → ref.connection_id ≡ c.connection_id
    → plan_command_allows_mutation c.tool ref.plan_command c.command ≡ true
    → misfits ref c ≡ false
unfolding misfits
false-misfits ref c tool env connection may =
    let tools = (eq_iff ref.tool c.tool).1 tool in
    let envs = (eq_iff ref.env c.env).1 env in
    let connections = (eq_iff ref.connection_id c.connection_id).1 connection in
    rw (tools, envs, connections, may) refl

check-Accepts :
    (c : Command) (provided_hash : String) (plan : PlanRecord) (now : ℕ)
    → (check_plan c provided_hash plan now).1 ≡ none
    → Accepts c provided_hash plan now
unfolding check_plan
check-Accepts c provided_hash plan now e = elim (Bool-cases (misfits plan.reference c)) [
  | inl other ↦ absurd (ground arith)
  | inr fits ↦
      let (tool, env, connection, may) = misfits-false plan.reference c fits in
      record {
        current = ground arith;
        tool = tool;
        env = env;
        connection_id = connection;
        allowed = may;
        hash = (eq_iff (trim_space provided_hash) plan.reference.hash).0 (ground arith);
        given = ground arith;
      }
]

Accepts-check :
    (c : Command) (provided_hash : String) (plan : PlanRecord) (now : ℕ)
    → Accepts c provided_hash plan now
    → check_plan c provided_hash plan now ≡ (some plan.reference, none)
unfolding check_plan
Accepts-check c provided_hash plan now ok =
    let fits = false-misfits plan.reference c ok.tool ok.env ok.connection_id ok.allowed in
    let same = (eq_iff (trim_space provided_hash) plan.reference.hash).1 ok.hash in
    let current : is_current plan now ≡ true = (let h = ok.current in ground arith) in
    rw (current, fits, ok.given, same) refl

pub consume_found :
    (project_path : String) (c : Command) (provided_hash : String) (plans : Plans) (now : ℕ)
    (plan : PlanRecord)
    → entry plans project_path ≡ some plan
    → consume_plan_for_command project_path c provided_hash plans now
      ≡ consume_validated project_path plans (check_plan c provided_hash plan now)
unfolding consume_plan_for_command validate_plan_for_command
consume_found project_path c provided_hash plans now plan held =
    rw (held, consume_plan_for_command, validate_plan_for_command) refl

pub consume_missing :
    (project_path : String) (c : Command) (provided_hash : String) (plans : Plans) (now : ℕ)
    → entry plans project_path ≡ none
    → consume_plan_for_command project_path c provided_hash plans now
      ≡ (plans, (none, some plan_required))
unfolding consume_plan_for_command validate_plan_for_command consume_validated
consume_missing project_path c provided_hash plans now missing =
    rw (missing, consume_plan_for_command, validate_plan_for_command) refl

pub consume_done :
    (project_path : String) (c : Command) (provided_hash : String) (plans : Plans) (now : ℕ)
    (plan : PlanRecord)
    → entry plans project_path ≡ some plan
    → Accepts c provided_hash plan now
    → consume_plan_for_command project_path c provided_hash plans now
      ≡ (erase plans project_path, (some plan.reference, none))
unfolding consume_validated
consume_done project_path c provided_hash plans now plan held ok =
    rw
      (
        consume_found project_path c provided_hash plans now plan held,
        Accepts-check c provided_hash plan now ok,
      )
      refl

-- why a plan that was found is refused
abbrev pub Refuses : Command → String → PlanRecord → ℕ → Rejection → Type 0
Refuses c provided_hash plan now rejection =
    ((plan_gate_ttl ≤ now - plan.created_at) × (rejection ≡ plan_required))
    ⊎ ((misfits plan.reference c ≡ true) × (rejection ≡ plan_mismatch))
    ⊎ ((trim_space provided_hash ≡ "") × (rejection ≡ plan_hash_required))
    ⊎ ((trim_space provided_hash ≢ plan.reference.hash) × (rejection ≡ plan_hash_mismatch))

reason : {a b : Rejection} → some a ≡ some b → b ≡ a
reason e = sym (some-injective _ _ e)

pub rejected :
    (project_path : String) (plans : Plans) (answer : Option PlanReference × Option Rejection)
    (rejection : Rejection)
    → answer.1 ≡ some rejection
    → consume_validated project_path plans answer ≡ (plans, (none, some rejection))
unfolding consume_validated
rejected project_path plans (ref, none) rejection e = cc
rejected project_path plans (ref, some r) rejection e =
    ap (λ x. (plans, (none, some x))) (some-injective _ _ e)

pub accepted :
    (project_path : String) (plans : Plans) (answer : Option PlanReference × Option Rejection)
    → answer.1 ≡ none
    → consume_validated project_path plans answer ≡ (erase plans project_path, (answer.0, none))
unfolding consume_validated
accepted project_path plans (ref, none) e = refl
accepted project_path plans (ref, some r) e = cc

check-Refuses :
    (c : Command) (provided_hash : String) (plan : PlanRecord) (now : ℕ) (rejection : Rejection)
    → (check_plan c provided_hash plan now).1 ≡ some rejection
    → Refuses c provided_hash plan now rejection
unfolding check_plan
check-Refuses c provided_hash plan now rejection e = elim (Bool-cases (is_current plan now)) [
  | inr old ↦ inl (ground arith, reason (rw (old, check_plan) at e))
  | inl current ↦
      let e₁ = rw (current, check_plan) at e in
      elim (Bool-cases (misfits plan.reference c)) [
        | inl other ↦ inr (inl (other, reason (rw other at e₁)))
        | inr fits ↦
            let e₂ = rw fits at e₁ in
            elim (Bool-cases (trim_space provided_hash == "")) [
              | inl blank ↦ inr (
                  inr
                    (inl ((eq_iff (trim_space provided_hash) "").0 blank, reason (rw blank at e₂))))
              | inr given ↦
                  let e₃ = rw given at e₂ in
                  elim (Bool-cases (trim_space provided_hash == plan.reference.hash)) [
                    | inl same ↦ let clash = rw same at e₃ in cc
                    | inr differ ↦ inr (
                        inr (
                          inr (
                            λ same. absurd (
                                ground (
                                  arith,
                                  (eq_iff (trim_space provided_hash) plan.reference.hash).1 same,
                                )),
                            reason (rw differ at e₃),
                          )))
                  ]
            ]
      ]
]

abbrev pub Answers : String → Command → String → Plans → ℕ → Type 0
Answers project_path c provided_hash plans now =
    ((entry plans project_path ≡ none)
      × (consume_plan_for_command project_path c provided_hash plans now
          ≡ (plans, (none, some plan_required))))
    ⊎ ((plan : PlanRecord) × (entry plans project_path ≡ some plan)
        × ((Accepts c provided_hash plan now
              × (consume_plan_for_command project_path c provided_hash plans now
                  ≡ (erase plans project_path, (some plan.reference, none))))
            ⊎ ((rejection : Rejection) × Refuses c provided_hash plan now rejection
                × (consume_plan_for_command project_path c provided_hash plans now
                    ≡ (plans, (none, some rejection))))))

-- Every answer to a mutating command. If no plan is held, or the plan that is held is refused, the
-- command gets a rejection that says why and no reference, and the plans stay as they are; if the plan
-- is accepted, being current, for the tool, environment and connection, of a command that allows this
-- one, and with exactly the given hash, the command gets its reference and the plan is deleted.
pub consume_outcome :
    (project_path : String) (c : Command) (provided_hash : String) (plans : Plans) (now : ℕ)
    → Answers project_path c provided_hash plans now
unfolding consume_validated
consume_outcome project_path c provided_hash plans now =
    elim (Option-cases (entry plans project_path)) [
      | inl missing ↦ inl (missing, consume_missing project_path c provided_hash plans now missing)
      | inr (plan, held) ↦
          let found = consume_found project_path c provided_hash plans now plan held in
          elim (Option-cases (check_plan c provided_hash plan now).1) [
            | inl accepted ↦
                let ok = check-Accepts c provided_hash plan now accepted in
                inr (
                  plan,
                  held,
                  inl (ok, consume_done project_path c provided_hash plans now plan held ok),
                )
            | inr (rejection, refused) ↦ inr (
              plan,
              held,
              inr (
                rejection,
                check-Refuses c provided_hash plan now rejection refused,
                found
                    ∙ rejected project_path plans (check_plan c provided_hash plan now) rejection
                        refused,
              ),
            )
          ]
    ]
