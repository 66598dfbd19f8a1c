-- ===== src/Plans/Gate/History.antt =====
-- The gate against its history, the latest operation first: the plan that it holds for a project, as a
-- function of what was done.
use ia_cstudio.Prelude.{
  ℕ, ◌≡◌, refl, sym, ap, ◌∙◌, subst, String, false, List, [], ◌∷◌, ◌++◌, Option, none, some,
  if◌then◌else◌, arith, inl, inr, Bool-cases, Option-cases, ◌==◌, eq_iff, eq_refl, any, All, entry,
  erase, entry-assign, entry-erase, entry_empty,
}
use ia_cstudio.Plans.Gate.{
  PlanRecord, Plans, Command, GateHost, plan_required, time_or, plan_reference, invalidate_plan,
  record_command_plan_at, check_plan, consume_plan_for_command,
}
use ia_cstudio.Plans.Gate.Spec.{consume_outcome, consume_found, consume_missing, accepted, rejected}

pub data Op : Type 0 where
  records :
      (files : String → Option (List ℕ)) (project_path : String) (c : Command) (output : String)
      (now clock : ℕ)
      → Op
  invalidates : List String → Op
  consumes : (project_path : String) (c : Command) (provided_hash : String) (now : ℕ) → Op

module _ (host : GateHost) where
  unfoldable pub apply_op : Op → Plans → Plans
  apply_op (records files project_path c output now clock) plans =
      (record_command_plan_at host files project_path c output now clock plans).0
  apply_op (invalidates project_paths) plans = invalidate_plan plans project_paths
  apply_op (consumes project_path c provided_hash now) plans =
      (consume_plan_for_command project_path c provided_hash plans now).0

  unfoldable pub plans_after : List Op → Plans
  unfolding apply_op
  plans_after [] = []
  plans_after (op ∷ earlier) = apply_op op (plans_after earlier)

  abbrev recorded : (String → Option (List ℕ)) → String → Command → String → ℕ → PlanRecord
  recorded files project_path c output at = record {
    reference = plan_reference host files project_path c output at;
    created_at = at;
  }

  -- a plan after an attempt to consume it
  abbrev unless_consumed : Command → String → ℕ → Option PlanRecord → Option PlanRecord
  unless_consumed c provided_hash now none = none
  unless_consumed c provided_hash now (some plan) = elim (check_plan c provided_hash plan now).1 [
    | none ↦ none
    | some rejection ↦ some plan
  ]

  -- The plan of a project: the last one recorded for it, if it was not invalidated or consumed since.
  unfoldable pub last_plan : String → List Op → Option PlanRecord
  last_plan project [] = none
  last_plan project (records files project_path c output now clock ∷ earlier) =
      if project_path == project
      then some (recorded files project_path c output (time_or now clock))
      else last_plan project earlier
  last_plan project (invalidates project_paths ∷ earlier) =
      let before = last_plan project earlier in
      if any (λ p. p == project) project_paths then none else before
  last_plan project (consumes project_path c provided_hash now ∷ earlier) =
      let before = last_plan project earlier in
      if project_path == project then unless_consumed c provided_hash now before else before

  entry-invalidate :
      (plans : Plans) (project_paths : List String) (project : String)
      → entry (invalidate_plan plans project_paths) project
        ≡ (if any (λ p. p == project) project_paths then none else entry plans project)
  unfolding invalidate_plan
  entry-invalidate plans [] project = refl
  entry-invalidate plans (p ∷ ps) project =
      entry-invalidate (erase plans p) ps project ∙ (elim (Bool-cases (p == project)) [
        | inl same ↦ rw (entry-erase plans p project, same) (ground arith)
        | inr differ ↦ rw (entry-erase plans p project, differ) refl
      ])

  consumed_other :
      (project_path : String) (c : Command) (provided_hash : String) (now : ℕ) (plans : Plans)
      (project : String)
      → project_path == project ≡ false
      → entry (consume_plan_for_command project_path c provided_hash plans now).0 project
        ≡ entry plans project
  consumed_other project_path c provided_hash now plans project differ =
      elim (consume_outcome project_path c provided_hash plans now) [
        | inl (missing, e) ↦ rw e refl
        | inr (plan, held, inl (ok, e)) ↦
            rw e (rw (entry-erase plans project_path project, differ) refl)
        | inr (plan, held, inr (rejection, why, e)) ↦ rw e refl
      ]

  consumed_same :
      (project_path : String) (c : Command) (provided_hash : String) (now : ℕ) (plans : Plans)
      → entry (consume_plan_for_command project_path c provided_hash plans now).0 project_path
        ≡ unless_consumed c provided_hash now (entry plans project_path)
  consumed_same project_path c provided_hash now plans =
      elim (Option-cases (entry plans project_path)) [
        | inl missing ↦
            rw (consume_missing project_path c provided_hash plans now missing, missing) refl
        | inr (plan, held) ↦
            rw (consume_found project_path c provided_hash plans now plan held)
              (elim (Option-cases (check_plan c provided_hash plan now).1) [
                | inl ok ↦
                    rw (accepted project_path plans (check_plan c provided_hash plan now) ok) (
                      rw (entry-erase plans project_path project_path, eq_refl)
                        (rw held (rw (ok, unless_consumed) refl)))
                | inr (rejection, no_plan) ↦
                    rw
                      (rejected project_path plans (check_plan c provided_hash plan now) rejection
                        no_plan)
                      (rw held (rw (no_plan, unless_consumed) refl))
              ])
      ]

  consumed_away :
      (project : String) (c : Command) (provided_hash : String) (now : ℕ) (plans : Plans)
      → (consume_plan_for_command project c provided_hash plans now).1.1 ≡ none
      → entry (consume_plan_for_command project c provided_hash plans now).0 project ≡ none
  consumed_away project c provided_hash now plans ok =
      elim (consume_outcome project c provided_hash plans now) [
        | inl (missing, e) ↦ rw e missing
        | inr (plan, held, inl (accepts, e)) ↦
            rw e (rw (entry-erase plans project project, eq_refl) refl)
        | inr (plan, held, inr (rejection, why, e)) ↦ let clash = rw e at ok in cc
      ]

  -- After any operations the gate holds for a project the last plan recorded for it, or none if that
  -- was invalidated or consumed since.
  pub plans_after-last_plan :
      (ops : List Op) (project : String) → entry (plans_after ops) project ≡ last_plan project ops
  unfolding plans_after apply_op last_plan record_command_plan_at
  plans_after-last_plan [] project = entry_empty project
  plans_after-last_plan (records files project_path c output now clock ∷ earlier) project =
      rw
        (
          entry-assign (plans_after earlier) project_path _ project,
          plans_after-last_plan earlier project,
        )
        refl
  plans_after-last_plan (invalidates project_paths ∷ earlier) project =
      rw
        (
          entry-invalidate (plans_after earlier) project_paths project,
          plans_after-last_plan earlier project,
        )
        refl
  plans_after-last_plan (consumes project_path c provided_hash now ∷ earlier) project =
      elim (Bool-cases (project_path == project)) [
        | inr differ ↦ rw differ (
            consumed_other project_path c provided_hash now (plans_after earlier) project differ
            ∙ plans_after-last_plan earlier project)
        | inl same ↦ rw same (
            subst
              (λ q.
                entry (plans_after (consumes project_path c provided_hash now ∷ earlier)) q
                ≡ unless_consumed c provided_hash now (last_plan q earlier))
              ((eq_iff project_path project).0 same)
              (consumed_same project_path c provided_hash now (plans_after earlier)
                ∙ ap (unless_consumed c provided_hash now)
                    (plans_after-last_plan earlier project_path)))
      ]

  -- The operation records no plan for the project.
  abbrev pub NotRecording : String → Op → Type 0
  NotRecording project (records files project_path c output now clock) =
      project_path == project ≡ false
  NotRecording project _ = Unit

  stays_gone :
      (project : String) (later earlier : List Op)
      → last_plan project earlier ≡ none
      → All (NotRecording project) later
      → last_plan project (later ++ earlier) ≡ none
  unfolding last_plan
  stays_gone project [] earlier gone quiet = gone
  stays_gone project (records files project_path c output now clock ∷ later) earlier gone
        (other, quiet) =
      rw other (stays_gone project later earlier gone quiet)
  stays_gone project (invalidates project_paths ∷ later) earlier gone (_, quiet) =
      rw (stays_gone project later earlier gone quiet) (ground arith)
  stays_gone project (consumes project_path c provided_hash now ∷ later) earlier gone (_, quiet) =
      rw (stays_gone project later earlier gone quiet) (ground arith)

  -- A plan is consumed once: after a command consumed the plan of a project, and until a plan is
  -- recorded for that project again, every command for the project is refused for want of a plan,
  -- whatever its arguments, and the plans stay as they are.
  pub consume_spent :
      (later earlier : List Op) (project : String) (c : Command) (provided_hash : String) (now : ℕ)
      (c' : Command) (provided_hash' : String) (now' : ℕ)
      → (consume_plan_for_command project c provided_hash (plans_after earlier) now).1.1 ≡ none
      → All (NotRecording project) later
      → consume_plan_for_command project c' provided_hash'
          (plans_after (later ++ consumes project c provided_hash now ∷ earlier))
          now'
        ≡ (
          plans_after (later ++ consumes project c provided_hash now ∷ earlier),
          (none, some plan_required),
        )
  unfolding plans_after apply_op
  consume_spent later earlier project c provided_hash now c' provided_hash' now' ok quiet =
      let spent : entry (plans_after (consumes project c provided_hash now ∷ earlier)) project
          ≡ none =
        consumed_away project c provided_hash now (plans_after earlier) ok in
      let gone =
        sym (plans_after-last_plan (consumes project c provided_hash now ∷ earlier) project)
        ∙ spent in
      consume_missing project c' provided_hash' _ now' (
        plans_after-last_plan (later ++ consumes project c provided_hash now ∷ earlier) project
        ∙ stays_gone project later (consumes project c provided_hash now ∷ earlier) gone quiet)
