-- ===== src/Plans/Gate/Tests.antt =====
-- A plan, an apply and a second apply.
use ia_cstudio.Prelude.{
  ℕ, ◌≡◌, refl, String, true, List, [], ◌∷◌, ◌++◌, Option, none, some, entry, assign,
}
use ia_cstudio.Plans.Gate.{
  Plans, Command, GateHost, plan_required, append_plan_reference_output, plan_reference, has_plan,
  record_command_plan_at, consume_plan_for_command,
}
use ia_cstudio.Plans.Gate.Spec.{Answers, consume_outcome}
use ia_cstudio.Plans.Gate.History.{
  Op, records, invalidates, consumes, plans_after, last_plan, plans_after-last_plan, consume_spent,
}

-- a hash that is no hash: the number of bytes
abbrev host : GateHost
host = record { sha256_hex = λ bs. "h"; join = λ dir name. dir; rfc3339 = λ t. "t" }

abbrev no_files : String → Option (List ℕ)
no_files path = none

abbrev planning : Command
planning = record { tool = "terraform"; env = ""; connection_id = "c1"; command = "plan" }

abbrev applying : Command
applying = record planning { command = "apply" }

abbrev plan_then : List Op → List Op
plan_then later = later ++ records no_files "/p" planning "out" 5 5 ∷ []

abbrev planned : Plans
planned = plans_after host (plan_then [])

accept_test : (consume_plan_for_command "/p" applying " h " planned 6).1.1 ≡ none
unfolding consume_plan_for_command entry plans_after record_command_plan_at assign
    ia_cstudio.Text.Trim.trim_space
accept_test = refl

late_test :
    (consume_plan_for_command "/p" applying "h" planned 3600000000005).1.1 ≡ some plan_required
unfolding consume_plan_for_command entry plans_after record_command_plan_at assign
late_test = refl

has_test : has_plan "/p" planned 6 ≡ true
unfolding has_plan entry plans_after record_command_plan_at assign
has_test = refl

output_test :
    append_plan_reference_output "a\n\n" (plan_reference host no_files "/p" planning "out" 5)
    ≡ "a\n\n--- Plan Gate ---\nPlan hash: h\nExpires: t\n"
unfolding append_plan_reference_output plan_reference
output_test = refl

plans_after-last_plan_example :
    entry (plans_after host (plan_then (invalidates ("/q" ∷ []) ∷ []))) "/p"
    ≡ last_plan host "/p" (plan_then (invalidates ("/q" ∷ []) ∷ []))
plans_after-last_plan_example =
    plans_after-last_plan host (plan_then (invalidates ("/q" ∷ []) ∷ [])) "/p"

consume_spent_example :
    consume_plan_for_command "/p" applying "h"
      (plans_after host ([] ++ consumes "/p" applying "h" 6 ∷ plan_then []))
      7
    ≡ (
      plans_after host ([] ++ consumes "/p" applying "h" 6 ∷ plan_then []),
      (none, some plan_required),
    )
unfolding consume_plan_for_command entry plans_after record_command_plan_at assign
    ia_cstudio.Text.Trim.trim_space
consume_spent_example =
    consume_spent host [] (plan_then []) "/p" applying "h" 6 applying "h" 7 refl tt

consume_outcome_example : Answers "/p" applying "h" planned 6
consume_outcome_example = consume_outcome "/p" applying "h" planned 6
