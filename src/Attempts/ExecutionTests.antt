-- ===== src/Attempts/ExecutionTests.antt =====
-- Runs of the execution store.
use ia_cstudio.Prelude.{
  String, Bool, List, ◌↔◌, ◌≡◌, refl, arith, ◌<◌, ◌^◌, true, false, [], ◌∷◌, none, some, ℕ,
}
use ia_cstudio.Airlock.Types.{ToolRisk}
use ia_cstudio.Routing.Policy.{Request, valid_request}
use ia_cstudio.Routing.Outcome.{Decision, DecisionStatus, DecisionReason}
use ia_cstudio.Routing.Framing.{Fits}
use ia_cstudio.Runs.Types.{Mode, Run, Status}
use ia_cstudio.Routing.Executor.{ToolCallResult, ExecutionResult}
use ia_cstudio.Attempts.Window.{Key, Window, attempt_at}
use ia_cstudio.Attempts.Executions
use ia_cstudio.Attempts.Executions.{
  Attempt, Recorded, Begun, AttemptError, Ended, Steps, here, next, begins, ends, begin, finish,
  new_store, same_bytes, intent_fields, execution_message,
}
use ia_cstudio.Attempts.Executions.Restart.{executed_replayed}
use ia_cstudio.Attempts.Executions.Single.{single_execution}
use ia_cstudio.Attempts.Executions.Fingerprint.{execution_message_injective}

-- no pattern matches
abbrev no_secret : String → String → Bool
no_secret pattern text = false

abbrev key_a : Key
key_a = record { run_id = "run_000001"; key = "a" }

abbrev running : Attempt
running = record { fingerprint = 1 ∷ []; released = false; recorded = none }

abbrev running_store : Executions.Store
running_store = record { entries = (key_a, running) ∷ []; completed = []; max_entries = 2 }

abbrev to_running : Steps no_secret (new_store 2) running_store
unfolding begin attempt_at new_store ia_cstudio.Attempts.Window.make_room
    ia_cstudio.Attempts.Window.set_attempt
to_running = next here (begins key_a (1 ∷ []))

single_execution_example :
    begin key_a (2 ∷ []) running_store ≡ (running_store, Begun.refused AttemptError.conflict)
unfolding attempt_at same_bytes
single_execution_example =
    single_execution 2 running_store running_store to_running here key_a running (2 ∷ [])
      (refl, refl) tt

abbrev asks : Decision
asks = record {
  status = DecisionStatus.approval_required;
  reason = DecisionReason.approval_required;
  allowed = false;
  approval_required = true;
  untrusted_output = true;
}

abbrev allows : Decision
allows = record {
  status = DecisionStatus.allowed;
  reason = DecisionReason.allowed;
  allowed = true;
  approval_required = false;
  untrusted_output = true;
}

abbrev run : Run
run = record {
  id = "run_000001";
  project = "p";
  provider_id = "claude";
  mode = Mode.read_only;
  status = Status.running;
  prompt_preview = "";
  prompt_hash = "";
  created_by = "";
  created_at = 0;
  updated_at = 0;
  started_at = some 0;
  completed_at = none;
  canceled = false;
  error = "";
  logs = [];
  patches = [];
  approvals = [];
}

abbrev waits : ExecutionResult
waits = record { route = record { decision = asks; run = run }; invoked = false; result = none }

abbrev called : ExecutionResult
called = record {
  route = record { decision = allows; run = run };
  invoked = true;
  result = some (record {
    output = "ok";
    is_error = false;
    untrusted_output = true;
    redacted = false;
    truncated = false;
  });
}

abbrev kept : ExecutionResult → Recorded
kept r = record { decision = r.route.decision; invoked = r.invoked; result = r.result }

abbrev waiting : Attempt
waiting = record running { released = true; recorded = some (kept waits) }

abbrev executed : Attempt
executed = record running { recorded = some (kept called) }

abbrev waiting_store : Executions.Store
waiting_store = record running_store { entries = (key_a, waiting) ∷ []; completed = key_a ∷ [] }

abbrev executed_store : Executions.Store
executed_store = record running_store { entries = (key_a, executed) ∷ []; completed = key_a ∷ [] }

abbrev to_waiting : Steps no_secret (new_store 2) waiting_store
unfolding attempt_at finish ia_cstudio.Routing.Outcome.valid_decision
    ia_cstudio.Attempts.Window.set_attempt
to_waiting =
    next to_running (ends {s = running_store} key_a (Ended.returned waits) running (refl, refl))

abbrev to_executed : Steps no_secret (new_store 2) executed_store
unfolding attempt_at finish ia_cstudio.Routing.Outcome.valid_decision
    ia_cstudio.Routing.Executor.valid_result ia_cstudio.Attempts.Window.set_attempt
to_executed =
    next to_running (ends {s = running_store} key_a (Ended.returned called) running (refl, refl))

executed_replayed_example :
    begin key_a (1 ∷ []) executed_store ≡ (executed_store, Begun.joined executed)
unfolding attempt_at same_bytes
executed_replayed_example =
    executed_replayed 2 executed_store to_executed key_a (1 ∷ []) executed (kept called) refl refl
      refl

abbrev look : Request
look = record {
  project = "p";
  provider_id = "claude";
  connection_id = "c";
  server_id = "s";
  tool_name = "list";
  mode = Mode.read_only;
  risk = ToolRisk.read_only;
}

look-Fits : Fits (intent_fields look (123 ∷ 125 ∷ []))
unfolding intent_fields ia_cstudio.Routing.Binding.bytes
look-Fits =
    let small : (n : ℕ) → n < 100 → n < 2 ^ 64 = λ n h. omega arith in
    (
      small _ (omega arith),
      (
        small _ (omega arith),
        (
          small _ (omega arith),
          (
            small _ (omega arith),
            (small _ (omega arith), (small _ (omega arith), (small _ (omega arith), tt))),
          ),
        ),
      ),
    )

look_valid : valid_request look ≡ true
unfolding valid_request ia_cstudio.Routing.Policy.valid_field ia_cstudio.Text.Trim.trim_space
    ia_cstudio.Runs.Types.mode_valid ia_cstudio.Routing.Policy.valid_risk
look_valid = refl

execution_message_injective_example :
    (execution_message look (123 ∷ 125 ∷ []) ≡ execution_message look (123 ∷ 125 ∷ [])) ↔ (
      (record look { risk = look.risk } ≡ look)
      × (◌≡◌ {A = List ℕ} (123 ∷ 125 ∷ []) (123 ∷ 125 ∷ [])))
execution_message_injective_example =
    execution_message_injective look look (123 ∷ 125 ∷ []) (123 ∷ 125 ∷ []) look_valid look_valid
      look-Fits look-Fits
