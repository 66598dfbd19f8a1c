-- ===== src/Attempts/Tests.antt =====
-- Runs of the attempt stores.
use ia_cstudio.Prelude.{◌≡◌, refl, true, false, none, some, ok, ◌↔◌, ◌⊎◌, length}
use ia_cstudio.Runs.Types.{Mode}
use ia_cstudio.Airlock.Types.{ToolRisk}
use ia_cstudio.Routing.Policy.{Request}
use ia_cstudio.Routing.Outcome.{Decision, DecisionStatus, DecisionReason}
use ia_cstudio.Attempts.Window.{Key, Window, attempt_at}
use ia_cstudio.Attempts.Routes
use ia_cstudio.Attempts.Routes.{
  Attempt, Begun, AttemptError, Steps, here, next, begins, ends, begin, finish, new_store,
  same_request, valid_idempotency_key,
}
use ia_cstudio.Attempts.Routes.Kept.{IsValid, reached-IsValid}
use ia_cstudio.Attempts.Routes.Single.{single_flight}
use ia_cstudio.Attempts.Routes.Replay.{Decided, replay-Decided}
use ia_cstudio.Attempts.Routes.Capacity.{AllRunning, capacity_iff}

abbrev key_a : Key
key_a = record { run_id = "run_000001"; key = "a" }

abbrev key_b : Key
key_b = record { run_id = "run_000001"; key = "b" }

abbrev look : Request
look = record {
  project = "p";
  provider_id = "claude";
  connection_id = "c";
  server_id = "s";
  tool_name = "list";
  mode = Mode.read_only;
  risk = ToolRisk.read_only;
}

abbrev list_other : Request
list_other = record look { tool_name = "other" }

abbrev yes_decision : Decision
yes_decision = record {
  status = DecisionStatus.allowed;
  reason = DecisionReason.allowed;
  allowed = true;
  approval_required = false;
  untrusted_output = true;
}

-- One caller runs its route.
abbrev running_store : Routes.Store
unfolding begin new_store
running_store = (begin key_a look (new_store 1)).0

abbrev looking : Attempt
looking = record { request = look; decision = none }

abbrev to_running : Steps (new_store 1) running_store
unfolding begin running_store
to_running = next here (begins key_a look)

-- It ended with a decision.
abbrev decided_store : Routes.Store
unfolding finish running_store
decided_store = finish key_a (ok yes_decision) running_store

valid_key_test : valid_idempotency_key "3f2a-01" ≡ true
unfolding valid_idempotency_key ia_cstudio.Text.Trim.trim_space ia_cstudio.Routing.Binding.bytes
valid_key_test = refl

space_key_test : valid_idempotency_key "a b" ≡ false
unfolding valid_idempotency_key ia_cstudio.Text.Trim.trim_space ia_cstudio.Routing.Binding.bytes
space_key_test = refl

running_test : attempt_at running_store.entries key_a ≡ some looking
unfolding attempt_at running_store ia_cstudio.Attempts.Window.make_room
    ia_cstudio.Attempts.Window.set_attempt
running_test = refl

single_flight_example :
    begin key_a list_other running_store ≡ (running_store, Begun.refused AttemptError.conflict)
unfolding attempt_at running_store ia_cstudio.Attempts.Window.make_room
    ia_cstudio.Attempts.Window.set_attempt same_request
single_flight_example =
    single_flight 1 running_store running_store to_running here key_a looking list_other
      (refl, refl) tt

abbrev to_end : Steps running_store decided_store
unfolding finish decided_store
to_end = next here (ends {s = running_store} key_a (ok yes_decision) looking (running_test, refl))

abbrev to_decided : Steps (new_store 1) decided_store
unfolding finish decided_store
to_decided =
    next to_running (ends {s = running_store} key_a (ok yes_decision) looking (running_test, refl))

reached-IsValid_example : IsValid decided_store
reached-IsValid_example = reached-IsValid 1 decided_store to_decided

replay-Decided_example :
    (same_request look look ≡ true)
    × (Decided key_a look yes_decision to_running ⊎ Decided key_a look yes_decision to_end)
unfolding begin attempt_at decided_store ia_cstudio.Attempts.Window.make_room
    ia_cstudio.Attempts.Window.set_attempt same_request ia_cstudio.Routing.Policy.same_mode
    ia_cstudio.Airlock.Types.same_risk
replay-Decided_example =
    replay-Decided 1 running_store decided_store to_running to_end key_a look looking yes_decision
      refl refl

capacity_iff_example :
    ((begin key_b look running_store).1 ≡ Begun.refused AttemptError.capacity) ↔ (
      (attempt_at running_store.entries key_b ≡ none)
      × (length running_store.entries ≡ running_store.max_entries)
      × AllRunning running_store)
capacity_iff_example = capacity_iff 1 running_store to_running key_b look
