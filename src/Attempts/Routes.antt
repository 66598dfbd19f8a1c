-- ===== src/Attempts/Routes.antt =====
-- internal/api/agent_tool_route_idempotency.go: concurrent retries of one tool route. The store's lock
-- is held by `begin` and by `finish`, and not while the callback `route` runs: what other callers do in
-- between is a sequence of such steps. An attempt's channel `done` is closed once it has a decision; a
-- caller that joins an attempt waits for it. An attempt that fails is deleted, and its error goes to
-- the callers that joined it.
pub mod Kept
pub mod Single
pub mod Replay
pub mod Capacity
use ia_cstudio.Prelude.{
  ℕ, String, Bool, true, false, not, ◌&&◌, ◌||◌, List, [], ◌∷◌, ◌++◌, Option, none, some, ◌≡◌,
  if◌then◌else◌, ◌==◌, eqb, leb, len, all, Result, ok, err,
}
use ia_cstudio.Text.Trim.{trim_space}
use ia_cstudio.Airlock.Types.{same_risk}
use ia_cstudio.Routing.Policy.{Request, same_mode}
use ia_cstudio.Routing.Outcome.{Decision}
use ia_cstudio.Routing.Binding.{bytes}
use ia_cstudio.Routing.Recorder.{RouteError}
use ia_cstudio.Attempts.Window.{Key, Window, attempt_at, set_attempt, delete_attempt, make_room}

abbrev pub max_agent_tool_route_idempotency_key_length : ℕ
max_agent_tool_route_idempotency_key_length = 128

abbrev pub max_agent_tool_route_attempts : ℕ
max_agent_tool_route_attempts = 1024

abbrev pub printable : ℕ → Bool
printable byte = leb 0x21 byte && leb byte 0x7e

unfoldable pub valid_idempotency_key : String → Bool
valid_idempotency_key key =
    if key == ""
      || not (leb (len key) max_agent_tool_route_idempotency_key_length)
      || not (trim_space key == key)
    then false
    else all printable (bytes key)

-- `agentToolRouteAttempt`; no decision: the channel is open
pub record Attempt : Type 0 where
  pub request : Request
  pub decision : Option Decision

abbrev pub Store : Type 0
Store = Window Attempt

-- `newAgentToolRouteAttemptStore`; a limit of 0 stands for every limit that is not positive
unfoldable pub new_store : ℕ → Store
new_store max_entries = record {
  entries = [];
  completed = [];
  max_entries = if eqb max_entries 0 then 1 else max_entries;
}

-- `==` on requests
unfoldable pub same_request : Request → Request → Bool
same_request a b =
    a.project == b.project
    && a.provider_id == b.provider_id
    && a.connection_id == b.connection_id
    && a.server_id == b.server_id
    && a.tool_name == b.tool_name
    && same_mode a.mode b.mode
    && same_risk a.risk b.risk

pub data AttemptError : Type 0 where
  conflict capacity : AttemptError

-- what a caller does next: call `route`, wait for the attempt, or return the error
pub data Begun : Type 0 where
  started : Begun
  joined : Attempt → Begun
  refused : AttemptError → Begun

unfoldable pub started_attempt : Request → Attempt
started_attempt request = record { request = request; decision = none }

-- `authorize` for a key without an entry
unfoldable pub start : Key → Request → Store × Bool → Store × Begun
unfolding started_attempt
start key request (s, room) =
    if not room
    then (s, Begun.refused AttemptError.capacity)
    else (record s { entries = set_attempt s.entries key (started_attempt request) }, Begun.started)

-- `authorize` up to the call of `route`
unfoldable pub begin : Key → Request → Store → Store × Begun
unfolding start
begin key request s = elim (attempt_at s.entries key) [
  | some attempt ↦
      if not (same_request attempt.request request)
      then (s, Begun.refused AttemptError.conflict)
      else (s, Begun.joined attempt)
  | none ↦ start key request (make_room s)
]

-- the decision reaches the attempt by its address
unfoldable pub decide_attempt : List (Key × Attempt) → Key → Decision → List (Key × Attempt)
decide_attempt entries key decision = elim (attempt_at entries key) [
  | none ↦ entries
  | some attempt ↦ set_attempt entries key (record attempt { decision = some decision })
]

-- `authorize` after the call of `route`
unfoldable pub finish : Key → Result RouteError Decision → Store → Store
unfolding decide_attempt
finish key (ok decision) s = record s {
  entries = decide_attempt s.entries key decision;
  completed = s.completed ++ key ∷ [];
}
finish key (err e) s = record s { entries = delete_attempt s.entries key }

abbrev pub is_done : Attempt → Bool
is_done attempt = elim attempt.decision [ none ↦ false | some d ↦ true ]

-- A caller runs `route` for the attempt under the key.
abbrev pub Runs : Store → Key → Attempt → Type 0
Runs s key attempt = (attempt_at s.entries key ≡ some attempt) × (attempt.decision ≡ none)

-- one critical section: a caller begins, or the caller that runs `route` ends
pub data Step : Store → Store → Type 0 where
  begins : {s : Store} (key : Key) (request : Request) → Step s (begin key request s).0
  ends :
      {s : Store} (key : Key) (outcome : Result RouteError Decision) (attempt : Attempt)
      → Runs s key attempt
      → Step s (finish key outcome s)

pub data Steps (s : Store) : Store → Type 0 where
  here : Steps s s
  next : {t u : Store} → Steps s t → Step t u → Steps s u
