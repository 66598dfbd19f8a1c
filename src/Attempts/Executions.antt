-- ===== src/Attempts/Executions.antt =====
-- internal/api/agent_tool_execution_idempotency.go: concurrent retries of one tool execution. As in
-- the store of routes, `begin` and `finish` are the critical sections. An outcome that requires an
-- approval is released: the same request may be executed again. SHA-256 is a parameter, and `matches`
-- is as in `Routing.Executor`.
pub mod Kept
pub mod Restart
pub mod Single
pub mod Fingerprint
use ia_cstudio.Prelude.{
  ℕ, String, Bool, true, false, not, ◌&&◌, ◌||◌, List, [], ◌∷◌, ◌++◌, Option, none, some, ◌≡◌,
  if◌then◌else◌, leb, eqb, Result, ok, err,
}
use ia_cstudio.Routing.Policy.{Request, valid_request}
use ia_cstudio.Routing.Outcome.{Decision, DecisionStatus, valid_decision}
use ia_cstudio.Routing.Binding.{bytes, mode_text, binding_fields}
use ia_cstudio.Routing.Recorder.{is_allowed}
use ia_cstudio.Routing.Executor.{ToolCallResult, ExecutionResult, ExecutionError, valid_result}
use ia_cstudio.Attempts.Window.{
  Key, same_key, Window, attempt_at, set_attempt, delete_attempt, make_room,
}
use ia_cstudio.Attempts.Routes.{valid_idempotency_key}

abbrev pub max_agent_tool_execution_replay_entries : ℕ
max_agent_tool_execution_replay_entries = 64

-- what an attempt keeps of a result, and what a caller that joined it is given
pub record Recorded : Type 0 where
  pub decision : Decision
  pub invoked : Bool
  pub result : Option ToolCallResult

-- `agentToolExecutionAttempt`; nothing recorded: the channel is open
pub record Attempt : Type 0 where
  pub fingerprint : List ℕ
  pub released : Bool
  pub recorded : Option Recorded

abbrev pub Store : Type 0
Store = Window Attempt

-- `newAgentToolExecutionAttemptStore`; a limit of 0 stands for every limit that is not positive
unfoldable pub new_store : ℕ → Store
new_store max_entries =
    let positive = if eqb max_entries 0 then 1 else max_entries in
    record {
      entries = [];
      completed = [];
      max_entries =
          if leb positive max_agent_tool_execution_replay_entries
          then positive
          else max_agent_tool_execution_replay_entries;
    }

-- what is hashed: the risk is left out
unfoldable pub intent_fields : Request → List ℕ → List (List ℕ)
unfolding bytes
intent_fields r encoded_arguments =
    bytes r.project
    ∷ bytes r.provider_id
    ∷ bytes r.connection_id
    ∷ bytes r.server_id
    ∷ bytes r.tool_name
    ∷ bytes (mode_text r.mode)
    ∷ encoded_arguments
    ∷ []

unfoldable pub execution_message : Request → List ℕ → List ℕ
unfolding binding_fields intent_fields
execution_message r encoded_arguments = binding_fields (intent_fields r encoded_arguments)

pub data AttemptError : Type 0 where
  context_done invalid_key invalid_request invalid_arguments conflict capacity : AttemptError
  invalid_execution callback_panicked : AttemptError
  failed : ExecutionError → AttemptError

-- `agentToolExecutionFingerprint`; arguments without bytes are no JSON object
unfoldable pub fingerprint_of : (List ℕ → List ℕ) → Request → List ℕ → Result AttemptError (List ℕ)
unfolding execution_message
fingerprint_of sha256 r [] =
    if not (valid_request r)
    then err AttemptError.invalid_request
    else err AttemptError.invalid_arguments
fingerprint_of sha256 r (b ∷ bs) =
    if not (valid_request r)
    then err AttemptError.invalid_request
    else ok (sha256 (execution_message r (b ∷ bs)))

-- `execute` before the lock
unfoldable pub check_execute :
    (List ℕ → List ℕ) → (live : Bool) → String → Request → List ℕ → Result AttemptError (List ℕ)
unfolding fingerprint_of
check_execute sha256 live idempotency_key request arguments =
    if not live
    then err AttemptError.context_done
    else if not (valid_idempotency_key idempotency_key)
    then err AttemptError.invalid_key
    else fingerprint_of sha256 request arguments

-- `==` on fingerprints
unfoldable pub same_bytes : List ℕ → List ℕ → Bool
same_bytes [] [] = true
same_bytes (x ∷ xs) (y ∷ ys) = eqb x y && same_bytes xs ys
same_bytes _ _ = false

-- `removeCompletedKeyLocked`
unfoldable pub remove_completed_key : List Key → Key → List Key
unfolding same_key
remove_completed_key [] key = []
remove_completed_key (existing ∷ completed) key =
    let filtered = remove_completed_key completed key in
    if same_key existing key then filtered else existing ∷ filtered

-- what a caller does next: call `execute`, wait for the attempt, or return the error
pub data Begun : Type 0 where
  started : Begun
  joined : Attempt → Begun
  refused : AttemptError → Begun

unfoldable pub started_attempt : List ℕ → Attempt
started_attempt fingerprint = record {
  fingerprint = fingerprint;
  released = false;
  recorded = none;
}

-- a key without an entry
unfoldable pub start : Key → List ℕ → Store × Bool → Store × Begun
unfolding started_attempt
start key fingerprint (s, room) = if not room then (s, Begun.refused AttemptError.capacity) else (
  record s { entries = set_attempt s.entries key (started_attempt fingerprint) },
  Begun.started,
)

-- a key whose attempt was released
unfoldable pub restart : Key → List ℕ → Store → Store × Begun
unfolding started_attempt remove_completed_key
restart key fingerprint s = (
  record s {
    entries = set_attempt s.entries key (started_attempt fingerprint);
    completed = remove_completed_key s.completed key;
  },
  Begun.started,
)

-- a key with an entry
unfoldable pub join : Key → List ℕ → Store → Attempt → Store × Begun
unfolding restart same_bytes
join key fingerprint s existing =
    if not (same_bytes existing.fingerprint fingerprint)
    then (s, Begun.refused AttemptError.conflict)
    else if existing.released
    then restart key fingerprint s
    else (s, Begun.joined existing)

-- the first critical section of `execute`
unfoldable pub begin : Key → List ℕ → Store → Store × Begun
unfolding start join
begin key fingerprint s = elim (attempt_at s.entries key) [
  | some existing ↦ join key fingerprint s existing
  | none ↦ start key fingerprint (make_room s)
]

abbrev pub is_none : Option ToolCallResult → Bool
is_none none = true
is_none (some result) = false

abbrev pub is_valid_some : (String → String → Bool) → Option ToolCallResult → Bool
is_valid_some matches none = false
is_valid_some matches (some result) = valid_result matches result

abbrev pub is_approval_required : DecisionStatus → Bool
is_approval_required DecisionStatus.approval_required = true
is_approval_required _ = false

-- `validateAgentToolExecutionResult`
unfoldable pub valid_execution_result : (String → String → Bool) → ExecutionResult → Bool
valid_execution_result matches r =
    if not (valid_decision r.route.decision)
    then false
    else if not (is_allowed r.route.decision.status)
    then not (r.invoked || not (is_none r.result))
    else r.invoked && is_valid_some matches r.result

-- how the callback ends
pub data Ended : Type 0 where
  returned : ExecutionResult → Ended
  failed : ExecutionError → Ended
  panicked : Ended

unfoldable pub record_result : Attempt → ExecutionResult → Attempt
record_result attempt r = record attempt {
  released = attempt.released || is_approval_required r.route.decision.status;
  recorded = some (record { decision = r.route.decision; invoked = r.invoked; result = r.result });
}

-- the result reaches the attempt by its address
unfoldable pub settle_attempt : List (Key × Attempt) → Key → ExecutionResult → List (Key × Attempt)
unfolding record_result
settle_attempt entries key r = elim (attempt_at entries key) [
  | none ↦ entries
  | some attempt ↦ set_attempt entries key (record_result attempt r)
]

-- the second critical section of `execute`, that of a panic included, and the error of the caller
unfoldable pub finish :
    (String → String → Bool) → Key → Ended → Store → Store × Result AttemptError ExecutionResult
unfolding settle_attempt valid_execution_result
finish matches key (Ended.returned r) s =
    if not (valid_execution_result matches r)
    then (record s { entries = delete_attempt s.entries key }, err AttemptError.invalid_execution)
    else (
      record s { entries = settle_attempt s.entries key r; completed = s.completed ++ key ∷ [] },
      ok r,
    )
finish matches key (Ended.failed e) s =
    (record s { entries = delete_attempt s.entries key }, err (AttemptError.failed e))
finish matches key Ended.panicked s =
    (record s { entries = delete_attempt s.entries key }, err AttemptError.callback_panicked)

abbrev pub is_done : Attempt → Bool
is_done attempt = elim attempt.recorded [ none ↦ false | some r ↦ true ]

-- A caller runs the callback for the attempt under the key.
abbrev pub Runs : Store → Key → Attempt → Type 0
Runs s key attempt = (attempt_at s.entries key ≡ some attempt) × (attempt.recorded ≡ none)

-- one critical section: a caller begins, or the caller that runs the callback ends
pub data Step (matches : String → String → Bool) : Store → Store → Type 0 where
  begins :
      {s : Store} (key : Key) (fingerprint : List ℕ) → Step matches s (begin key fingerprint s).0
  ends :
      {s : Store} (key : Key) (ended : Ended) (attempt : Attempt)
      → Runs s key attempt
      → Step matches s (finish matches key ended s).0

pub data Steps (matches : String → String → Bool) (s : Store) : Store → Type 0 where
  here : Steps matches s s
  next : {t u : Store} → Steps matches s t → Step matches t u → Steps matches s u
