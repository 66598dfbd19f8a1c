-- ===== src/Routing/Executor.antt =====
-- internal/agentrouting/executor.go: one tool call, authorised, recorded and then made. The transport
-- is a parameter, `invoke`; the calls made are part of the result. The context is read at four points,
-- `live 0` to `live 3`. The operations of other callers come between any two critical sections on the
-- store: in the windows of `Routing.Route`, of which the last two are here, before the second reading
-- of the run and between that and the call.
use ia_cstudio.Prelude.{
  ℕ, String, Bool, true, false, not, ◌&&◌, ◌||◌, List, [], ◌∷◌, Option, none, some, if◌then◌else◌,
  ◌==◌, leb, len, Result, ok, err, any,
}
use ia_cstudio.Runs.Types.{Status, Time}
use ia_cstudio.Runs.Gates.{has_pending_approvals}
use ia_cstudio.Runs.Store.{Store, find}
use ia_cstudio.Routing.Policy.{Request, valid_request}
use ia_cstudio.Routing.Outcome.{valid_decision}
use ia_cstudio.Routing.Authorizer.{Authorizer}
use ia_cstudio.Routing.Binding.{ToolCallRequest, tool_call, valid_tool_call}
use ia_cstudio.Routing.Recorder.{Pause, meanwhile, RouteError, RouteHost, is_allowed, run_in_scope}
use ia_cstudio.Routing.Router.{RouteResult, route_tool_call}

-- `mcpairlock.ToolCallResult`; a `String` is valid UTF-8.
pub record ToolCallResult : Type 0 where
  pub output : String
  pub is_error : Bool
  pub untrusted_output : Bool
  pub redacted : Bool
  pub truncated : Bool

abbrev pub max_tool_call_output_bytes : ℕ
max_tool_call_output_bytes = 262144

-- `secretPatterns` of internal/mcpairlock/registry.go; `(?i)` and the like are of Go's `regexp`.
abbrev pub secret_patterns : List String
secret_patterns =
    "(?is)-----BEGIN [A-Z0-9 ]*PRIVATE KEY(?: BLOCK)?-----.*?(?:-----END [A-Z0-9 ]*PRIVATE KEY(?: BLOCK)?-----|\\z)"
    ∷ "(?i)(aws_secret_access_key|secret_access_key|session_token|client_secret|access_token|refresh_token|private_key|token)\\s*[:=]\\s*[\"']?[^\"'\\s]+"
    ∷ "AKIA[0-9A-Z]{12,}" ∷ "ASIA[0-9A-Z]{12,}" ∷ []

-- `ToolCallResult.Validate`; `matches pattern text` is `MatchString` of Go's `regexp`.
unfoldable pub valid_result : (String → String → Bool) → ToolCallResult → Bool
valid_result matches r =
    r.untrusted_output
    && leb (len r.output) max_tool_call_output_bytes
    && not (any (λ pattern. matches pattern r.output) secret_patterns)

pub record ExecutionResult : Type 0 where
  pub route : RouteResult
  pub invoked : Bool
  pub result : Option ToolCallResult

pub data ExecutionError : Type 0 where
  context_done invalid_request invalid_tool_call invalid_execution : ExecutionError
  invocation_failed : ExecutionError
  route_failed : RouteError → ExecutionError

unfoldable pub is_active : Status → Bool
is_active Status.queued = true
is_active Status.running = true
is_active _ = false

-- `validateExecutionRoute`
unfoldable pub valid_execution_route : RouteResult → String → Request → Bool
unfolding is_active
valid_execution_route route run_id request =
    valid_decision route.decision
    && route.run.id == run_id
    && run_in_scope route.run request
    && (not (is_allowed route.decision.status)
        || not (route.run.canceled || not (is_active route.run.status))
          && not (has_pending_approvals route.run.approvals))

-- the calls that were made, and the result
abbrev pub Outcome : Type 0
Outcome = List ToolCallRequest × Result ExecutionError ExecutionResult

abbrev no_call : ExecutionError → Outcome
no_call e = ([], err e)

module _ (live : ℕ → Bool) (invoke : ToolCallRequest → Result String ToolCallResult)
    (host : RouteHost) where
  -- what follows the call
  unfoldable pub finish :
      RouteResult → Result String ToolCallResult → Result ExecutionError ExecutionResult
  finish route answer = if not (live 3) then err ExecutionError.context_done else elim answer [
    | err e ↦ err ExecutionError.invocation_failed
    | ok result ↦
        if not (valid_result host.matches result)
        then err ExecutionError.invocation_failed
        else ok (record { route = route; invoked = true; result = some result })
  ]

  -- The part of `Execute` after an allowed route: the run is read again, in the store given, then the
  -- call is made.
  unfoldable pub invoke_allowed : RouteResult → String → Request → List ℕ → Store → Outcome
  unfolding finish
  invoke_allowed route run_id request arguments s =
      if not (live 1) then no_call ExecutionError.context_done else elim (find run_id s.runs) [
        | none ↦ no_call ExecutionError.invalid_execution
        | some current ↦
            let reread = record route { run = current } in
            if not (valid_execution_route reread run_id request)
            then no_call ExecutionError.invalid_execution
            else if not (live 2)
            then no_call ExecutionError.context_done
            else (
              tool_call request arguments ∷ [],
              finish reread (invoke (tool_call request arguments)),
            )
      ]

  -- the part of `Execute` after the recording
  unfoldable pub after_route :
      String → Request → List ℕ → Store → Result RouteError RouteResult → Outcome
  unfolding invoke_allowed
  after_route run_id request arguments s (err e) = no_call (ExecutionError.route_failed e)
  after_route run_id request arguments s (ok route) =
      if not (valid_execution_route route run_id request)
      then no_call ExecutionError.invalid_execution
      else if not (is_allowed route.decision.status)
      then ([], ok (record { route = route; invoked = false; result = none }))
      else invoke_allowed route run_id request arguments s

  -- The store that is left is the one at the end of the call.
  unfoldable pub execute :
      Authorizer → List ℕ → String → Request → List ℕ → Store → Time → Store × Outcome
  unfolding after_route
  execute authorizer key run_id request arguments s now =
      let (recorded, routed) = route_tool_call host authorizer key run_id request arguments s now in
      let reread = meanwhile host Pause.rereading recorded in
      if not (live 0)
      then (s, no_call ExecutionError.context_done)
      else if not (valid_request request)
      then (s, no_call ExecutionError.invalid_request)
      else if not (valid_tool_call (tool_call request arguments))
      then (s, no_call ExecutionError.invalid_tool_call)
      else (meanwhile host Pause.calling reread, after_route run_id request arguments reread routed)
