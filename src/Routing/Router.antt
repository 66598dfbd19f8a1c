-- ===== src/Routing/Router.antt =====
-- internal/agentrouting/router.go: a request is authorised and its outcome recorded.
use ia_cstudio.Prelude.{ℕ, String, not, List, Option, none, some, if◌then◌else◌, Result, ok, err}
use ia_cstudio.Runs.Types.{Run, Time, ApprovalBinding}
use ia_cstudio.Runs.Store.{Store}
use ia_cstudio.Routing.Policy.{Request, valid_request}
use ia_cstudio.Routing.Outcome.{Decision, valid_decision}
use ia_cstudio.Routing.Decision.{allowed}
use ia_cstudio.Routing.Authorizer.{Authorizer, authorize}
use ia_cstudio.Routing.Binding.{new_tool_approval_binding, BindingError}
use ia_cstudio.Routing.Recorder.{
  Pause, meanwhile, RouteError, RouteHost, is_approval_required, validate_run_id, record_outcome,
  record_bound_approval, record_approved_tool_call,
}

pub record RouteResult : Type 0 where
  pub decision : Decision
  pub run : Run

unfoldable pub preview : Authorizer → Request → Result RouteError Decision
preview authorizer request =
    let decision = authorize authorizer request in
    if not (valid_request request)
    then err RouteError.invalid_request
    else if not (valid_decision decision)
    then err RouteError.invalid_decision
    else ok decision

-- a decision with the run that it was recorded on
abbrev pub with_decision :
    Decision → Store × Result RouteError Run → Store × Result RouteError RouteResult
with_decision decision (s, ok run) = (s, ok (record { decision = decision; run = run }))
with_decision decision (s, err e) = (s, err e)

abbrev pub no_binding : ApprovalBinding
no_binding = record { value = "" }

module _ (host : RouteHost) (authorizer : Authorizer) where
  unfoldable pub route : String → Request → Store → Time → Store × Result RouteError RouteResult
  route run_id request s now =
      let decision = authorize authorizer request in
      with_decision decision (record_outcome host run_id request decision no_binding s now)

  -- what follows the attempt to spend an approval
  unfoldable pub route_unapproved :
      List ℕ
      → String
      → Request
      → List ℕ
      → Decision
      → Time
      → Store × Result RouteError (Option Run)
      → Store × Result RouteError RouteResult
  route_unapproved key run_id request arguments decision now (s, err e) = (s, err e)
  route_unapproved key run_id request arguments decision now (s, ok (some run)) =
      (s, ok (record { decision = allowed; run = run }))
  route_unapproved key run_id request arguments decision now (s, ok none) = with_decision decision (
      record_bound_approval host key run_id request arguments decision
        (meanwhile host Pause.asking s) now)

  -- the routing of a decision
  unfoldable pub route_decision :
      List ℕ
      → String
      → Request
      → List ℕ
      → Decision
      → Store
      → Time
      → Store × Result RouteError RouteResult
  unfolding route_unapproved
  route_decision key run_id request arguments decision s now =
      if is_approval_required decision.status
      then route_unapproved key run_id request arguments decision now
          (record_approved_tool_call host key run_id request arguments s now)
      else with_decision decision (record_outcome host run_id request decision no_binding s now)

  -- the binding is made only to see that it can be made
  unfoldable pub route_bound :
      List ℕ
      → String
      → Request
      → List ℕ
      → Store
      → Time
      → Result BindingError String
      → Store × Result RouteError RouteResult
  unfolding route_decision
  route_bound key run_id request arguments s now (err e) = (s, err (RouteError.binding_error e))
  route_bound key run_id request arguments s now (ok value) =
      route_decision key run_id request arguments (authorize authorizer request) s now

  -- `RouteToolCall`
  unfoldable pub route_tool_call :
      List ℕ → String → Request → List ℕ → Store → Time → Store × Result RouteError RouteResult
  unfolding route_bound
  route_tool_call key run_id request arguments s now = elim (validate_run_id run_id) [
    | some e ↦ (s, err e)
    | none ↦
        if not (valid_request request)
        then (s, err RouteError.invalid_request)
        else route_bound key run_id request arguments s now
            (new_tool_approval_binding host.digest key run_id request arguments)
  ]
