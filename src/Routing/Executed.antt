-- ===== src/Routing/Executed.antt =====
-- The calls of `Execute` of internal/agentrouting/executor.go.
use ia_cstudio.Prelude.{
  ℕ, ◌≡◌, ◌≢◌, refl, ap, String, Bool, true, false, List, [], ◌∷◌, some, arith, inl, inr, ◌⊎◌,
  Bool-cases, Option-cases, Result, ok, err,
}
use ia_cstudio.Runs.Types.{Run, Time}
use ia_cstudio.Runs.Gates.{has_pending_approvals}
use ia_cstudio.Runs.Store.{Store, find}
use ia_cstudio.Routing.Policy.{Request, valid_request}
use ia_cstudio.Routing.Authorizer.{Authorizer}
use ia_cstudio.Routing.Binding.{ToolCallRequest, tool_call, valid_tool_call}
use ia_cstudio.Routing.Recorder.{Pause, meanwhile, RouteError, RouteHost, is_allowed, run_in_scope}
use ia_cstudio.Routing.Router.{RouteResult, route_tool_call}
use ia_cstudio.Routing.Executor.{
  ToolCallResult, is_active, valid_execution_route, invoke_allowed, after_route, execute,
}
use ia_cstudio.Routing.Permit.{Permit}
use ia_cstudio.Routing.Calls.{SpentIn, route_tool_call-allowed}

-- What `Execute` saw of the run when it read it again, in the store `s`.
pub record Ready (run_id : String) (request : Request) (s : Store) : Type 0 where
  pub run : Run
  pub held : find run_id s.runs ≡ some run
  pub scope : run_in_scope run request ≡ true
  pub active : is_active run.status ≡ true
  pub canceled : run.canceled ≡ false
  pub settled : has_pending_approvals run.approvals ≡ false

module _ (live : ℕ → Bool) (invoke : ToolCallRequest → Result String ToolCallResult)
    (host : RouteHost) (run_id : String) (request : Request) (arguments : List ℕ) where
  ready :
      (route : RouteResult) (run : Run) (s : Store)
      → find run_id s.runs ≡ some run
      → is_allowed route.decision.status ≡ true
      → valid_execution_route (record route { run = run }) run_id request ≡ true
      → Ready run_id request s
  unfolding valid_execution_route
  ready route run s held allows valid = record {
    run = run;
    held = held;
    scope = ground arith;
    active = ground arith;
    canceled = ground arith;
    settled = ground arith;
  }

  invoke_allowed-called :
      (route : RouteResult) (s : Store)
      → is_allowed route.decision.status ≡ true
      → (invoke_allowed live invoke host route run_id request arguments s).0 ≢ []
      → ((invoke_allowed live invoke host route run_id request arguments s).0
          ≡ tool_call request arguments ∷ [])
        × Ready run_id request s
  unfolding invoke_allowed
  invoke_allowed-called route s allows called = elim (Bool-cases (live 1)) [
    | inr over ↦ absurd (called (rw (over, invoke_allowed) refl))
    | inl on ↦ elim (Option-cases (find run_id s.runs)) [
      | inl missing ↦ absurd (called (rw (on, missing, invoke_allowed) refl))
      | inr (run, held) ↦
          let reread = record route { run = run } in
          elim (Bool-cases (valid_execution_route reread run_id request)) [
            | inr bad ↦ absurd (called (rw (on, invoke_allowed) (rw held (rw bad refl))))
            | inl good ↦ elim (Bool-cases (live 2)) [
              | inr over ↦
                  absurd (called (rw (on, invoke_allowed) (rw held (rw (good, over) refl))))
              | inl still ↦ (
                rw (on, invoke_allowed) (rw held (rw (good, still) refl)),
                ready route run s held allows good,
              )
            ]
          ]
    ]
  ]

  after_route-called :
      (s : Store) (routed : Result RouteError RouteResult)
      → (after_route live invoke host run_id request arguments s routed).0 ≢ []
      → (route : RouteResult) × (routed ≡ ok route)
        × (is_allowed route.decision.status ≡ true)
        × ((after_route live invoke host run_id request arguments s routed).0
            ≡ tool_call request arguments ∷ [])
        × Ready run_id request s
  unfolding after_route
  after_route-called s (err x) called = absurd (called refl)
  after_route-called s (ok route) called =
      elim (Bool-cases (valid_execution_route route run_id request)) [
        | inr bad ↦ absurd (called (rw (bad, after_route) refl))
        | inl good ↦ elim (Bool-cases (is_allowed route.decision.status)) [
          | inr asks ↦ absurd (called (rw (good, asks, after_route) refl))
          | inl allows ↦
              let (once, fit) =
                invoke_allowed-called route s allows (rw (good, allows, after_route) at called) in
              (route, refl, allows, rw (good, allows, after_route) once, fit)
        ]
      ]

-- Whatever other callers do between any two critical sections of the call, a tool is called at most
-- once, with exactly the request's server, tool and arguments, and only if two things hold. When the
-- run was read again, in the store `seen`, the run was held, had the request's project, provider and
-- mode, was queued or running, was not canceled and had no pending gate; only operations of other
-- callers come between the routing and this reading and between it and the call, so that a
-- cancelation after this reading does not stop the call. And the call is permitted by policy and
-- firewall for a read-only request, or an approval of exactly this operation was spent, in the store
-- that the routing left.
pub execute-authority :
    (live : ℕ → Bool) (invoke : ToolCallRequest → Result String ToolCallResult) (host : RouteHost)
    (authorizer : Authorizer) (key : List ℕ) (run_id : String) (request : Request)
    (arguments : List ℕ) (s : Store) (now : Time)
    → (execute live invoke host authorizer key run_id request arguments s now).1.0 ≢ []
    → (routed : Store) × (seen : Store) × (seen ≡ meanwhile host Pause.rereading routed)
      × ((execute live invoke host authorizer key run_id request arguments s now).0
          ≡ meanwhile host Pause.calling seen)
      × ((execute live invoke host authorizer key run_id request arguments s now).1.0
          ≡ tool_call request arguments ∷ [])
      × Ready run_id request seen
      × (Permit authorizer request ⊎ SpentIn host key run_id request arguments s now routed)
unfolding execute
execute-authority live invoke host authorizer key run_id request arguments s now called =
    let routing = route_tool_call host authorizer key run_id request arguments s now in
    let seen = meanwhile host Pause.rereading routing.0 in
    elim (Bool-cases (live 0)) [
      | inr over ↦ absurd (called (rw (over, execute) refl))
      | inl on ↦ elim (Bool-cases (valid_request request)) [
        | inr bad ↦ absurd (called (rw (on, bad, execute) refl))
        | inl asked ↦ elim (Bool-cases (valid_tool_call (tool_call request arguments))) [
          | inr bad ↦ absurd (called (rw (on, asked, bad, execute) refl))
          | inl sound ↦
              let (route, done, allows, once, fit) =
                after_route-called live invoke host run_id request arguments seen routing.1
                  (rw (on, asked, sound, execute) at called) in
              (
                routing.0,
                seen,
                refl,
                rw (on, asked, sound, execute) refl,
                rw (on, asked, sound, execute) once,
                fit,
                route_tool_call-allowed host key run_id request arguments s now authorizer
                    (ap (λ r. (routing.0, r)) done) allows,
              )
        ]
      ]
    ]
