-- ===== src/Lib.antt =====
-- IaC Studio: the agent run store, the tool firewall, the routing of agent tool calls and their
-- retries, the gate in front of an apply, the classification of plans, the blast radius and the runner
-- of commands.
--
-- The program lets an agent run call tools of external MCP servers. A call is a request that names
-- its project, provider, connection, server, tool, mode and risk. The router asks the authorizer,
-- which intersects the scoped policy with the firewall's decision on the tool; the outcome is
-- recorded on the run before anything happens; the executor calls the tool only after that. A call
-- that needs an approval gets a gate on the run, bound to the exact operation by a keyed hash, and
-- spends the binding of the gate when the operation is tried again.
--
-- `Text` is what the source uses of Go's string packages. A Go string is a `String`, a list of code
-- points whose `len` is its number of UTF-8 bytes, so only valid UTF-8 is modelled.
--
-- `Runs`, internal/agentruns/store.go: `Runs.Types` has the records, `Runs.Changes` the closures that
-- `Store.update` applies to one run, `Runs.Store` the operations (`Create`, `SetStatus`, `Cancel`,
-- `Fail`, `AddLog`, `AddPatch`, `AddApproval`, `DecideApproval`, `ConsumeApprovalBinding` under their
-- names in snake case), `Runs.Trace` a sequence of them. The store's lock makes any interleaving of
-- callers such a sequence; the clock is an argument. The map of runs is an association list; returned
-- runs are copies that share nothing with the store, so a copy is the run itself. Ids are numbered by
-- a 64-bit counter with its wrap-around; theorems over sequences assume fewer than 2^64 operations.
-- `redactText` and `hashText` are parameters. `Runs.Summaries` is `ListProjectSummaries`.
--
-- `Airlock`, internal/mcpairlock/tools.go: `Airlock.Allow` the allowlist, `Airlock.Firewall` the
-- decision on a tool and `ClassifyTool`, `Airlock.Inventory` what `persistDiscoveredTools` does with
-- the inventory that was loaded, `Airlock.Evaluation` `EvaluateTool` and `SetToolAllowlist`. JSON
-- schemas, their hash, lower-casing and what the inventory's file gives are parameters; the probe
-- process and the listing `Inventory` are not modelled.
--
-- `Routing`, internal/agentrouting: `Routing.Policy` (policy.go), `Routing.Outcome` and
-- `Routing.Decision` (decision.go), `Routing.Authorizer` (authorizer.go, policy_store.go),
-- `Routing.Binding` (approval_binding.go and the request of internal/mcpairlock/tool_call.go),
-- `Routing.Recorder` (run_recorder.go), `Routing.Router` (router.go), `Routing.Executor`
-- (executor.go). The keyed hash, `%q`, the firewall's `EvaluateTool`, the policy file and the
-- transport are parameters. `Execute` reports the calls that it makes; its context is a function of
-- the point where it is read. Between any two critical sections on the store other callers may run any
-- operations: `RouteHost.between` has them for each such pause, the one before the call included. The
-- matching of Go's regular expressions is a parameter, `matches`.
-- Nil receivers and nil stores are not modelled.
--
-- `Attempts`, internal/api: `Attempts.Window` what the two stores of attempts share, `Attempts.Routes`
-- agent_tool_route_idempotency.go, `Attempts.Executions` agent_tool_execution_idempotency.go. A call
-- of `authorize` or `execute` is two critical sections, `begin` and `finish`, with the callback
-- between them; `Steps` is any sequence of critical sections of any callers. An attempt is a value
-- under its key, not an address: a running attempt never leaves its key before its `finish`, so the
-- address that its caller holds is that of the entry. A caller that joins an attempt waits for it;
-- the waiting is not modelled.
--
-- `Plans.Gate`, internal/api/plan_gate.go: the plans of projects and the commands that consume them;
-- `Plans.Gate.History` has the sequences of operations, the latest first.
--
-- `Plans`, internal/plan and internal/api/plan_classification.go: `Plans.Change` the types,
-- `Plans.Parse` the parsers and the diff of plan.go, `Plans.Classify` the rules of classifier.go,
-- `Plans.Classify.Markdown` its texts, `Plans.Classify.Summary` `Classify` and the answers of the API.
-- The JSON decoder, `%v`, `%q` and lower-casing are parameters.
--
-- `Blast`, internal/blast/blast.go: `Blast.Graph` `BuildGraph`, `Blast.Analyze` `Analyze`. Go runs
-- through a map in any order, here in the order of a list.
--
-- `Runner`, internal/runner: `Runner.Environment` the environments that commands get, `Runner.Output`
-- `limitedWriter`, `Runner.Commands` the arguments of every tool, approvals and timeouts. The map of
-- overrides is a list in any order, `os.DevNull` is a parameter; processes are not modelled.
--
-- Recursion is structural, except the printing of a number: there `n + 7` rounds are enough, since a
-- round takes a digit.
mod Prelude
pub mod Text
pub mod Runs
pub mod Airlock
pub mod Routing
pub mod Attempts
pub mod Plans
pub mod Blast
pub mod Runner
