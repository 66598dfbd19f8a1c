-- ===== src/Routing.antt =====
-- The routing of tool calls, internal/agentrouting: `Policy` the scoped rules, `Decision` the
-- outcome for a request, `Authorizer` the outcome against the live firewall, `Binding` the keyed
-- fingerprint of one call, `Recorder`, `Router` and `Executor` the audited path to a call; the other
-- modules have the theorems and concrete calls.
pub mod Policy
pub mod Outcome
pub mod Decision
pub mod Authorizer
pub mod Binding
pub mod Route
pub mod Recorder
pub mod Router
pub mod Executor
pub mod Authority
pub mod Permit
pub mod Calls
pub mod Executed
pub mod Bytes
pub mod Framing
pub mod Tests
pub mod FramingTests
pub mod Scoped
pub mod ScopedTests
