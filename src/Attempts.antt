-- ===== src/Attempts.antt =====
-- Idempotency of tool routes and executions: internal/api/agent_tool_route_idempotency.go and
-- internal/api/agent_tool_execution_idempotency.go.
pub mod Window
pub mod Routes
pub mod Executions
mod Tests
mod ExecutionTests
