-- ===== src/Agent.antt =====
-- apps/action-gateway/src/observability, src/agent and src/mcp: what the gateway logs and what it
-- tells and allows an agent.
pub mod Redact
pub mod Snapshot
pub mod Tools
