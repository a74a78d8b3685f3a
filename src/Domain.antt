-- ===== src/Domain.antt =====
-- apps/action-gateway/src/domain: the proposals of buyer messages.
pub mod Types
pub mod Platform
pub mod Canonical
pub mod Machine
pub mod Validation
pub mod Store
pub mod Registry
