-- ===== src/Http.antt =====
-- apps/action-gateway/src/http: the confirmation channel of the merchant and the service API.
pub mod Limiter
pub mod Page
pub mod Confirmation
pub mod Internal
