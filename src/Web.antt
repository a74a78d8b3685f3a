-- ===== src/Web.antt =====
-- apps/web/src: the logic of the buyer's checkout page and of the merchant's confirmation.
pub mod Status
pub mod Poll
pub mod Approval
pub mod Proposals
pub mod Prefs
pub mod Usdt
pub mod Toman
pub mod Wallet
pub mod Checkout
pub mod Phone
pub mod Handoff
