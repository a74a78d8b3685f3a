-- ===== src/Web/Wallet.antt =====
-- apps/web/src/lib/payment-handoff: how a payment is handed to a wallet. A `bigint` is a natural
-- number.
pub mod Amount
pub mod Session
pub mod Evm
pub mod Launch
