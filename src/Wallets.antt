-- ===== src/Wallets.antt =====
-- Provider wallets (src/wallets): the prepaid balance, its append-only ledger, top-ups and fees.
pub mod State
pub mod Store
pub mod Fees
pub mod TopUps
pub mod Balance
pub mod Sound
pub mod Ledgered
pub mod Credit
pub mod Books
pub mod Webhook
pub mod Report
pub mod Calls
pub mod Deliveries
pub mod Payments
pub mod Redelivery
pub mod Guards
pub mod Reversal
pub mod Trust
mod Tests
