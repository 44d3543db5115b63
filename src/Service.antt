-- ===== src/Service.antt =====
-- The handlers of the online orders' service (src/online-orders/online-orders.service.ts).
pub mod Document
pub mod State
pub mod Weighing
pub mod Money
pub mod Access
pub mod Pickup
pub mod Handover
pub mod Holds
pub mod Eligibility
pub mod Cap
pub mod Decisions
pub mod Acceptance
pub mod Counts
pub mod Books
pub mod Steps
pub mod Handlers
pub mod Posts
pub mod Posting
pub mod Keeping
pub mod Quiets
pub mod PickupBooks
pub mod HandoverBooks
pub mod HoldsBooks
pub mod PromoBooks
pub mod AcceptBooks
pub mod DecisionsBooks
pub mod Calls
pub mod Results
pub mod MeasuredLines
pub mod Measured
pub mod WeighIns
pub mod Settled
pub mod Reconciled
pub mod Runs
pub mod Stuck
pub mod HoldAnswers
pub mod Refusals
pub mod CapChecks
pub mod Abandonment
pub mod Examples
mod Tests
mod PromoTests
