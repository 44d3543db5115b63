-- ===== src/Policy.antt =====
-- What a provider is entitled to (src/booking-policy): policy, milestones and campaigns.
pub mod Provider
pub mod Milestones
pub mod Campaigns
pub mod Entitlement
pub mod Limits
pub mod Highest
mod Tests
