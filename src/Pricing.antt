-- ===== src/Pricing.antt =====
-- What an order costs (src/online-orders): the fees of its legs and the parts of the platform fee.
pub mod Legs
pub mod LegBounds
pub mod LegRefusals
pub mod Lines
pub mod LineBounds
pub mod Costs
pub mod Doubles
pub mod FeeParts
mod Tests
