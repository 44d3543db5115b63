-- ===== src/Promotions.antt =====
-- Promotion codes: what they are worth, who may use them, and the slots that redemptions take
-- (src/promotions).
pub mod Codes
pub mod Redeeming
pub mod Slots
pub mod Counted
pub mod Counting
pub mod Releases
pub mod Caps
pub mod Races
pub mod Tests
