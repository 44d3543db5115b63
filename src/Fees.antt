-- ===== src/Fees.antt =====
-- The rules by which the platform takes fees, their versions, and what administrators publish
-- (src/platform-fee).
pub mod Rules
pub mod Preview
pub mod Keys
pub mod Versions
pub mod Admin
pub mod Seeds
pub mod Newest
pub mod Scan
pub mod InForce
pub mod History
pub mod Tops
pub mod Calls
pub mod Seeding
pub mod Snapshots
pub mod Switched
pub mod Switch
mod PreviewTests
mod Tests
