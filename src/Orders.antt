-- ===== src/Orders.antt =====
-- Online orders (src/online-orders): the order state machine.
pub mod Status
pub mod Runs
pub mod Lifecycle
pub mod Courier
pub mod Order
pub mod Transition
pub mod SameOrders
pub mod Interleaving
pub mod Workers
pub mod History
pub mod SlotRows
pub mod Promos
mod Tests
