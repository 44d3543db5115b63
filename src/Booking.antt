-- ===== src/Booking.antt =====
-- When a provider can be booked (src/booking-availability, src/common/utils/ph-time.util.ts).
pub mod Time
pub mod Windows
pub mod Spans
pub mod Hours
pub mod Sweep
pub mod Loop
pub mod Canonical
pub mod Day
pub mod Week
mod Tests
