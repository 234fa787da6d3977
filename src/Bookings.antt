-- ===== src/Bookings.antt =====
-- backend/internal/bookings: the queries, the prices, and the service.
pub mod Repository
pub mod Pricing
pub mod Ports
pub mod Browse
pub mod Lifecycle
pub mod Machine
pub mod Money
pub mod Intents
pub mod Journey
pub mod Moves
pub mod Endings
pub mod Absences
pub mod Steps
pub mod Cancellation
pub mod Calendar
pub mod Decline
mod Tests
