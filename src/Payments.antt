-- ===== src/Payments.antt =====
-- backend/internal/payments: the event log and the transaction that applies an event, the
-- in-process provider, the service, and the gateway that the bookings module calls.
pub mod Events
pub mod FakeProvider
pub mod Service
pub mod Earnings
pub mod Summary
pub mod Replay
pub mod MoneyPath
pub mod Outcome
mod Tests
