-- ===== src/Clock.antt =====
-- Simulated time: rosrust-async/src/clock. Times and durations are rosrust's: their order and sum
-- are parameters, with the laws of a total order.
pub mod Encoded
pub mod Timers
pub mod Firing
pub mod Waking
mod Tests
