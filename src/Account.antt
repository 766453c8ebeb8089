-- ===== src/Account.antt =====
-- The account service (src/services/account/runtime/account_line_runtime.cpp and .h).
pub mod Types
pub mod Jobs
pub mod Messages
pub mod Registry
pub mod Select
pub mod Slots
pub mod Tickets
pub mod Workers
pub mod Runtime
pub mod Login
pub mod Characters
pub mod Auth
pub mod Events
pub mod Tests
