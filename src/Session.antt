-- ===== src/Session.antt =====
-- The world server's session core, src/services/world/runtime/world_runtime_session.cpp: the packed
-- session keys, the tables of authenticated sessions, and the operations on them.
pub mod Key
pub mod Types
pub mod Tables
pub mod Bind
pub mod Unbind
pub mod Stage
pub mod Close
pub mod Pending
pub mod Lifecycle
pub mod Kick
pub mod Reconnect
pub mod History
pub mod Tests
