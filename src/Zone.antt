-- ===== src/Zone.antt =====
-- The actor of one zone (src/services/world/actors/zone_actor.h).
pub mod Cells
pub mod Sends
pub mod Tests
