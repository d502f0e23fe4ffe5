-- ===== src/Region.antt =====
-- ivc/region.c: the shared region of a channel, and how it is published.
pub mod Defs
pub mod Publication
mod Tests
