-- ===== src/Ring.antt =====
-- ivc/ring.c: the definitions, the queue that they promise, the invariant and the refinement, and
-- the same code with the accesses of producer and consumer interleaved.
pub mod Defs
pub mod Fifo
pub mod Inv
pub mod Refine
pub mod Concurrent
pub mod Accesses
pub mod Interleaved
mod Tests
