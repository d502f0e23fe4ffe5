-- ===== src/Ulib.antt =====
-- userspace/ivc/ivc_ulib.c: the user library's managers and endpoints.
pub mod Defs
pub mod Subscriber
pub mod Publisher
pub mod Balance
pub mod Session
pub mod Counting
mod Tests
