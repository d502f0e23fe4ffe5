-- ===== src/Demo.antt =====
-- demo/publish.c and demo/subscribe.c: the demo programs.
pub mod Publish
pub mod Main
pub mod Accepted
pub mod Replies
pub mod Held
pub mod Subscribe
pub mod Requests
pub mod Asked
pub mod Left
pub mod Agree
mod Tests
