-- ===== src/AppProto.antt =====
-- demo/app_proto.c: the messages that the demo programs exchange.
pub mod Defs
pub mod Header
pub mod Text
pub mod Pattern
pub mod Ack
mod Tests
