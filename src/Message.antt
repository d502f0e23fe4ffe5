-- ===== src/Message.antt =====
-- ivc/message.c: the frame codec, the sending and the receiving state machine, what each promises,
-- and the two joined by a ring.
pub mod Frame
pub mod Shape
pub mod Codec
pub mod Sender
pub mod Receiver
pub mod Joined
pub mod Publish
pub mod Write
pub mod Calls
pub mod Abort
pub mod Round
pub mod Terminates
pub mod Reads
pub mod Read
pub mod Peek
pub mod Link
pub mod Delivery
pub mod Poison
mod Tests
