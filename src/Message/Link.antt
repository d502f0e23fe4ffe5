-- ===== src/Message/Link.antt =====
-- A link: a sender, the ring, and a receiver of ivc/message.c, under any sequence of calls on the two
-- ends. `sent` and `delivered` record what the callers have seen: the bytes that writes consumed and
-- reads returned, and which of them were reported complete or aborted.
use axvisor_tools.Common.{ℕ, ◌^◌, ◌<◌, List, [], ◌∷◌, take, Errno, done, failed, Code, econnreset}
use axvisor_tools.Ring.Defs.{Ring, initialize}
use axvisor_tools.Message.Sender.{Sender, sender_init, start, try_write, try_abort}
use axvisor_tools.Message.Receiver.{Receiver, Received, receiver_init, peek_meta, try_read}
use axvisor_tools.Message.Joined.{Log, extend, discard}

pub record Link : Type 0 where
  pub sender : Sender
  pub ring : Ring
  pub receiver : Receiver
  pub sent : Log
  pub delivered : Log

-- The calls that the two ends' owners make; `read` has the size of the output buffer.
pub data Call : Type 0 where
  starts : ℕ → Call
  writes : List ℕ → Call
  aborts : Call
  peeks : Call
  reads : ℕ → Call

-- A length is a `u64`.
abbrev pub IsCall : Call → Type 0
IsCall (starts message_len) = message_len < 2 ^ 64
IsCall _ = Unit {0}

-- The sender's log after an abort with this result.
abbrev pub note_abort : Code → Log → Log
note_abort (done _) log = discard log
note_abort (failed _) log = log

-- The receiver's log after a read.
abbrev pub note_error : Errno → Log → Log
note_error econnreset log = discard log
note_error _ log = log

abbrev pub note_read : Received → Log → Log
note_read r log = elim r.code [
  | done _ ↦ extend log r.output r.progress.complete
  | failed e ↦ note_error e log
]

unfoldable pub call : Link → Call → Link
call l (starts message_len) = record l { sender = (start l.sender message_len).1 }
call l (writes input) =
    let w = try_write l.sender l.ring input in
    record l {
      sender = w.sender;
      ring = w.ring;
      sent = extend l.sent (take w.progress.consumed input) w.progress.complete;
    }
call l aborts =
    let (code, sender, ring) = try_abort l.sender l.ring in
    record l { sender = sender; ring = ring; sent = note_abort code l.sent }
call l peeks = record l { receiver = (peek_meta l.receiver l.ring).receiver }
call l (reads output_len) =
    let r = try_read l.receiver l.ring output_len in
    record l { receiver = r.receiver; ring = r.ring; delivered = note_read r l.delivered }

unfoldable pub run : Link → List Call → Link
run l [] = l
run l (c ∷ cs) = run (call l c) cs

abbrev pub empty_log : Log
empty_log = record { partial = []; messages = [] }

unfoldable pub connect : Ring → ℕ → Link
connect ring direction = record {
  sender = sender_init;
  ring = initialize ring direction;
  receiver = receiver_init;
  sent = empty_log;
  delivered = empty_log;
}
