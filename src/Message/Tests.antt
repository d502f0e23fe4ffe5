-- ===== src/Message/Tests.antt =====
-- Messages over a ring, and the theorems at concrete inputs.
use axvisor_tools.Common.{
  ℕ, ◌≡◌, ◌≢◌, ◌≤◌, ◌++◌, ◌↔◌, refl, arith, true, false, List, [], ◌∷◌, All, length, replicate,
  eprotonosupport, failed, done,
}
use axvisor_tools.Ring.Defs.{
  Ring, Slot, axivc_slot_size, initialize, zero_slots, try_push_slot, try_peek_slot, pop_slot,
}
use axvisor_tools.Ring.Refine.{contents, window}
use axvisor_tools.Message.Frame.{
  encode_frame, decode_frame, frame_bytes, frame_flags, zero_slot, payload, axivc_fragment_capacity,
  read_le16, read_le32, read_le64, write_le16, write_le32, write_le64, validate_frame_shape,
}
use axvisor_tools.Message.Shape.{HasShape, encode_frame_accepts, decode_frame_sound}
use axvisor_tools.Message.Codec.{framed, decode-encode}
use axvisor_tools.Message.Sender.{start, try_write, try_abort, write_loop, sender_init}
use axvisor_tools.Message.Receiver.{
  ReceiverState, peek_meta, try_read, read_loop, receiver_init, validate_transition,
  advance_transition,
}
use axvisor_tools.Message.Joined.{Joined, Log}
use axvisor_tools.Message.Calls.{Writes, try_write_lem}
use axvisor_tools.Message.Abort.{Aborts, try_abort_lem}
use axvisor_tools.Message.Peek.{Peeks, peek_meta-Peeks}
use axvisor_tools.Message.Reads.{Reads}
use axvisor_tools.Message.Read.{try_read-Reads}
use axvisor_tools.Message.Poison.{Fails, try_read-IsPoisoned}
use axvisor_tools.Message.Terminates.{try_read_terminates}
use axvisor_tools.Message.Link.{
  Link, Call, starts, writes, aborts, peeks, reads, IsCall, call, run, connect,
}
use axvisor_tools.Message.Delivery.{run-Inv, connect-Inv, messages_delivered, messages_drained}

abbrev stale_ring : Ring
stale_ring = record { direction = 7; capacity = 8; slot_size = 9; head = 5; tail = 2; slots = [] }

-- A message of two fragments, read in two calls, and a second one that is aborted halfway.
abbrev calls : List Call
calls =
    starts 300
    ∷ writes (replicate 232 7)
    ∷ peeks
    ∷ reads 232
    ∷ writes (replicate 68 8)
    ∷ reads 100
    ∷ starts 500
    ∷ writes (replicate 240 9)
    ∷ aborts
    ∷ []

calls-IsCall : All IsCall calls
calls-IsCall = ground arith

-- A message of two bytes, sent and received.
abbrev short_calls : List Call
short_calls = starts 2 ∷ writes (5 ∷ 6 ∷ []) ∷ reads 4 ∷ []

short_calls-IsCall : All IsCall short_calls
short_calls-IsCall = ground arith

short_delivered : (run (connect stale_ring 1) short_calls).delivered.messages ≡ (5 ∷ 6 ∷ []) ∷ []
unfolding connect run call start try_write write_loop encode_frame validate_frame_shape frame_bytes
    frame_flags zero_slot write_le16 write_le32 write_le64 try_push_slot try_peek_slot pop_slot
    try_read read_loop decode_frame read_le16 read_le32 read_le64 validate_transition
    advance_transition sender_init receiver_init initialize zero_slots
short_delivered = refl

short_drained : contents (run (connect stale_ring 1) short_calls).ring ≡ []
unfolding connect run call start try_write write_loop encode_frame validate_frame_shape frame_bytes
    frame_flags zero_slot write_le16 write_le32 write_le64 try_push_slot try_peek_slot pop_slot
    try_read read_loop decode_frame read_le16 read_le32 read_le64 validate_transition
    advance_transition sender_init receiver_init initialize zero_slots window
short_drained = refl

messages_delivered_example :
    let l = run (connect stale_ring 1) calls in
    (l.receiver.state ≢ ReceiverState.failed_state)
    × (later : List (List ℕ)) × (l.sent.messages ≡ l.delivered.messages ++ later)
messages_delivered_example = messages_delivered stale_ring 1 calls calls-IsCall

messages_drained_example :
    (run (connect stale_ring 1) short_calls).sent
    ≡ (run (connect stale_ring 1) short_calls).delivered
messages_drained_example =
    messages_drained stale_ring 1 short_calls short_calls-IsCall short_drained

-- The link in the middle of a message: one fragment is published and not read, one is open.
abbrev midway : Link
midway = run (connect stale_ring 1) (starts 300 ∷ writes (replicate 232 7) ∷ [])

midway-Joined : Joined midway.receiver midway.sender midway.ring
midway-Joined =
    (run-Inv (connect stale_ring 1) (starts 300 ∷ writes (replicate 232 7) ∷ []) (ground arith)
      (connect-Inv stale_ring 1)).joined

abbrev nothing_read : Log
nothing_read = record { partial = []; messages = [] }

try_read-Reads_example :
    Reads midway.sender 500 midway.receiver nothing_read midway.ring [] 0
      (try_read midway.receiver midway.ring 500)
try_read-Reads_example =
    try_read-Reads midway.sender 500 midway.receiver nothing_read midway.ring midway-Joined

try_abort_lem_example :
    Aborts midway.receiver nothing_read midway.sender midway.ring
      (try_abort midway.sender midway.ring)
try_abort_lem_example =
    try_abort_lem midway.receiver nothing_read midway.sender midway.ring midway-Joined

try_write_lem_example :
    Writes midway.receiver nothing_read midway.sender midway.ring
      (replicate 68 8)
      (try_write midway.sender midway.ring (replicate 68 8))
try_write_lem_example =
    try_write_lem midway.receiver nothing_read midway.sender midway.ring (replicate 68 8)
      midway-Joined

peek_meta-Peeks_example : Peeks midway.receiver midway.ring (peek_meta midway.receiver midway.ring)
peek_meta-Peeks_example = peek_meta-Peeks midway.receiver midway.sender midway.ring midway-Joined

try_read_terminates_example :
    read_loop 70 60 receiver_init (initialize stale_ring 2) [] 0
    ≡ try_read receiver_init (initialize stale_ring 2) 60
unfolding receiver_init initialize zero_slots
try_read_terminates_example =
    try_read_terminates 70 60 receiver_init (initialize stale_ring 2) (ground arith) (ground arith)
      (omega arith)

-- A frame of two bytes, the first of its message and not the last.
abbrev slot_of_two : Slot
slot_of_two = frame_bytes 513 300 (frame_flags true false false) (5 ∷ 6 ∷ 7 ∷ []) 2

encodes_two : encode_frame 513 300 true false false (5 ∷ 6 ∷ 7 ∷ []) 2 ≡ done slot_of_two
unfolding encode_frame validate_frame_shape
encodes_two = refl

decode-encode_example :
    let frame = framed 513 300 true false false (5 ∷ 6 ∷ 7 ∷ []) 2 in
    (length slot_of_two ≡ axivc_slot_size)
    × (decode_frame slot_of_two ≡ done frame)
    × (payload frame ≡ 5 ∷ 6 ∷ [])
decode-encode_example =
    decode-encode 513 300 true false false (5 ∷ 6 ∷ 7 ∷ []) 2 (omega arith) (omega arith)
      (omega arith) encodes_two

abbrev message_id : ℕ
message_id = 513

encode_frame_accepts_example :
    ((slot : Slot) × (encode_frame message_id 300 true false false (5 ∷ 6 ∷ []) 2 ≡ done slot))
    ↔ ((message_id ≢ 0) × (2 ≤ axivc_fragment_capacity) × HasShape 300 2 true false false)
encode_frame_accepts_example = encode_frame_accepts message_id 300 true false false (5 ∷ 6 ∷ []) 2

decode_frame_sound_example :
    let frame = framed 513 300 true false false (5 ∷ 6 ∷ 7 ∷ []) 2 in
    (frame.message_id ≢ 0)
    × (frame.fragment_len ≤ axivc_fragment_capacity)
    × HasShape frame.message_len frame.fragment_len frame.first frame.last frame.abort
decode_frame_sound_example =
    decode_frame_sound slot_of_two (framed 513 300 true false false (5 ∷ 6 ∷ 7 ∷ []) 2)
      decode-encode_example.1

-- A peer that publishes a slot of zeros: version 0.
abbrev hostile : Ring
hostile = record (initialize stale_ring 2) { tail = 1 }

hostile_read : (try_read receiver_init hostile 232).code ≡ failed eprotonosupport
unfolding try_read receiver_init read_loop try_peek_slot initialize zero_slots decode_frame
hostile_read = refl

try_read-IsPoisoned_example :
    Fails receiver_init hostile eprotonosupport (try_read receiver_init hostile 232)
try_read-IsPoisoned_example =
    try_read-IsPoisoned receiver_init hostile 232 eprotonosupport hostile_read
