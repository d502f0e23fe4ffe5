-- ===== src/Devices/TransferTests.antt =====
-- Reads and writes of a device over small rings, and the theorems at concrete inputs.
use axvisor_tools.Common.{
  ℕ, false, set, ◌≢◌, ◌≡◌, ◌⊎◌, inl, ap, arith, Errno, replicate, refl, true, some, List, [], ◌∷◌,
  length, done, success,
}
use axvisor_tools.Ring.Defs.{Ring, Slot, initialize, zero_slots, try_peek_slot, pop_slot}
use axvisor_tools.Message.Frame.{
  frame_bytes, frame_flags, zero_slot, write_le16, write_le32, write_le64, read_le16, read_le32,
  read_le64, decode_frame, validate_frame_shape,
}
use axvisor_tools.Message.Receiver.{
  ReceiverState, receiver_init, peek_meta, peek_first, try_read, read_loop, validate_transition,
  advance_transition,
}
use axvisor_tools.Devices.Receive.{Round, recv_message, recv_rounds}
use axvisor_tools.Devices.Fits.{IsWithin, recv_message-IsWithin}
use axvisor_tools.Devices.Boundary.{IsBoundary, recv_message-IsBoundary}
use axvisor_tools.Ring.Refine.{contents-initialize}
use axvisor_tools.Message.Sender.{sender_init}
use axvisor_tools.Message.Joined.{absorb_all}
use axvisor_tools.Message.Link.{connect}
use axvisor_tools.Message.Delivery.{connect-Inv}
use axvisor_tools.Devices.Send.{Pause, SendRound, refuses, send_message}
use axvisor_tools.Devices.Settled.{IsSettled, Settles, send_message-IsSettled}
use axvisor_tools.Devices.Peer.{Reader, reads_on, reads_on-IsHonest}
use axvisor_tools.Devices.Under.{Between, Sends}
use axvisor_tools.Devices.Whole.{send_message-Sends}
use axvisor_tools.Devices.Live.{IsReady, Finishes, reads_on-MakesRoom, send_message_live}
use axvisor_tools.Devices.Publishers.{endpoint_init}

abbrev old_ring : Ring
old_ring = record { direction = 0; capacity = 0; slot_size = 0; head = 0; tail = 0; slots = [] }

-- A ring whose only slot is a whole message of two bytes, and a peer that puts one of five bytes in its
-- place.
abbrev slot_of : List ℕ → Slot
slot_of bytes = frame_bytes 1 (length bytes) (frame_flags true true false) bytes (length bytes)

abbrev two_bytes : Ring
two_bytes = record (initialize old_ring 1) {
  tail = 1;
  slots = set zero_slots 0 (slot_of (5 ∷ 6 ∷ []));
}

abbrev honest : Round (Unit {0})
honest = record { peer = λ s ring. (s, ring); copies = true; late = false; interrupted = false }

abbrev swapping : Round (Unit {0})
swapping = record {
  peer = λ s ring. (s, record ring { slots = set ring.slots 0 (slot_of (1 ∷ 2 ∷ 3 ∷ 4 ∷ 5 ∷ [])) });
  copies = true;
  late = false;
  interrupted = false;
}

whole_message : recv_message true success (honest ∷ []) receiver_init tt two_bytes 2 0 ≡ record {
  result = some (done 2);
  rx = record {
    state = ReceiverState.idle;
    active = record { id = 1; len = 2 };
    received = 2;
    failed_errno = success;
  };
  state = tt;
  ring = record two_bytes { head = 1 };
  user = 5 ∷ 6 ∷ [];
  notified = 1;
}
unfolding recv_message recv_rounds peek_meta peek_first try_read read_loop try_peek_slot pop_slot
    initialize zero_slots decode_frame validate_frame_shape validate_transition advance_transition
    receiver_init frame_bytes frame_flags zero_slot write_le16 write_le32 write_le64 read_le16
    read_le32 read_le64
whole_message = refl

-- The length is read once for the check and again with the message: a peer that changes it in between
-- makes the call store five bytes in a buffer of two.
overrun :
    (recv_message true success (swapping ∷ []) receiver_init tt two_bytes 2 0).user
    ≡ 1 ∷ 2 ∷ 3 ∷ 4 ∷ 5 ∷ []
unfolding recv_message recv_rounds peek_meta peek_first try_read read_loop try_peek_slot pop_slot
    initialize zero_slots decode_frame validate_frame_shape validate_transition advance_transition
    receiver_init frame_bytes frame_flags zero_slot write_le16 write_le32 write_le64 read_le16
    read_le32 read_le64
overrun = refl

between_messages : receiver_init.state ≢ ReceiverState.receiving
unfolding receiver_init
between_messages e = cc

recv_message-IsBoundary_example :
    IsBoundary (recv_message true success (swapping ∷ honest ∷ []) receiver_init tt two_bytes 2 0)
recv_message-IsBoundary_example =
    recv_message-IsBoundary true success (swapping ∷ honest ∷ []) receiver_init tt two_bytes 2 0
      between_messages

recv_message-IsWithin_example :
    IsWithin (recv_message true success (honest ∷ []) receiver_init tt two_bytes 2 0) 2
recv_message-IsWithin_example =
    recv_message-IsWithin true success (honest ∷ []) receiver_init tt two_bytes 2 0 between_messages
      ((λ s ring slot e. e), tt)

-- A ring that no one reads, and a peer that keeps it full.
abbrev stuck : SendRound (Unit {0})
stuck = record {
  peer = λ s ring. (s, record ring { head = 0; tail = 32 });
  copies = true;
  late = true;
  interrupted = false;
}

abbrev last_try : Pause (Unit {0})
last_try = record { peer = λ s ring. (s, record ring { head = 0; tail = 32 }); late = true }

endpoint_init-IsSettled : IsSettled endpoint_init
unfolding sender_init
endpoint_init-IsSettled = inl (refl, refl)

send_message-IsSettled_example :
    let o =
      send_message true success
        (last_try ∷ [])
        (stuck ∷ [])
        (7 ∷ [])
        endpoint_init
        tt
        two_bytes
        0 in
    Settles o
    × ((endpoint_init.tx_error ≡ success)
        ⊎ ((e : Errno) × (o ≡ refuses e endpoint_init tt two_bytes 0)))
send_message-IsSettled_example =
    send_message-IsSettled true success (last_try ∷ []) (stuck ∷ []) (7 ∷ []) endpoint_init tt
      two_bytes 0 endpoint_init-IsSettled (λ e. cc e)

-- Two fresh ends, and a reader that reads at its leisure.
abbrev fresh : Ring
fresh = initialize old_ring 0

abbrev reader : Reader
reader = record { receiver = receiver_init; delivered = record { partial = []; messages = [] } }

abbrev leisurely : SendRound Reader
leisurely = record { peer = reads_on 512; copies = true; late = true; interrupted = true }

fresh-Between : Between [] sender_init reader fresh
unfolding connect sender_init
fresh-Between = (
  refl,
  (connect-Inv old_ring 0).joined,
  ap (absorb_all (reader.delivered)) (contents-initialize old_ring 0),
)

abbrev long_message : List ℕ
long_message = replicate 300 9

send_message-Sends_example :
    Sends [] long_message
      (send_message true success [] (leisurely ∷ []) long_message endpoint_init reader fresh 0)
send_message-Sends_example =
    send_message-Sends [] long_message true success [] (leisurely ∷ []) endpoint_init reader fresh 0
      (omega arith) tt (reads_on-IsHonest 512, tt) refl fresh-Between

leisurely-IsReady : IsReady leisurely
leisurely-IsReady = (reads_on-MakesRoom 512 (omega arith), refl)

fresh_id : sender_init.next_message_id ≢ 0
unfolding sender_init
fresh_id e = omega arith

send_message_live_example : Finishes [] long_message true 0 (
    send_message true success []
      (leisurely ∷ leisurely ∷ [])
      long_message
      endpoint_init
      reader
      fresh
      0)
send_message_live_example =
    send_message_live [] long_message true [] (leisurely ∷ leisurely ∷ []) endpoint_init reader
      fresh 0 (omega arith) (omega arith) (leisurely-IsReady, (leisurely-IsReady, tt)) (omega arith)
      refl fresh_id fresh-Between
