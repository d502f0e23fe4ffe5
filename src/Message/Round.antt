-- ===== src/Message/Round.antt =====
-- One round of the receive loop of ivc/message.c, for any slot and any receiver.
use axvisor_tools.Common.{
  ◌<◌, ◌≡◌, ◌≢◌, arith, true, false, ◌&&◌, not, length, drop, length-take, length-drop, ap, done,
}
use axvisor_tools.Ring.Defs.{Slot, axivc_slot_size}
use axvisor_tools.Message.Frame.{Frame, decode_frame, payload, axivc_v1_header_len}
use axvisor_tools.Message.Shape.{decode_frame_sound}
use axvisor_tools.Message.Receiver.{Receiver, ReceiverState, Transition, validate_transition}

-- A live receiver's transition takes its two flags from the frame, and leaves it live.
pub transition_flags :
    (receiver : Receiver) (frame : Frame) (transition : Transition)
    → receiver.state ≢ ReceiverState.failed_state
    → validate_transition receiver frame ≡ done transition
    → (transition.aborted ≡ frame.abort)
      × (transition.complete ≡ (frame.last && not frame.abort))
      × (transition.next_state ≢ ReceiverState.failed_state)
unfolding validate_transition
transition_flags receiver frame transition live v = ground arith

-- The fragment starts behind the header.
decoded_fragment :
    (slot : Slot) (frame : Frame)
    → decode_frame slot ≡ done frame
    → frame.fragment ≡ drop axivc_v1_header_len slot
unfolding decode_frame
decoded_fragment slot frame d = ground arith

-- A decoded frame has as many payload bytes as it says.
pub length-payload :
    (slot : Slot) (frame : Frame)
    → length slot ≡ axivc_slot_size
    → decode_frame slot ≡ done frame
    → length (payload frame) ≡ frame.fragment_len
length-payload slot frame n d = omega (
  arith,
  length-take {0} frame.fragment_len frame.fragment,
  ap length (decoded_fragment slot frame d),
  length-drop {0} axivc_v1_header_len slot,
  decode_frame_sound slot frame d,
)

-- A slot that neither aborts nor completes carries at least one byte.
pub payload_pos :
    (slot : Slot) (frame : Frame)
    → decode_frame slot ≡ done frame
    → frame.abort ≡ false
    → frame.last ≡ false
    → 0 < frame.fragment_len
payload_pos slot frame d a l = ground (arith, decode_frame_sound slot frame d)

-- An ABORT slot carries none.
pub abort_empty :
    (slot : Slot) (frame : Frame)
    → decode_frame slot ≡ done frame
    → frame.abort ≡ true
    → frame.fragment_len ≡ 0
abort_empty slot frame d a = ground (arith, decode_frame_sound slot frame d)
