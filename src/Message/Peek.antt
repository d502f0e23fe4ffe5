-- ===== src/Message/Peek.antt =====
-- `axivc_message_peek_meta` of ivc/message.c on joined ends.
use axvisor_tools.Common.{
  ◌≡◌, ◌⊎◌, inl, inr, refl, subst, arith, none, some, [], ◌∷◌, done, success,
}
use axvisor_tools.Ring.Defs.{Ring, Slot, try_peek_slot, pop_slot}
use axvisor_tools.Ring.Refine.{contents, peek_cases}
use axvisor_tools.Message.Frame.{Frame, decode_frame}
use axvisor_tools.Message.Sender.{Sender}
use axvisor_tools.Message.Receiver.{
  Receiver, ReceiverState, Transition, Peeked, validate_transition, peek_meta,
}
use axvisor_tools.Message.Joined.{Accepts, Joined}

-- An idle receiver that accepts a frame sees a first frame, and the metadata is the frame's.
idle_peek :
    (receiver : Receiver) (ring : Ring) (slot : Slot) (frame : Frame) (transition : Transition)
    → receiver.state ≡ ReceiverState.idle
    → try_peek_slot ring ≡ some slot
    → decode_frame slot ≡ done frame
    → validate_transition receiver frame ≡ done transition
    → peek_meta receiver ring ≡ record {
      code = success;
      receiver = receiver;
      metadata = some (record { id = frame.message_id; len = frame.message_len });
    }
unfolding peek_meta validate_transition
idle_peek receiver ring slot frame transition idle seen d v = ground arith

empty_peek :
    (receiver : Receiver) (ring : Ring)
    → receiver.state ≡ ReceiverState.idle
    → try_peek_slot ring ≡ none
    → peek_meta receiver ring ≡ record { code = success; receiver = receiver; metadata = none }
unfolding peek_meta
empty_peek receiver ring idle empty = ground arith

busy_peek :
    (receiver : Receiver) (ring : Ring)
    → receiver.state ≡ ReceiverState.receiving
    → peek_meta receiver ring
      ≡ record { code = success; receiver = receiver; metadata = some receiver.active }
unfolding peek_meta
busy_peek receiver ring busy = ground arith

-- What a peek of the metadata leaves and reports.
abbrev pub Peeks : Receiver → Ring → Peeked → Type 0
Peeks receiver ring p =
    (p.code ≡ success)
    × (p.receiver ≡ receiver)
    × (((receiver.state ≡ ReceiverState.receiving) × (p.metadata ≡ some receiver.active))
        ⊎ (((receiver.state ≡ ReceiverState.idle) × (contents ring ≡ []) × (p.metadata ≡ none))
            ⊎ ((receiver.state ≡ ReceiverState.idle)
                × (slot : Slot) × (frame : Frame) × (contents ring
                    ≡ slot ∷ contents (pop_slot ring))
                × (decode_frame slot ≡ done frame)
                × (p.metadata ≡ some (record { id = frame.message_id; len = frame.message_len })))))

pub state_cases :
    (receiver : Receiver)
    → (receiver.state ≡ ReceiverState.receiving)
      ⊎ ((receiver.state ≡ ReceiverState.idle) ⊎ (receiver.state ≡ ReceiverState.failed_state))
state_cases receiver = go receiver.state
  where
    go :
        (s : ReceiverState)
        → (s ≡ ReceiverState.receiving)
          ⊎ ((s ≡ ReceiverState.idle) ⊎ (s ≡ ReceiverState.failed_state))
    go ReceiverState.receiving = inl refl
    go ReceiverState.idle = inr (inl refl)
    go ReceiverState.failed_state = inr (inr refl)

-- `axivc_message_peek_meta` on joined ends succeeds and changes nothing. It reports the message under
-- way; between messages, the id and length that the next slot announces; and nothing exactly when there
-- is neither.
pub peek_meta-Peeks :
    (receiver : Receiver) (sender : Sender) (ring : Ring)
    → Joined receiver sender ring
    → Peeks receiver ring (peek_meta receiver ring)
peek_meta-Peeks receiver sender ring joined = elim (state_cases receiver) [
  | inl busy ↦ rw (busy_peek receiver ring busy) (refl, refl, inl (busy, refl))
  | inr (inr dead) ↦ absurd (joined.live dead)
  | inr (inl idle) ↦ elim (peek_cases ring joined.valid) [
    | inl (empty, none_left) ↦
        rw (empty_peek receiver ring idle empty) (refl, refl, inr (inl (idle, none_left, refl)))
    | inr (slot, seen, valid, e) ↦
        let (n, frame, d, transition, v, rest) =
          subst (λ slots. Accepts receiver slots joined.after) e joined.accepts in
        rw (idle_peek receiver ring slot frame transition idle seen d v)
          (refl, refl, inr (inr (idle, slot, frame, e, d, refl)))
  ]
]
