-- ===== src/Message/Terminates.antt =====
-- The receive loop of ivc/message.c ends on every ring, whatever the peer has stored in it.
use axvisor_tools.Common.{
  ℕ, zero, suc, ◌+◌, ◌-◌, ◌<◌, ◌≡◌, ◌≢◌, ◌∙◌, ap, inl, inr, arith, some, Option-cases, Result-cases,
  List, [], ◌∷◌, ◌++◌, length, length-append, get_or, All,
}
use axvisor_tools.Ring.Defs.{
  Ring, Slot, axivc_slot_size, axivc_ring_capacity, slot_index, try_peek_slot, pop_slot,
}
use axvisor_tools.Message.Frame.{decode_frame, payload}
use axvisor_tools.Message.Receiver.{
  Receiver, ReceiverState, validate_transition, apply, read_loop, try_read,
}
use axvisor_tools.Message.Round.{transition_flags, length-payload, payload_pos}

-- The array has its declared size: 32 slots of 256 bytes each. Counters and bytes are free.
abbrev pub HasSlots : Ring → Type 0
HasSlots ring =
    (length ring.slots ≡ axivc_ring_capacity)
    × All (λ slot. length slot ≡ axivc_slot_size) ring.slots

length-get_or :
    (slots : List Slot) (i : ℕ)
    → All (λ slot. length slot ≡ axivc_slot_size) slots
    → i < length slots
    → length (get_or slots i []) ≡ axivc_slot_size
length-get_or [] i a h = absurd (omega arith)
length-get_or (s ∷ slots) zero a h = a.0
length-get_or (s ∷ slots) (suc i) a h = length-get_or slots i a.1 (omega arith)

length-peek :
    (ring : Ring) (slot : Slot)
    → HasSlots ring
    → try_peek_slot ring ≡ some slot
    → length slot ≡ axivc_slot_size
unfolding try_peek_slot
length-peek ring slot h e = ground (arith, length-get_or ring.slots (slot_index ring.head) h.1)

pop-HasSlots : (ring : Ring) → HasSlots ring → HasSlots (pop_slot ring)
unfolding pop_slot
pop-HasSlots ring h = h

-- One more round of fuel changes nothing once the fuel exceeds the room left in `output`.
read_loop-suc :
    (fuel output_len : ℕ) (receiver : Receiver) (ring : Ring) (output : List ℕ) (consumed_slots : ℕ)
    → HasSlots ring
    → receiver.state ≢ ReceiverState.failed_state
    → output_len - length output < fuel
    → read_loop (suc fuel) output_len receiver ring output consumed_slots
      ≡ read_loop fuel output_len receiver ring output consumed_slots
unfolding read_loop
read_loop-suc zero output_len receiver ring output consumed_slots slots live enough =
    absurd (omega arith)
read_loop-suc (suc fuel) output_len receiver ring output consumed_slots slots live enough =
    elim (Option-cases (try_peek_slot ring)) [
      | inl empty ↦ rw (empty, read_loop)
      | inr (slot, seen) ↦ elim (Result-cases (decode_frame slot)) [
        | inl (e, bad) ↦ rw (seen, read_loop, bad)
        | inr (frame, d) ↦ elim (Result-cases (validate_transition receiver frame)) [
          | inl (e, bad) ↦ rw (seen, read_loop, d, bad)
          | inr (transition, v) ↦
              let n = length-payload slot frame (length-peek ring slot slots seen) d in
              let flags = transition_flags receiver frame transition live v in
              rw (seen, read_loop, d, v)
                (ground (
                  arith,
                  n,
                  flags,
                  payload_pos slot frame d,
                  length-append {0} output (payload frame),
                  read_loop-suc fuel output_len (apply receiver transition) (pop_slot ring)
                      (output ++ payload frame) (consumed_slots + 1) (pop-HasSlots ring slots)
                      flags.2,
                ))
        ]
      ]
    ]

read_loop-add :
    (extra fuel output_len : ℕ) (receiver : Receiver) (ring : Ring)
    → HasSlots ring
    → receiver.state ≢ ReceiverState.failed_state
    → output_len < fuel
    → read_loop (extra + fuel) output_len receiver ring [] 0
      ≡ read_loop fuel output_len receiver ring [] 0
read_loop-add zero fuel output_len receiver ring slots live enough =
    ap (λ n. read_loop n output_len receiver ring [] 0) (omega arith)
read_loop-add (suc extra) fuel output_len receiver ring slots live enough =
    ap (λ n. read_loop n output_len receiver ring [] 0) suc_out
    ∙ read_loop-suc (extra + fuel) output_len receiver ring [] 0 slots live (omega arith)
    ∙ read_loop-add extra fuel output_len receiver ring slots live enough
  where
    suc_out : suc extra + fuel ≡ suc (extra + fuel)
    suc_out = omega arith

-- The loop of a read into `output_len` bytes returns within `output_len + 1` rounds on every ring of
-- the declared size, whatever counters and bytes the peer has put there: with any larger number of
-- rounds the result is the one of `axivc_message_try_read`.
pub try_read_terminates :
    (fuel output_len : ℕ) (receiver : Receiver) (ring : Ring)
    → HasSlots ring
    → receiver.state ≢ ReceiverState.failed_state
    → output_len < fuel
    → read_loop fuel output_len receiver ring [] 0 ≡ try_read receiver ring output_len
unfolding try_read
try_read_terminates fuel output_len receiver ring slots live enough =
    let split : fuel ≡ fuel - (output_len + 1) + (output_len + 1) = omega arith in
    ap (λ n. read_loop n output_len receiver ring [] 0) split
    ∙ read_loop-add (fuel - (output_len + 1)) (output_len + 1) output_len receiver ring slots live
        (omega arith)
    ∙ ground arith
