-- ===== src/Devices/InMessage.antt =====
-- ivc/ivc.c: the reads of one message of a device.
use axvisor_tools.Common.{
  ℕ, zero, suc, ◌+◌, ◌-◌, ◌≤◌, ◌≡◌, ◌⊎◌, inl, inr, refl, arith, true, false, some, Option-cases,
  Result-cases, Bool-cases, List, [], ◌++◌, ltb, length, length-take, length-append, done, failed,
  success, Errno,
}
use axvisor_tools.Ring.Defs.{Ring, Slot, try_peek_slot, pop_slot}
use axvisor_tools.Message.Frame.{Frame, decode_frame, payload, axivc_fragment_capacity}
use axvisor_tools.Message.Shape.{decode_frame_sound}
use axvisor_tools.Message.Receiver.{
  Receiver, ReceiverState, Received, Transition, validate_transition, advance_transition, apply,
  stop_reading, read_loop, try_read,
}

-- The receiver is in a message of `len` bytes, of which it has at least `k`.
abbrev pub InMessage : Receiver → ℕ → ℕ → Type 0
InMessage rx k len =
    (rx.state ≡ ReceiverState.receiving)
    × (rx.active.len ≡ len)
    × (k ≤ rx.received)
    × (rx.received ≤ len)

-- A slot that is taken in a message either aborts it, or ends it, or leaves the receiver in it.
taken :
    (rx : Receiver) (k len : ℕ) (frame : Frame) (transition : Transition)
    → InMessage rx k len
    → frame.fragment_len ≤ axivc_fragment_capacity
    → validate_transition rx frame ≡ done transition
    → (transition.aborted ≡ true)
      ⊎ ((transition.aborted ≡ false)
          × (k + frame.fragment_len ≤ len)
          × ((transition.complete ≡ true)
              ⊎ ((transition.complete ≡ false)
                  × InMessage (apply rx transition) (k + frame.fragment_len) len)))
unfolding validate_transition advance_transition
taken rx k len frame transition within small v = ground arith

-- The first slot of a message.
taken_first :
    (rx : Receiver) (frame : Frame) (transition : Transition)
    → rx.state ≡ ReceiverState.idle
    → frame.fragment_len ≤ axivc_fragment_capacity
    → validate_transition rx frame ≡ done transition
    → (transition.aborted ≡ false)
      × (frame.fragment_len ≤ frame.message_len)
      × ((transition.complete ≡ true)
          ⊎ ((transition.complete ≡ false)
              × InMessage (apply rx transition) frame.fragment_len frame.message_len))
unfolding validate_transition advance_transition
taken_first rx frame transition idle small v = ground arith

-- A read behind `base` bytes of the message fails, or stays within the message.
abbrev pub Fits : ℕ → ℕ → Received → Type 0
Fits base len r =
    ((e : Errno) × (r.code ≡ failed e))
    ⊎ ((r.code ≡ success)
        × (base + length r.output ≤ len)
        × ((r.progress.complete ≡ true)
            ⊎ ((r.progress.complete ≡ false) × InMessage r.receiver (base + length r.output) len)))

length-payload :
    (output : List ℕ) (frame : Frame)
    → length (output ++ payload frame) ≤ length output + frame.fragment_len
length-payload output frame = omega (
  arith,
  length-append {0} output (payload frame),
  length-take {0} frame.fragment_len frame.fragment,
)

read_loop-Fits :
    (fuel base len : ℕ) (rx : Receiver) (ring : Ring) (output : List ℕ) (consumed_slots : ℕ)
    → InMessage rx (base + length output) len
    → Fits base len (read_loop fuel axivc_fragment_capacity rx ring output consumed_slots)
unfolding read_loop
read_loop-Fits zero base len rx ring output consumed_slots within =
    inr (refl, omega arith, inr (refl, within))
read_loop-Fits (suc fuel) base len rx ring output consumed_slots within =
    let stopped : Fits base len (stop_reading rx ring output consumed_slots false) =
      inr (refl, omega arith, inr (refl, within)) in
    elim (Option-cases (try_peek_slot ring)) [
      | inl empty ↦ rw (empty, read_loop) stopped
      | inr (slot, seen) ↦ elim (Result-cases (decode_frame slot)) [
        | inl (e, bad) ↦ rw (seen, read_loop, bad) (ground (arith, stopped))
        | inr (frame, d) ↦ elim (Result-cases (validate_transition rx frame)) [
          | inl (e, bad) ↦ rw (seen, read_loop, d, bad) (ground (arith, stopped))
          | inr (transition, v) ↦
              let short = length-payload output frame in
              elim (taken rx (base + length output) len frame transition within
                (decode_frame_sound slot frame d).1 v) [
                  | inl a ↦ rw (seen, read_loop, d, v, a) (ground (arith, stopped))
                  | inr (a, fits, inl c) ↦
                      rw (seen, read_loop, d, v, a, c) (ground (arith, short, fits, stopped))
                  | inr (a, fits, inr (c, within')) ↦
                      let more =
                        read_loop-Fits fuel base len (apply rx transition) (pop_slot ring)
                          (output ++ payload frame) (consumed_slots + 1)
                          (ground (arith, short, within')) in
                      elim (Bool-cases
                        (ltb (axivc_fragment_capacity - length output) frame.fragment_len)) [
                          | inl big ↦
                              rw (seen, read_loop, d, v, a, c, big) (ground (arith, stopped))
                          | inr room ↦ rw (seen, read_loop, d, v, a, c, room) more
                        ]
                ]
        ]
      ]
    ]

-- A read in the middle of a message.
pub read_on-Fits :
    (base len : ℕ) (rx : Receiver) (ring : Ring)
    → InMessage rx base len
    → Fits base len (try_read rx ring axivc_fragment_capacity)
unfolding try_read
read_on-Fits base len rx ring within =
    let runs : try_read rx ring axivc_fragment_capacity
        ≡ read_loop (axivc_fragment_capacity + 1) axivc_fragment_capacity rx ring [] 0 =
      ground (arith, within) in
    rw runs
      (read_loop-Fits (axivc_fragment_capacity + 1) base len rx ring [] 0 (ground (arith, within)))

first_loop-Fits :
    (fuel : ℕ) (rx : Receiver) (ring : Ring) (slot : Slot) (frame : Frame)
    → rx.state ≡ ReceiverState.idle
    → try_peek_slot ring ≡ some slot
    → decode_frame slot ≡ done frame
    → Fits 0 frame.message_len (read_loop (suc fuel) axivc_fragment_capacity rx ring [] 0)
unfolding read_loop
first_loop-Fits fuel rx ring slot frame idle seen d =
    let small = (decode_frame_sound slot frame d).1 in
    let short = length-payload [] frame in
    let room : ltb (axivc_fragment_capacity - 0) frame.fragment_len ≡ false =
      ground (arith, small) in
    elim (Result-cases (validate_transition rx frame)) [
      | inl (e, bad) ↦ rw (seen, read_loop, d, bad) (inl (e, refl))
      | inr (transition, v) ↦
          let (a, fits, rest) = taken_first rx frame transition idle small v in
          elim rest [
            | inl c ↦
                rw (seen, read_loop, d, v, a, c, room)
                  (inr (refl, omega (arith, short, fits), inl refl))
            | inr (c, within) ↦
                rw (seen, read_loop, d, v, a, c, room)
                  (read_loop-Fits fuel 0 frame.message_len (apply rx transition) (pop_slot ring)
                    (payload frame) 1
                    (within.0, within.1, omega (arith, short, within.2), within.3))
          ]
    ]

-- The first read of a message.
pub first_read-Fits :
    (rx : Receiver) (ring : Ring) (slot : Slot) (frame : Frame)
    → rx.state ≡ ReceiverState.idle
    → try_peek_slot ring ≡ some slot
    → decode_frame slot ≡ done frame
    → Fits 0 frame.message_len (try_read rx ring axivc_fragment_capacity)
unfolding try_read
first_read-Fits rx ring slot frame idle seen d =
    let runs : try_read rx ring axivc_fragment_capacity
        ≡ read_loop (axivc_fragment_capacity + 1) axivc_fragment_capacity rx ring [] 0 =
      ground (arith, idle) in
    rw runs (first_loop-Fits axivc_fragment_capacity rx ring slot frame idle seen d)
