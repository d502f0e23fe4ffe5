-- ===== src/Message/Poison.antt =====
-- Protocol errors of ivc/message.c: a receiver that has met one stays failed, whatever the peer stores
-- afterwards.
use axvisor_tools.Common.{
  ℕ, zero, suc, true, ltb, ◌-◌, Bool-cases, ◌+◌, ◌<◌, ◌≡◌, ◌≢◌, ◌⊎◌, inl, inr, refl, ◌∙◌, ap, arith,
  ◌++◌, none, some, Option-cases, Result-cases, List, [], Errno, done, failed, success, emsgsize,
  econnreset,
}
use axvisor_tools.Ring.Defs.{Ring, Slot, try_peek_slot, pop_slot}
use axvisor_tools.Message.Peek.{state_cases}
use axvisor_tools.Message.Frame.{Frame, decode_frame, payload}
use axvisor_tools.Message.Receiver.{
  Receiver, ReceiverState, Received, Transition, fail_reading, receiver_fail, peek_meta,
  validate_transition, advance_transition, apply, read_loop, try_read,
}

-- Every later call answers with this error, changes nothing and delivers nothing.
abbrev pub IsPoisoned : Receiver → Errno → Type 0
IsPoisoned receiver e =
    (ring : Ring) (output_len : ℕ)
    → (try_read receiver ring output_len ≡ fail_reading (failed e) receiver ring [])
      × (peek_meta receiver ring ≡ record { code = failed e; receiver = receiver; metadata = none })

poisoned :
    (receiver : Receiver) (e : Errno)
    → receiver.state ≡ ReceiverState.failed_state
    → receiver.failed_errno ≡ failed e
    → IsPoisoned receiver e
unfolding try_read peek_meta
poisoned receiver e dead why ring output_len = (rw (dead, why) refl, rw (dead, why) refl)

-- Once a slot is consumed the call succeeds.
begun_succeeds :
    (fuel output_len : ℕ) (receiver : Receiver) (ring : Ring) (output : List ℕ) (consumed_slots : ℕ)
    → 0 < consumed_slots
    → (read_loop fuel output_len receiver ring output consumed_slots).code ≡ success
unfolding read_loop
begun_succeeds zero output_len receiver ring output consumed_slots begun = refl
begun_succeeds (suc fuel) output_len receiver ring output consumed_slots begun =
    elim (Option-cases (try_peek_slot ring)) [
      | inl empty ↦ rw (empty, read_loop) refl
      | inr (slot, seen) ↦ elim (Result-cases (decode_frame slot)) [
        | inl (e, bad) ↦ rw (seen, read_loop, bad) (ground arith)
        | inr (frame, d) ↦ elim (Result-cases (validate_transition receiver frame)) [
          | inl (e, bad) ↦ rw (seen, read_loop, d, bad) (ground arith)
          | inr (transition, v) ↦
              rw (seen, read_loop, d, v)
                (ground (
                  arith,
                  begun_succeeds fuel output_len (apply receiver transition) (pop_slot ring)
                      (output ++ payload frame) (consumed_slots + 1),
                ))
        ]
      ]
    ]

-- The oldest slot held an ABORT frame; it is consumed, and the receiver waits for the next message.
abbrev pub IsAborted : Ring → Received → Type 0
IsAborted ring r =
    (slot : Slot) × (frame : Frame) × (try_peek_slot ring ≡ some slot)
    × (decode_frame slot ≡ done frame)
    × (frame.abort ≡ true)
    × (r.ring ≡ pop_slot ring)
    × (r.receiver.state ≡ ReceiverState.idle)

-- What a failed read leaves: nothing changed, an abort consumed, or a poisoned receiver.
abbrev pub Fails : Receiver → Ring → Errno → Received → Type 0
Fails receiver ring e r =
    ((e ≡ emsgsize) × (r.receiver ≡ receiver) × (r.ring ≡ ring))
    ⊎ (((e ≡ econnreset) × IsAborted ring r) ⊎ ((r.ring ≡ ring) × IsPoisoned r.receiver e))

-- The error of the first slot poisons the receiver.
bad_slot :
    (receiver : Receiver) (ring : Ring) (e' e : Errno) (r : Received)
    → r ≡ fail_reading (failed e') (receiver_fail receiver e') ring []
    → r.code ≡ failed e
    → Fails receiver ring e r
bad_slot receiver ring e' e r runs h =
    rw runs (inr (inr (refl, poisoned (receiver_fail receiver e') e refl (rw runs at h))))

-- Only an ABORT frame aborts.
abort_flags :
    (receiver : Receiver) (frame : Frame) (transition : Transition)
    → validate_transition receiver frame ≡ done transition
    → transition.aborted ≡ true
    → (frame.abort ≡ true) × (transition.next_state ≡ ReceiverState.idle)
unfolding validate_transition advance_transition
abort_flags receiver frame transition v abort = elim (state_cases receiver) [
  | inl busy ↦ ground (arith, busy, v, abort)
  | inr (inl idle) ↦ ground (arith, idle, v, abort)
  | inr (inr dead) ↦ ground (arith, dead, v, abort)
]

first_slot :
    (fuel output_len : ℕ) (receiver : Receiver) (ring : Ring) (e : Errno) (slot : Slot)
    (frame : Frame) (transition : Transition)
    → try_peek_slot ring ≡ some slot
    → decode_frame slot ≡ done frame
    → validate_transition receiver frame ≡ done transition
    → (read_loop (suc fuel) output_len receiver ring [] 0).code ≡ failed e
    → Fails receiver ring e (read_loop (suc fuel) output_len receiver ring [] 0)
first_slot fuel output_len receiver ring e slot frame transition seen d v h =
    let more =
      begun_succeeds fuel output_len (apply receiver transition) (pop_slot ring)
        ([] ++ payload frame) 1 (omega arith) in
    elim (Bool-cases transition.aborted) [
      | inl abort ↦ elim (Bool-cases (ltb (output_len - 0) frame.fragment_len)) [
        | inl big ↦ unfold read_loop in ground (arith, seen, d, v, more, big)
        | inr room ↦
            let runs : read_loop (suc fuel) output_len receiver ring [] 0
                ≡ fail_reading (failed econnreset) (apply receiver transition) (pop_slot ring)
                    ([] ++ payload frame) =
              unfold read_loop in ground (arith, seen, d, v, abort, room) in
            let (asked, ends) = abort_flags receiver frame transition v abort in
            rw runs (inr (inl (cc (rw runs at h), (slot, frame, seen, d, asked, refl, ends))))
      ]
      | inr other ↦ unfold read_loop in ground (arith, seen, d, v, more, other)
    ]

first_round :
    (fuel output_len : ℕ) (receiver : Receiver) (ring : Ring) (e : Errno)
    → (read_loop (suc fuel) output_len receiver ring [] 0).code ≡ failed e
    → Fails receiver ring e (read_loop (suc fuel) output_len receiver ring [] 0)
first_round fuel output_len receiver ring e h = elim (Option-cases (try_peek_slot ring)) [
  | inl empty ↦ absurd (unfold read_loop in ground (arith, empty))
  | inr (slot, seen) ↦ elim (Result-cases (decode_frame slot)) [
    | inl (e', bad) ↦
        bad_slot receiver ring e' e (read_loop (suc fuel) output_len receiver ring [] 0)
          (unfold read_loop in ground (arith, seen, bad)) h
    | inr (frame, d) ↦ elim (Result-cases (validate_transition receiver frame)) [
      | inl (e', bad) ↦
          bad_slot receiver ring e' e (read_loop (suc fuel) output_len receiver ring [] 0)
            (unfold read_loop in ground (arith, seen, d, bad)) h
      | inr (transition, v) ↦
          first_slot fuel output_len receiver ring e slot frame transition seen d v h
    ]
  ]
]

started :
    (receiver : Receiver) (ring : Ring) (output_len : ℕ)
    → receiver.state ≢ ReceiverState.failed_state
    → try_read receiver ring output_len ≡ read_loop (suc output_len) output_len receiver ring [] 0
unfolding try_read
started receiver ring output_len live =
    let one_more : output_len + 1 ≡ suc output_len = omega arith in
    plain ∙ ap (λ n. read_loop n output_len receiver ring [] 0) one_more
  where
    plain :
        try_read receiver ring output_len ≡ read_loop (output_len + 1) output_len receiver ring [] 0
    plain = ground arith

-- `axivc_message_try_read`, on every ring and in every state of the receiver, fails in three ways only. With
-- EMSGSIZE nothing is changed. With ECONNRESET the oldest slot held an ABORT frame, which is consumed, and the receiver
-- waits for the next message. Or nothing is consumed, and every later read and peek, on whatever ring,
-- answers with the same error and changes nothing.
pub try_read-IsPoisoned :
    (receiver : Receiver) (ring : Ring) (output_len : ℕ) (e : Errno)
    → (try_read receiver ring output_len).code ≡ failed e
    → Fails receiver ring e (try_read receiver ring output_len)
try_read-IsPoisoned receiver ring output_len e h = elim (state_cases receiver) [
  | inr (inr dead) ↦
      let runs : try_read receiver ring output_len
          ≡ fail_reading receiver.failed_errno receiver ring [] =
        unfold try_read in rw dead refl in
      rw runs (inr (inr (refl, poisoned receiver e dead (rw runs at h))))
  | inl busy ↦
      let runs : try_read receiver ring output_len
          ≡ read_loop (suc output_len) output_len receiver ring [] 0 =
        started receiver ring output_len (ground (arith, busy)) in
      rw runs (first_round output_len output_len receiver ring e (rw runs at h))
  | inr (inl idle) ↦
      let runs : try_read receiver ring output_len
          ≡ read_loop (suc output_len) output_len receiver ring [] 0 =
        started receiver ring output_len (ground (arith, idle)) in
      rw runs (first_round output_len output_len receiver ring e (rw runs at h))
]
