-- ===== src/Devices/Boundary.antt =====
-- ivc/ivc.c: a read of a device that returns leaves the receiver at a message boundary.
use axvisor_tools.Common.{
  ℕ, zero, suc, ◌+◌, ◌-◌, ◌≤◌, ◌<◌, ◌≡◌, ◌≢◌, ◌⊎◌, inl, inr, refl, arith, true, false, none, some,
  Option-cases, Result-cases, Bool-cases, Bool, if◌then◌else◌, ltb, List, [], ◌∷◌, ◌++◌, length,
  done, failed, success, econnreset, dec_lt, ℕ_discrete, Errno, Code,
}
use axvisor_tools.Ring.Defs.{Ring, Slot, try_peek_slot, pop_slot}
use axvisor_tools.Message.Frame.{Frame, decode_frame, payload, axivc_fragment_capacity}
use axvisor_tools.Message.Shape.{decode_frame_sound}
use axvisor_tools.Message.Peek.{state_cases}
use axvisor_tools.Message.Round.{transition_flags}
use axvisor_tools.Message.Sender.{Meta}
use axvisor_tools.Message.Receiver.{
  Receiver, ReceiverState, Received, Transition, validate_transition, advance_transition, apply,
  stop_reading, fail_reading, read_loop, try_read, peek_meta, peek_first, receiver_poison,
}
use axvisor_tools.Devices.Send.{notify_publisher}
use axvisor_tools.Devices.Receive.{Round, Outcome, recv_rounds, recv_message}

-- An abort and a completed message end in the idle state.
ending :
    (rx : Receiver) (frame : Frame) (transition : Transition)
    → rx.state ≢ ReceiverState.failed_state
    → validate_transition rx frame ≡ done transition
    → ((transition.aborted ≡ false) ⊎ (transition.next_state ≡ ReceiverState.idle))
      × ((transition.complete ≡ false) ⊎ (transition.next_state ≡ ReceiverState.idle))
unfolding validate_transition advance_transition
ending rx frame transition live v = ground arith

-- A read that fails is not in the middle of a message, and one that completes a message is idle.
abbrev Ends : Received → Type 0
Ends r =
    ((e : Errno) × (r.code ≡ failed e) × (r.receiver.state ≢ ReceiverState.receiving))
    ⊎ ((r.code ≡ success)
        × ((r.progress.complete ≡ false) ⊎ (r.receiver.state ≡ ReceiverState.idle)))

-- A slot that the receiver accepts, given how the rest of the loop ends.
slot-Ends :
    (fuel : ℕ) (rx : Receiver) (ring : Ring) (output : List ℕ) (consumed_slots : ℕ) (slot : Slot)
    (frame : Frame) (transition : Transition)
    → try_peek_slot ring ≡ some slot
    → decode_frame slot ≡ done frame
    → validate_transition rx frame ≡ done transition
    → (0 < consumed_slots) ⊎ (length output ≡ 0)
    → frame.fragment_len ≤ axivc_fragment_capacity
    → (transition.aborted ≡ false) ⊎ (transition.next_state ≡ ReceiverState.idle)
    → (transition.complete ≡ false) ⊎ (transition.next_state ≡ ReceiverState.idle)
    → Ends (
        read_loop fuel axivc_fragment_capacity
          (apply rx transition)
          (pop_slot ring)
          (output ++ payload frame)
          (consumed_slots + 1))
    → Ends (read_loop (suc fuel) axivc_fragment_capacity rx ring output consumed_slots)
slot-Ends fuel rx ring output consumed_slots slot frame transition seen d v begun fits aborts
      completes rest =
    let r = read_loop (suc fuel) axivc_fragment_capacity rx ring output consumed_slots in
    elim (dec_lt 0 consumed_slots) [
      | yes some_taken ↦ elim (Bool-cases transition.aborted) [
        | inl a ↦
            let runs : r ≡ stop_reading rx ring output consumed_slots false =
              unfold read_loop in ground (arith, seen, d, v, a) in
            rw runs (inr (refl, inl refl))
        | inr a ↦ elim (dec_lt (axivc_fragment_capacity - length output) frame.fragment_len) [
          | yes big ↦
              let runs : r ≡ stop_reading rx ring output consumed_slots false =
                unfold read_loop in ground (arith, seen, d, v, a) in
              rw runs (inr (refl, inl refl))
          | no room ↦ elim (Bool-cases transition.complete) [
            | inl c ↦
                let runs : r
                    ≡ stop_reading (apply rx transition) (pop_slot ring) (output ++ payload frame)
                        (consumed_slots + 1) true =
                  unfold read_loop in ground (arith, seen, d, v, a, c) in
                rw runs (inr (refl, ground (arith, c)))
            | inr c ↦
                let runs : r
                    ≡ read_loop fuel axivc_fragment_capacity (apply rx transition) (pop_slot ring)
                        (output ++ payload frame) (consumed_slots + 1) =
                  unfold read_loop in ground (arith, seen, d, v, a, c) in
                rw runs rest
          ]
        ]
      ]
      | no none_taken ↦ elim (Bool-cases transition.aborted) [
        | inl a ↦
            let runs : r
                ≡ fail_reading (failed econnreset) (apply rx transition) (pop_slot ring)
                    (output ++ payload frame) =
              unfold read_loop in ground (arith, seen, d, v, a) in
            rw runs (inl (econnreset, refl, ground (arith, a)))
        | inr a ↦ elim (Bool-cases transition.complete) [
          | inl c ↦
              let runs : r
                  ≡ stop_reading (apply rx transition) (pop_slot ring) (output ++ payload frame)
                      (consumed_slots + 1) true =
                unfold read_loop in ground (arith, seen, d, v, a, c) in
              rw runs (inr (refl, ground (arith, c)))
          | inr c ↦
              let runs : r
                  ≡ read_loop fuel axivc_fragment_capacity (apply rx transition) (pop_slot ring)
                      (output ++ payload frame) (consumed_slots + 1) =
                unfold read_loop in ground (arith, seen, d, v, a, c) in
              rw runs rest
        ]
      ]
    ]

read_loop-Ends :
    (fuel : ℕ) (rx : Receiver) (ring : Ring) (output : List ℕ) (consumed_slots : ℕ)
    → rx.state ≢ ReceiverState.failed_state
    → (0 < consumed_slots) ⊎ (length output ≡ 0)
    → Ends (read_loop fuel axivc_fragment_capacity rx ring output consumed_slots)
unfolding read_loop
read_loop-Ends zero rx ring output consumed_slots live begun = inr (refl, inl refl)
read_loop-Ends (suc fuel) rx ring output consumed_slots live begun =
    elim (Option-cases (try_peek_slot ring)) [
      | inl empty ↦ rw (empty, read_loop) (inr (refl, inl refl))
      | inr (slot, seen) ↦ elim (Result-cases (decode_frame slot)) [
        | inl (e, bad) ↦ rw (seen, read_loop, bad) (ground arith)
        | inr (frame, d) ↦ elim (Result-cases (validate_transition rx frame)) [
          | inl (e, bad) ↦ rw (seen, read_loop, d, bad) (ground arith)
          | inr (transition, v) ↦
              let ends = ending rx frame transition live v in
              let flags = transition_flags rx frame transition live v in
              let sound = decode_frame_sound slot frame d in
              let rest =
                read_loop-Ends fuel (apply rx transition) (pop_slot ring) (output ++ payload frame)
                  (consumed_slots + 1) flags.2 (inl (omega arith)) in
              slot-Ends fuel rx ring output consumed_slots slot frame transition seen d v begun
                (sound.1) (ends.0) (ends.1) rest
        ]
      ]
    ]

try_read-Ends : (rx : Receiver) (ring : Ring) → Ends (try_read rx ring axivc_fragment_capacity)
unfolding try_read
try_read-Ends rx ring = elim (state_cases rx) [
  | inr (inr dead) ↦ rw dead (elim (Result-cases rx.failed_errno) [
    | inl (e, bad) ↦ inl (e, bad, ground arith)
    | inr (u, fine) ↦ inr (fine, inl refl)
  ])
  | inl busy ↦
      let runs : try_read rx ring axivc_fragment_capacity
          ≡ read_loop (axivc_fragment_capacity + 1) axivc_fragment_capacity rx ring [] 0 =
        ground (arith, busy) in
      rw runs (
        read_loop-Ends (axivc_fragment_capacity + 1) rx ring [] 0 (ground (arith, busy)) (inr refl))
  | inr (inl idle) ↦
      let runs : try_read rx ring axivc_fragment_capacity
          ≡ read_loop (axivc_fragment_capacity + 1) axivc_fragment_capacity rx ring [] 0 =
        ground (arith, idle) in
      rw runs (
        read_loop-Ends (axivc_fragment_capacity + 1) rx ring [] 0 (ground (arith, idle)) (inr refl))
]

-- The call is still under way, or the receiver is not in the middle of a message.
abbrev pub IsBoundary : {S : Type 0} → Outcome S → Type 0
IsBoundary o = (o.result ≡ none) ⊎ (o.rx.state ≢ ReceiverState.receiving)

recv_rounds-IsBoundary :
    {S : Type 0} (notify : Bool) (rounds : List (Round S)) (meta : Meta) (rx : Receiver) (s : S)
    (ring : Ring) (user : List ℕ) (notified : ℕ)
    → IsBoundary (recv_rounds notify rounds meta rx s ring user notified)
unfolding recv_rounds receiver_poison
recv_rounds-IsBoundary notify [] meta rx s ring user notified = inl refl
recv_rounds-IsBoundary notify (r ∷ rounds) meta rx s ring user notified =
    let (s', ring') = r.peer s ring in
    let got = try_read rx ring' axivc_fragment_capacity in
    let notified' =
      if ltb 0 got.progress.consumed_slots then notify_publisher notify notified else notified in
    let rest =
      recv_rounds-IsBoundary notify rounds meta got.receiver s' got.ring (user ++ got.output)
        notified' in
    elim (try_read-Ends rx ring') [
      | inl (e, bad, ends) ↦ rw (recv_rounds, bad) (inr ends)
      | inr (good, ends) ↦ rw (recv_rounds, good) (ground (arith, ends, rest))
    ]

peek_boundary :
    (rx : Receiver) (ring : Ring)
    → rx.state ≢ ReceiverState.receiving
    → (peek_meta rx ring).receiver.state ≢ ReceiverState.receiving
unfolding peek_meta peek_first
peek_boundary rx ring at_start = ground arith

-- A read of a device that finds its receiver between two messages leaves it between two messages, or
-- failed for good, on every return: success, an aborted or malformed message, a buffer that is too small, a
-- fault, a timeout or a signal; and this whatever the peer does to the ring meanwhile. So no later read
-- begins in the middle of a message.
pub recv_message-IsBoundary :
    {S : Type 0} (notify : Bool) (locked : Code) (rounds : List (Round S)) (rx : Receiver) (s : S)
    (ring : Ring) (count notified : ℕ)
    → rx.state ≢ ReceiverState.receiving
    → IsBoundary (recv_message notify locked rounds rx s ring count notified)
unfolding recv_message
recv_message-IsBoundary notify locked rounds rx s ring count notified at_start =
    let p = peek_meta rx ring in
    let after = peek_boundary rx ring at_start in
    elim (ℕ_discrete count 0) [
      | yes nothing ↦ ground (arith, nothing)
      | no some_bytes ↦ elim (Result-cases locked) [
        | inl (e, bad) ↦ ground (arith, bad)
        | inr (u, good) ↦ elim (Result-cases (p.code)) [
          | inl (e, bad) ↦ ground (arith, good, bad, after)
          | inr (w, fine) ↦ elim (Option-cases (p.metadata)) [
            | inl nothing ↦ ground (arith, good, fine, nothing, after)
            | inr (meta, there) ↦
                (let rest =
                    recv_rounds-IsBoundary notify rounds meta (p.receiver) s ring [] notified in
                  ground (arith, good, fine, there, after, rest))
          ]
        ]
      ]
    ]
