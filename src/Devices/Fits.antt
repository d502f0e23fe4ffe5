-- ===== src/Devices/Fits.antt =====
-- ivc/ivc.c: a read of a device stores no more than it was given room for.
use axvisor_tools.Common.{
  ℕ, ◌≤◌, ◌≡◌, ◌≢◌, ◌⊎◌, inl, inr, refl, sym, subst, arith, All, none, some, Option-cases,
  Result-cases, Bool-cases, Bool, List, [], ◌∷◌, ◌++◌, ◌&&◌, not, ltb, ◌==◌, length, length-append,
  done, failed, eopnotsupp, if◌then◌else◌, Errno, Code,
}
use axvisor_tools.Ring.Defs.{Ring, Slot, try_peek_slot}
use axvisor_tools.Message.Frame.{Frame, decode_frame, axivc_fragment_capacity}
use axvisor_tools.Message.Peek.{state_cases}
use axvisor_tools.Message.Sender.{Meta}
use axvisor_tools.Message.Receiver.{Receiver, ReceiverState, try_read, peek_meta, peek_first}
use axvisor_tools.Devices.Receive.{Round, Outcome, recv_rounds, recv_message}
use axvisor_tools.Devices.InMessage.{InMessage, Fits, read_on-Fits, first_read-Fits}

-- The peer leaves the oldest slot as it is.
abbrev pub KeepsHead : {S : Type 0} → (S → Ring → S × Ring) → Type 0
KeepsHead {S = S} peer =
    (s : S) (ring : Ring) (slot : Slot)
    → try_peek_slot ring ≡ some slot
    → try_peek_slot (peer s ring).1 ≡ some slot

abbrev pub KeepHeads : {S : Type 0} → List (Round S) → Type 0
KeepHeads rounds = All (λ r. KeepsHead (r.peer)) rounds

-- Where a call stands between two rounds.
abbrev Stands : Receiver → Ring → ℕ → ℕ → Type 0
Stands rx ring stored len =
    InMessage rx stored len
    ⊎ ((rx.state ≡ ReceiverState.idle)
        × (stored ≡ 0)
        × (slot : Slot) × (frame : Frame) × (try_peek_slot ring ≡ some slot)
        × (decode_frame slot ≡ done frame)
        × (frame.message_len ≡ len))

round-Fits :
    {S : Type 0} (r : Round S) (rx : Receiver) (s : S) (ring : Ring) (stored len : ℕ)
    → KeepsHead (r.peer)
    → Stands rx ring stored len
    → Fits stored len (try_read rx (r.peer s ring).1 axivc_fragment_capacity)
round-Fits r rx s ring stored len keeps (inl within) =
    read_on-Fits stored len rx (r.peer s ring).1 within
round-Fits r rx s ring stored len keeps (inr (idle, none_yet, slot, frame, seen, d, same)) =
    rw (none_yet, sym same)
      (first_read-Fits rx (r.peer s ring).1 slot frame idle (keeps s ring slot seen) d)

-- The user's buffer holds what was stored, and the result counts it.
abbrev pub IsWithin : {S : Type 0} → Outcome S → ℕ → Type 0
IsWithin o count =
    (length o.user ≤ count)
    × ((o.result ≡ none)
        ⊎ (((e : Errno) × (o.result ≡ some (failed e))) ⊎ (o.result ≡ some (done (length o.user)))))

ended :
    (len : ℕ) (user : List ℕ)
    → let result = some (if len == 0 then failed eopnotsupp else done (length user)) in
      (result ≡ none)
      ⊎ (((e : Errno) × (result ≡ some (failed e))) ⊎ (result ≡ some (done (length user))))
ended len user = elim (Bool-cases (len == 0)) [
  | inl empty ↦ rw empty (inr (inl (eopnotsupp, refl)))
  | inr some_bytes ↦ rw some_bytes (inr (inr refl))
]

recv_rounds-IsWithin :
    {S : Type 0} (notify : Bool) (rounds : List (Round S)) (meta : Meta) (rx : Receiver) (s : S)
    (ring : Ring) (user : List ℕ) (notified : ℕ)
    → KeepHeads rounds
    → length user ≤ meta.len
    → Stands rx ring (length user) meta.len
    → IsWithin (recv_rounds notify rounds meta rx s ring user notified) meta.len
unfolding recv_rounds
recv_rounds-IsWithin notify [] meta rx s ring user notified keep stored stands = (stored, inl refl)
recv_rounds-IsWithin notify (r ∷ rounds) meta rx s ring user notified keep stored stands =
    let (s', ring') = r.peer s ring in
    let got = try_read rx ring' axivc_fragment_capacity in
    let user' = user ++ got.output in
    let grown = length-append {0} user got.output in
    elim (round-Fits r rx s ring (length user) meta.len (keep.0) stands) [
      | inl (e, bad) ↦ rw (recv_rounds, bad) (stored, inr (inl (e, refl)))
      | inr (good, fits, next) ↦ elim (Bool-cases (ltb 0 got.progress.written && not r.copies)) [
        | inl faulty ↦ rw (recv_rounds, good, faulty) (stored, inr (inl (_, refl)))
        | inr copied ↦ elim next [
          | inl whole ↦
              rw (recv_rounds, good, copied, whole)
                (omega (arith, grown, fits), ended (meta.len) user')
          | inr (part, within) ↦
              let more : (n : ℕ)
                  → IsWithin (recv_rounds notify rounds meta got.receiver s' got.ring user' n)
                      meta.len =
                λ n.
                  recv_rounds-IsWithin notify rounds meta (got.receiver) s' (got.ring) user' n
                    (keep.1) (omega (arith, grown, fits))
                    (inl (subst (λ n. InMessage (got.receiver) n (meta.len)) (sym grown) within)) in
              let full : length user' ≤ meta.len = omega (arith, grown, fits) in
              elim (Bool-cases (ltb 0 got.progress.consumed_slots)) [
                | inl some_slots ↦ rw (recv_rounds, good, copied, part, some_slots) (more _)
                | inr none_left ↦ elim (Bool-cases (r.late)) [
                  | inl late ↦
                      rw (recv_rounds, good, copied, part, none_left, late)
                        (full, inr (inl (_, refl)))
                  | inr early ↦ elim (Bool-cases (r.interrupted)) [
                    | inl woken ↦
                        rw (recv_rounds, good, copied, part, none_left, early, woken)
                          (full, inr (inl (_, refl)))
                    | inr slept ↦
                        rw (recv_rounds, good, copied, part, none_left, early, slept) (more _)
                  ]
                ]
              ]
        ]
      ]
    ]

peeked :
    (rx : Receiver) (ring : Ring) (meta : Meta)
    → rx.state ≡ ReceiverState.idle
    → (peek_meta rx ring).metadata ≡ some meta
    → ((peek_meta rx ring).receiver ≡ rx)
      × (slot : Slot) × (frame : Frame) × (try_peek_slot ring ≡ some slot)
      × (decode_frame slot ≡ done frame)
      × (frame.message_len ≡ meta.len)
unfolding peek_meta peek_first
peeked rx ring meta idle there = elim (Option-cases (try_peek_slot ring)) [
  | inl empty ↦ absurd (ground (arith, idle, there, empty))
  | inr (slot, seen) ↦ elim (Result-cases (decode_frame slot)) [
    | inl (e, bad) ↦ absurd (ground (arith, idle, there, seen, bad))
    | inr (frame, d) ↦ (
      ground (arith, idle, there, seen, d),
      slot,
      frame,
      seen,
      d,
      ground (arith, idle, there, seen, d),
    )
  ]
]

-- A read of a device that finds its receiver between two messages, or failed for good, stores at most `count` bytes in the
-- user's buffer of `count` bytes, and a result that is no error is the number of bytes stored. The peer
-- may do anything to the ring meanwhile but change the oldest slot that is published.
pub recv_message-IsWithin :
    {S : Type 0} (notify : Bool) (locked : Code) (rounds : List (Round S)) (rx : Receiver) (s : S)
    (ring : Ring) (count notified : ℕ)
    → rx.state ≢ ReceiverState.receiving
    → KeepHeads rounds
    → IsWithin (recv_message notify locked rounds rx s ring count notified) count
unfolding recv_message
recv_message-IsWithin notify locked rounds rx s ring count notified at_start keep =
    let p = peek_meta rx ring in
    elim (Bool-cases (count == 0)) [
      | inl nothing ↦ rw nothing (omega arith, inr (inr refl))
      | inr some_bytes ↦ elim (Result-cases locked) [
        | inl (e, bad) ↦ rw (some_bytes, bad) (omega arith, inr (inl (e, refl)))
        | inr (u, good) ↦ elim (Result-cases (p.code)) [
          | inl (e, bad) ↦ rw (some_bytes, good, bad) (omega arith, inr (inl (e, refl)))
          | inr (w, fine) ↦ elim (Option-cases (p.metadata)) [
            | inl nothing ↦ rw (some_bytes, good, fine, nothing) (omega arith, inr (inr refl))
            | inr (meta, there) ↦ elim (Bool-cases (ltb count meta.len)) [
              | inl small ↦
                  rw (some_bytes, good, fine, there, small) (omega arith, inr (inl (_, refl)))
              | inr room ↦ elim (state_cases rx) [
                | inl busy ↦ absurd (at_start busy)
                | inr (inr dead) ↦ absurd (unfold peek_meta in ground (arith, dead, there))
                | inr (inl idle) ↦
                    let (same, slot, frame, seen, d, len) = peeked rx ring meta idle there in
                    let (fits, counted) =
                      recv_rounds-IsWithin notify rounds meta rx s ring [] notified keep
                        (omega arith) (inr (idle, refl, slot, frame, seen, d, len)) in
                    rw (some_bytes, good, fine, there, room, same)
                      (ground (arith, room, fits), counted)
              ]
            ]
          ]
        ]
      ]
    ]
