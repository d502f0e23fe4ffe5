-- ===== src/Devices/Stopped.antt =====
-- ivc/ivc.c: the single writes of `axivc_send_message`, and the attempts of `axivc_abort_send`.
use axvisor_tools.Common.{
  ℕ, zero, suc, ◌+◌, min, ◌≡◌, ◌≢◌, ◌⊎◌, inl, inr, refl, arith, Bool, true, false, none, some, not,
  Result-cases, Bool-cases, List, [], ◌∷◌, length, drop, ◌==◌, done, failed, Errno, Code, ebusy,
  eproto,
}
use axvisor_tools.Ring.Defs.{Ring, try_push_slot}
use axvisor_tools.Message.Frame.{encode_frame, validate_frame_shape, axivc_fragment_capacity}
use axvisor_tools.Message.Sender.{
  Sender, Wrote, u64, advance, publish_empty_message, write_loop, try_write, try_abort,
}
use axvisor_tools.Devices.Send.{
  Pause, Aborting, is_enomsg, is_eagain, notify_publisher, abort_rounds,
}

encode_frame_error :
    (id len : ℕ) (first last abort : Bool) (fragment : List ℕ) (n : ℕ) (e : Errno)
    → encode_frame id len first last abort fragment n ≡ failed e
    → e ≡ eproto
unfolding encode_frame validate_frame_shape
encode_frame_error id len first last abort fragment n e bad = ground arith

-- A write that completes the message ends it, and none answers that a message is under way.
abbrev pub Writes : Wrote → Type 0
Writes w = ((w.progress.complete ≡ false) ⊎ (w.sender.sending ≡ false)) × (w.code ≢ failed ebusy)

publish_empty-Writes : (sender : Sender) (ring : Ring) → Writes (publish_empty_message sender ring)
unfolding publish_empty_message
publish_empty-Writes sender ring =
    elim (Result-cases (encode_frame sender.active.id 0 true true false [] 0)) [
      | inl (e, bad) ↦
          let which = encode_frame_error sender.active.id 0 true true false [] 0 e bad in
          rw (bad, publish_empty_message, which) (ground arith)
      | inr (slot, good) ↦ rw (good, publish_empty_message) (ground arith)
    ]

write_loop-Writes :
    (fuel : ℕ) (input : List ℕ) (sender : Sender) (ring : Ring) (consumed published_slots : ℕ)
    → Writes (write_loop fuel input sender ring consumed published_slots)
unfolding write_loop
write_loop-Writes zero input sender ring consumed published_slots = ground arith
write_loop-Writes (suc fuel) [] sender ring consumed published_slots = ground arith
write_loop-Writes (suc fuel) (x ∷ xs) sender ring consumed published_slots =
    let fragment_len = min axivc_fragment_capacity (length (x ∷ xs)) in
    let next_sent = u64 (sender.sent + fragment_len) in
    let complete = next_sent == sender.active.len in
    elim (Result-cases (
      encode_frame sender.active.id sender.active.len (not sender.published_any) complete false
        (x ∷ xs) fragment_len)) [
          | inl (e, bad) ↦
              let which =
                encode_frame_error sender.active.id sender.active.len (not sender.published_any)
                  complete false (x ∷ xs) fragment_len e bad in
              rw (bad, write_loop, which) (ground arith)
          | inr (slot, good) ↦
              let more =
                write_loop-Writes fuel (drop fragment_len (x ∷ xs)) (advance sender next_sent)
                  (try_push_slot ring slot).1 (consumed + fragment_len) (published_slots + 1) in
              rw (good, write_loop) (ground (arith, more))
        ]

pub try_write-Writes :
    (sender : Sender) (ring : Ring) (input : List ℕ) → Writes (try_write sender ring input)
unfolding try_write
try_write-Writes sender ring input =
    let empty = publish_empty-Writes sender ring in
    let loop = write_loop-Writes (length input) input sender ring 0 0 in ground (arith, empty, loop)

-- An answer of an abort, and the sender behind it: there is no message under way any more, or the
-- answer marks the endpoint.
abbrev pub Stops : Code → Sender → Type 0
Stops (done _) tx = tx.sending ≡ false
Stops (failed e) tx = (is_enomsg e ≡ false) ⊎ (tx.sending ≡ false)

try_abort-Stops :
    (sender : Sender) (ring : Ring) → Stops (try_abort sender ring).0 (try_abort sender ring).1
unfolding try_abort is_enomsg
try_abort-Stops sender ring =
    elim (Result-cases (encode_frame sender.active.id sender.active.len false false true [] 0)) [
      | inl (e, bad) ↦
          rw
            (bad, encode_frame_error sender.active.id sender.active.len false false true [] 0 e bad)
            (ground arith)
      | inr (slot, good) ↦ rw good (ground arith)
    ]

unfoldable pub Ends : {S : Type 0} → Aborting S → Type 0
Ends a = (a.code ≡ none) ⊎ ((err : Code) × (a.code ≡ some err) × Stops err a.tx)

pub abort_rounds-Ends :
    {S : Type 0} (notify : Bool) (pauses : List (Pause S)) (tx : Sender) (s : S) (ring : Ring)
    (notified : ℕ)
    → Ends (abort_rounds notify pauses tx s ring notified)
unfolding abort_rounds Ends
abort_rounds-Ends notify [] tx s ring notified = inl refl
abort_rounds-Ends notify (p ∷ pauses) tx s ring notified =
    let (s', ring') = p.peer s ring in
    let stops = try_abort-Stops tx ring' in
    let a = try_abort tx ring' in
    let more = abort_rounds-Ends notify pauses (a.1) s' (a.2) (notify_publisher notify notified) in
    elim (Bool-cases (is_eagain (a.0))) [
      | inr other ↦ rw (abort_rounds, other) (inr (a.0, refl, stops))
      | inl full ↦ elim (Bool-cases p.late) [
        | inl late ↦ rw (abort_rounds, full, late) (inr (a.0, refl, stops))
        | inr early ↦ rw (abort_rounds, full, early) more
      ]
    ]
