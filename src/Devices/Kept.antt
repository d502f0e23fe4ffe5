-- ===== src/Devices/Kept.antt =====
-- ivc/ivc.c: what `axivc_send_message` leaves of an endpoint.
use axvisor_tools.Common.{
  ℕ, ◌+◌, ◌≡◌, inl, inr, refl, Bool, ◌==◌, Bool-cases, Option-cases, Result-cases, some, List, [],
  ◌∷◌, length, failed, Code, Errno, Result, min, ◌^◌, ◌-◌, ltb, ◌&&◌, not, take, drop,
}
use axvisor_tools.Ring.Defs.{Ring}
use axvisor_tools.Message.Frame.{axivc_fragment_capacity}
use axvisor_tools.Message.Sender.{u64, start, try_write}
use axvisor_tools.Devices.Publishers.{Endpoint}
use axvisor_tools.Devices.Send.{
  Pause, SendRound, is_enomsg, abort_rounds, abort_send, send_rounds, send_message,
}
use axvisor_tools.Devices.Settled.{IsSettled, send_message-IsSettled}

-- A write leaves the receiver alone.
abort_send-rx :
    {S : Type 0} (notify : Bool) (pauses : List (Pause S)) (e : Errno) (endpoint : Endpoint) (s : S)
    (ring : Ring) (notified : ℕ)
    → (abort_send notify pauses e endpoint s ring notified).endpoint.rx ≡ endpoint.rx
unfolding abort_send
abort_send-rx notify pauses e endpoint s ring notified =
    let a = abort_rounds notify pauses endpoint.tx s ring notified in
    elim (Option-cases a.code) [
      | inl waits ↦ rw (abort_send, waits) refl
      | inr (c, ends) ↦ elim (Result-cases c) [
        | inr (u, good) ↦ rw (abort_send, ends, good) refl
        | inl (x, bad) ↦ elim (Bool-cases (is_enomsg x)) [
          | inl begun ↦ rw (abort_send, ends, bad, begun) refl
          | inr marked ↦ rw (abort_send, ends, bad, marked) refl
        ]
      ]
    ]

send_rounds-rx :
    {S : Type 0} (notify : Bool) (pauses : List (Pause S)) (rounds : List (SendRound S))
    (user : List ℕ) (sent : ℕ) (endpoint : Endpoint) (s : S) (ring : Ring) (notified : ℕ)
    → (send_rounds notify pauses rounds user sent endpoint s ring notified).endpoint.rx
      ≡ endpoint.rx
unfolding send_rounds
send_rounds-rx notify pauses [] user sent endpoint s ring notified = refl
send_rounds-rx notify pauses (r ∷ rounds) user sent endpoint s ring notified =
    let chunk = min axivc_fragment_capacity (u64 (length user + 2 ^ 64 - sent)) in
    let (s', ring') = r.peer s ring in
    let w = try_write endpoint.tx ring' (take chunk (drop sent user)) in
    let endpoint' = record endpoint { tx = w.sender } in
    let aborts : (e : Errno) (endpoint : Endpoint) (ring : Ring) (notified : ℕ)
        → (abort_send notify pauses e endpoint s' ring notified).endpoint.rx ≡ endpoint.rx =
      λ e endpoint ring notified. abort_send-rx notify pauses e endpoint s' ring notified in
    let more : (n : ℕ)
        → (send_rounds notify pauses rounds user (sent + w.progress.consumed) endpoint' s' w.ring
            n).endpoint.rx
          ≡ endpoint.rx =
      λ n.
        send_rounds-rx notify pauses rounds user (sent + w.progress.consumed) endpoint' s' w.ring
          n in
    elim (Bool-cases (ltb 0 chunk && not r.copies)) [
      | inl faulty ↦ rw (send_rounds, faulty) (aborts _ _ _ _)
      | inr copied ↦ elim (Result-cases w.code) [
        | inl (e, bad) ↦ rw (send_rounds, copied, bad) (aborts _ _ _ _)
        | inr (u, good) ↦ elim (Bool-cases w.progress.complete) [
          | inl whole ↦ rw (send_rounds, copied, good, whole) refl
          | inr part ↦ elim (Bool-cases (ltb 0 w.progress.published_slots)) [
            | inl published ↦ rw (send_rounds, copied, good, part, published) (more _)
            | inr full ↦ elim (Bool-cases r.late) [
              | inl late ↦ rw (send_rounds, copied, good, part, full, late) (aborts _ _ _ _)
              | inr early ↦ elim (Bool-cases r.interrupted) [
                | inl woken ↦
                    rw (send_rounds, copied, good, part, full, early, woken) (aborts _ _ _ _)
                | inr slept ↦ rw (send_rounds, copied, good, part, full, early, slept) (more _)
              ]
            ]
          ]
        ]
      ]
    ]

send_message-rx :
    {S : Type 0} (notify : Bool) (locked : Code) (pauses : List (Pause S))
    (rounds : List (SendRound S)) (user : List ℕ) (endpoint : Endpoint) (s : S) (ring : Ring)
    (notified : ℕ)
    → (send_message notify locked pauses rounds user endpoint s ring notified).endpoint.rx
      ≡ endpoint.rx
unfolding send_message
send_message-rx notify locked pauses rounds user endpoint s ring notified =
    elim (Bool-cases (length user == 0)) [
      | inl nothing ↦ rw (send_message, nothing) refl
      | inr some_bytes ↦ elim (Result-cases locked) [
        | inl (e, bad) ↦ rw (send_message, some_bytes, bad) refl
        | inr (u, good) ↦ elim (Result-cases endpoint.tx_error) [
          | inl (e, bad) ↦ rw (send_message, some_bytes, good, bad) refl
          | inr (v, fine) ↦ elim (Result-cases (start endpoint.tx (length user)).0) [
            | inl (e, bad) ↦ rw (send_message, some_bytes, good, fine, bad) refl
            | inr (w, begun) ↦
                rw (send_message, some_bytes, good, fine, begun)
                  (send_rounds-rx notify pauses rounds user 0
                    (record endpoint { tx = (start endpoint.tx (length user)).1 }) s ring notified)
          ]
        ]
      ]
    ]

-- A write that is refused the lock leaves the endpoint alone.
unlocked :
    (notify : Bool) (e : Errno) (pauses : List (Pause (Unit {0})))
    (rounds : List (SendRound (Unit {0}))) (user : List ℕ) (endpoint : Endpoint) (ring : Ring)
    → (send_message notify (failed e) pauses rounds user endpoint tt ring 0).endpoint ≡ endpoint
unfolding send_message
unlocked notify e pauses rounds user endpoint ring = elim (Bool-cases (length user == 0)) [
  | inl nothing ↦ rw (send_message, nothing) refl
  | inr some_bytes ↦ rw (send_message, some_bytes) refl
]

-- A write leaves the receiver alone, and no message half sent.
pub write_ends :
    (notify : Bool) (locked : Code) (pauses : List (Pause (Unit {0})))
    (rounds : List (SendRound (Unit {0}))) (user : List ℕ) (endpoint : Endpoint) (ring : Ring)
    (r : Result ℕ)
    → IsSettled endpoint
    → (send_message notify locked pauses rounds user endpoint tt ring 0).result ≡ some r
    → ((send_message notify locked pauses rounds user endpoint tt ring 0).endpoint.rx ≡ endpoint.rx)
      × IsSettled (send_message notify locked pauses rounds user endpoint tt ring 0).endpoint
write_ends notify locked pauses rounds user endpoint ring r settled returned =
    let o = send_message notify locked pauses rounds user endpoint tt ring 0 in
    let keeps = send_message-rx notify locked pauses rounds user endpoint tt ring 0 in
    elim (Result-cases locked) [
      | inl (e, bad) ↦ (keeps, rw (bad, unlocked notify e pauses rounds user endpoint ring) settled)
      | inr (u, good) ↦
          let ends =
            send_message-IsSettled notify locked pauses rounds user endpoint tt ring 0 settled
              (λ busy. cc (good, busy)) in
          elim ends.0 [
            | inl waits ↦ absurd (cc (returned, waits))
            | inr (_, behind) ↦ (keeps, behind)
          ]
    ]
