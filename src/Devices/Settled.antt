-- ===== src/Devices/Settled.antt =====
-- ivc/ivc.c: a write of a device that returns leaves no message half sent and unmarked.
use axvisor_tools.Common.{
  ℕ, ◌+◌, ◌-◌, ◌^◌, min, ◌≡◌, ◌≢◌, ◌⊎◌, inl, inr, refl, ◌∙◌, ap, arith, Bool, false, ◌&&◌,
  if◌then◌else◌, none, some, not, Result-cases, Bool-cases, List, [], ◌∷◌, length, take, drop, ltb,
  done, failed, success, ℕ_discrete, Errno, Code, ebusy, epipe, eopnotsupp, eoverflow, efault,
  etimedout, erestartsys,
}
use axvisor_tools.Ring.Defs.{Ring}
use axvisor_tools.Message.Frame.{axivc_fragment_capacity}
use axvisor_tools.Message.Sender.{u64, start, try_write}
use axvisor_tools.Devices.Publishers.{Endpoint}
use axvisor_tools.Devices.Send.{
  refuses, Pause, SendRound, Sending, is_enomsg, notify_publisher, abort_send, send_rounds,
  send_message,
}
use axvisor_tools.Devices.Stopped.{try_write-Writes, Ends, abort_rounds-Ends}

-- No message is under way on an endpoint without a mark, or the endpoint is marked.
abbrev pub IsSettled : Endpoint → Type 0
IsSettled endpoint =
    ((endpoint.tx.sending ≡ false) × (endpoint.tx_error ≡ success))
    ⊎ (endpoint.tx_error ≡ failed epipe)

-- The call is still under way, or it leaves a settled endpoint and did not find another message.
abbrev pub Settles : {S : Type 0} → Sending S → Type 0
Settles o = (o.result ≡ none) ⊎ ((o.result ≢ some (failed ebusy)) × IsSettled (o.endpoint))

abort_send-Settles :
    {S : Type 0} (notify : Bool) (pauses : List (Pause S)) (e : Errno) (endpoint : Endpoint) (s : S)
    (ring : Ring) (notified : ℕ)
    → e ≢ ebusy
    → endpoint.tx_error ≡ success
    → Settles (abort_send notify pauses e endpoint s ring notified)
unfolding abort_send Ends
abort_send-Settles notify pauses e endpoint s ring notified free fine =
    elim (abort_rounds-Ends notify pauses (endpoint.tx) s ring notified) [
      | inl waits ↦ rw (abort_send, waits) (inl refl)
      | inr (done _, ends, stops) ↦
          rw (abort_send, ends) (inr (λ x. free (cc x), inl (stops, fine)))
      | inr (failed err, ends, stops) ↦ elim (Bool-cases (is_enomsg err)) [
        | inl gone ↦
            rw (abort_send, ends, gone) (inr (λ x. free (cc x), inl (ground (arith, stops), fine)))
        | inr marked ↦ rw (abort_send, ends, marked) (inr (λ x. free (cc x), inr refl))
      ]
    ]

send_rounds-Settles :
    {S : Type 0} (notify : Bool) (pauses : List (Pause S)) (rounds : List (SendRound S))
    (user : List ℕ) (sent : ℕ) (endpoint : Endpoint) (s : S) (ring : Ring) (notified : ℕ)
    → endpoint.tx_error ≡ success
    → Settles (send_rounds notify pauses rounds user sent endpoint s ring notified)
unfolding send_rounds
send_rounds-Settles notify pauses [] user sent endpoint s ring notified fine = inl refl
send_rounds-Settles notify pauses (r ∷ rounds) user sent endpoint s ring notified fine =
    let count = length user in
    let chunk = min axivc_fragment_capacity (u64 (count + 2 ^ 64 - sent)) in
    let (s', ring') = r.peer s ring in
    let w = try_write endpoint.tx ring' (take chunk (drop sent user)) in
    let published = ltb 0 w.progress.published_slots in
    let notified' = if published then notify_publisher notify notified else notified in
    let writes = try_write-Writes endpoint.tx ring' (take chunk (drop sent user)) in
    let endpoint' = record endpoint { tx = w.sender } in
    let more = λ (n : ℕ).
      send_rounds-Settles notify pauses rounds user (sent + w.progress.consumed) endpoint' s' w.ring
        n fine in
    let fault =
      abort_send-Settles notify pauses efault endpoint s' ring' notified (λ x. cc x) fine in
    let gives_up = λ (e : Errno) (n : ℕ) (free : e ≢ ebusy).
      abort_send-Settles notify pauses e endpoint' s' w.ring n free fine in
    elim (Bool-cases (ltb 0 chunk && not r.copies)) [
      | inl faulty ↦ rw (send_rounds, faulty) fault
      | inr copied ↦ elim (Result-cases (w.code)) [
        | inl (e, bad) ↦
            rw (send_rounds, copied, bad)
              (abort_send-Settles notify pauses e endpoint' s' (w.ring) notified
                (λ x. writes.1 (bad ∙ ap failed x)) fine)
        | inr (u, good) ↦ elim (Bool-cases (w.progress.complete)) [
          | inl whole ↦
              rw (send_rounds, copied, good, whole)
                (inr (λ x. cc x, inl (ground (arith, whole, writes), fine)))
          | inr part ↦ elim (Bool-cases published) [
            | inl some_slots ↦ rw (send_rounds, copied, good, part, some_slots) (more _)
            | inr none_yet ↦ elim (Bool-cases (r.late)) [
              | inl late ↦
                  rw (send_rounds, copied, good, part, none_yet, late)
                    (gives_up etimedout _ (λ x. cc x))
              | inr early ↦ elim (Bool-cases (r.interrupted)) [
                | inl woken ↦
                    rw (send_rounds, copied, good, part, none_yet, early, woken)
                      (gives_up erestartsys _ (λ x. cc x))
                | inr slept ↦ rw (send_rounds, copied, good, part, none_yet, early, slept) (more _)
              ]
            ]
          ]
        ]
      ]
    ]

refused :
    {S : Type 0} (e : Errno) (endpoint : Endpoint) (s : S) (ring : Ring) (notified : ℕ)
    (o : Sending S)
    → e ≢ ebusy
    → o ≡ refuses e endpoint s ring notified
    → IsSettled endpoint
    → Settles o
      × ((endpoint.tx_error ≡ success) ⊎ ((e' : Errno) × (o ≡ refuses e' endpoint s ring notified)))
refused e endpoint s ring notified o free runs settled =
    rw runs (inr (λ x. free (cc x), settled), inr (e, refl))

-- A write of a device that finds a settled endpoint leaves a settled one on every return, a success, a
-- fault, a timeout, a signal or a refusal: either no message is under way, or the endpoint is marked with
-- EPIPE. If the lock does not answer EBUSY, neither does the write. On a marked endpoint every write
-- is refused, and changes nothing. The peer may do anything to the ring meanwhile.
pub send_message-IsSettled :
    {S : Type 0} (notify : Bool) (locked : Code) (pauses : List (Pause S))
    (rounds : List (SendRound S)) (user : List ℕ) (endpoint : Endpoint) (s : S) (ring : Ring)
    (notified : ℕ)
    → IsSettled endpoint
    → locked ≢ failed ebusy
    → let o = send_message notify locked pauses rounds user endpoint s ring notified in
      Settles o
      × ((endpoint.tx_error ≡ success) ⊎ ((e : Errno) × (o ≡ refuses e endpoint s ring notified)))
unfolding send_message start
send_message-IsSettled notify locked pauses rounds user endpoint s ring notified settled free =
    elim (ℕ_discrete (length user) 0) [
      | yes nothing ↦
          let runs : send_message notify locked pauses rounds user endpoint s ring notified
              ≡ refuses eopnotsupp endpoint s ring notified =
            ground (arith, nothing) in
          refused eopnotsupp endpoint s ring notified _ (λ x. cc x) runs settled
      | no some_bytes ↦ elim (Result-cases locked) [
        | inl (e, bad) ↦
            let runs : send_message notify locked pauses rounds user endpoint s ring notified
                ≡ refuses e endpoint s ring notified =
              ground (arith, bad) in
            refused e endpoint s ring notified _ (λ x. free (bad ∙ ap failed x)) runs settled
        | inr (u, good) ↦ elim settled [
          | inr bad ↦
              let runs : send_message notify locked pauses rounds user endpoint s ring notified
                  ≡ refuses epipe endpoint s ring notified =
                ground (arith, good, bad) in
              refused epipe endpoint s ring notified _ (λ x. cc x) runs (inr bad)
          | inl (idle, fine) ↦ elim (ℕ_discrete endpoint.tx.next_message_id 0) [
            | yes used_up ↦
                let runs : send_message notify locked pauses rounds user endpoint s ring notified
                    ≡ refuses eoverflow endpoint s ring notified =
                  ground (arith, good, fine, idle, used_up) in
                refused eoverflow endpoint s ring notified _ (λ x. cc x) runs (inl (idle, fine))
            | no fresh ↦
                let begun = (start endpoint.tx (length user)).1 in
                let runs : send_message notify locked pauses rounds user endpoint s ring notified
                    ≡ send_rounds notify pauses rounds user 0 (record endpoint { tx = begun }) s
                        ring notified =
                  ground (arith, good, fine, idle, fresh) in
                (
                  rw runs (
                      send_rounds-Settles notify pauses rounds user 0
                        (record endpoint { tx = begun }) s ring notified fine),
                  inl fine,
                )
          ]
        ]
      ]
    ]
