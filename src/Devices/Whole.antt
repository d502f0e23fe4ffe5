-- ===== src/Devices/Whole.antt =====
-- ivc/ivc.c over ivc/message.c: a write of a device sends the whole message or none of it.
use axvisor_tools.Common.{
  ℕ, ◌+◌, ◌-◌, ◌^◌, ◌<◌, min, ◌≡◌, inl, inr, refl, arith, Bool, ◌&&◌, not, Result-cases, Bool-cases,
  List, [], ◌∷◌, length, take, drop, ltb, success, ℕ_discrete, Errno, Code, efault, etimedout,
  erestartsys, eoverflow, eopnotsupp, ◌≢◌,
}
use axvisor_tools.Ring.Defs.{Ring}
use axvisor_tools.Message.Frame.{axivc_fragment_capacity}
use axvisor_tools.Message.Sender.{Sender, u64, start, try_write}
use axvisor_tools.Message.Calls.{start-Joined}
use axvisor_tools.Devices.Publishers.{Endpoint}
use axvisor_tools.Devices.Send.{Pause, SendRound, Sending, refuses, send_rounds, send_message}
use axvisor_tools.Devices.Peer.{Reader, AreHonest, ArePatient}
use axvisor_tools.Devices.Under.{
  Under, Between, Sends, peer-Under, abort_send-Sends, write-Adds, within_message,
}

module _ (messages : List (List ℕ)) (user : List ℕ) where
  send_rounds-Sends :
      (notify : Bool) (pauses : List (Pause Reader)) (rounds : List (SendRound Reader)) (sent : ℕ)
      (endpoint : Endpoint) (s : Reader) (ring : Ring) (notified : ℕ)
      → ArePatient pauses
      → AreHonest rounds
      → endpoint.tx_error ≡ success
      → 0 < length user
      → Under messages user sent endpoint.tx s ring
      → Sends messages user (send_rounds notify pauses rounds user sent endpoint s ring notified)
  unfolding send_rounds
  send_rounds-Sends notify pauses [] sent endpoint s ring notified patient honest fine some_bytes
        u =
      inl refl
  send_rounds-Sends notify pauses (r ∷ rounds) sent endpoint s ring notified patient honest fine
        some_bytes u =
      let chunk = min axivc_fragment_capacity (u64 (length user + 2 ^ 64 - sent)) in
      let (s', ring') = r.peer s ring in
      let w = try_write endpoint.tx ring' (take chunk (drop sent user)) in
      let endpoint' = record endpoint { tx = w.sender } in
      let published = ltb 0 w.progress.published_slots in
      let u' = peer-Under messages user (r.peer) sent (endpoint.tx) s ring (honest.0) u in
      let within = within_message messages user sent (endpoint.tx) s ring u in
      elim (Bool-cases (ltb 0 chunk && not r.copies)) [
        | inl faulty ↦
            rw (send_rounds, faulty)
              (abort_send-Sends messages user notify pauses efault sent endpoint s' ring' notified
                patient fine some_bytes u')
        | inr copied ↦
            let (code, adds) =
              write-Adds messages user sent chunk (endpoint.tx) s' ring' u' within in
            elim adds [
              | inl (whole, between) ↦
                  rw (send_rounds, copied, code, whole) (inr (inl (refl, fine, between)))
              | inr (part, under) ↦
                  let more = λ (n : ℕ).
                    send_rounds-Sends notify pauses rounds (sent + w.progress.consumed) endpoint' s'
                      w.ring n patient (honest.1) fine some_bytes under in
                  let gives_up = λ (e : Errno) (n : ℕ).
                    abort_send-Sends messages user notify pauses e (sent + w.progress.consumed)
                      endpoint' s' w.ring n patient fine some_bytes under in
                  elim (Bool-cases published) [
                    | inl some_slots ↦ rw (send_rounds, copied, code, part, some_slots) (more _)
                    | inr none_yet ↦ elim (Bool-cases (r.late)) [
                      | inl late ↦
                          rw (send_rounds, copied, code, part, none_yet, late)
                            (gives_up etimedout _)
                      | inr early ↦ elim (Bool-cases (r.interrupted)) [
                        | inl woken ↦
                            rw (send_rounds, copied, code, part, none_yet, early, woken)
                              (gives_up erestartsys _)
                        | inr slept ↦
                            rw (send_rounds, copied, code, part, none_yet, early, slept) (more _)
                      ]
                    ]
                  ]
            ]
      ]

  refuses-Sends :
      (e : Errno) (endpoint : Endpoint) (s : Reader) (ring : Ring) (notified : ℕ)
      (o : Sending Reader)
      → o ≡ refuses e endpoint s ring notified
      → endpoint.tx_error ≡ success
      → Between messages (endpoint.tx) s ring
      → Sends messages user o
  refuses-Sends e endpoint s ring notified o runs fine between =
      rw runs (inr (inr (e, refl, inl (fine, between))))

  pub start-Under :
      (tx : Sender) (s : Reader) (ring : Ring)
      → length user < 2 ^ 64
      → tx.next_message_id ≢ 0
      → Between messages tx s ring
      → Under messages user 0 (start tx (length user)).1 s ring
  unfolding start
  start-Under tx s ring small fresh (off, joined, holds) = record {
    joined = start-Joined s.receiver s.delivered tx ring (length user) small joined;
    on = ground (arith, off);
    len = ground (arith, off);
    at_byte = ground (arith, off);
    holds = holds;
  }

  -- Over a ring whose other end is honest, a write of a device that finds the two ends between two
  -- messages is all or nothing. If it returns the length of the message, the whole message is in the ring
  -- or with the reader, behind all earlier ones, and nothing else. If it returns an error, either the
  -- message has left no trace, and the two ends are between two messages again, or a strict first part
  -- of it is out, and the endpoint is marked with EPIPE.
  pub send_message-Sends :
      (notify : Bool) (locked : Code) (pauses : List (Pause Reader))
      (rounds : List (SendRound Reader)) (endpoint : Endpoint) (s : Reader) (ring : Ring)
      (notified : ℕ)
      → length user < 2 ^ 64
      → ArePatient pauses
      → AreHonest rounds
      → endpoint.tx_error ≡ success
      → Between messages (endpoint.tx) s ring
      → Sends messages user (send_message notify locked pauses rounds user endpoint s ring notified)
  unfolding send_message
  send_message-Sends notify locked pauses rounds endpoint s ring notified small patient honest fine
        between =
      let o = send_message notify locked pauses rounds user endpoint s ring notified in
      let refused = λ (e : Errno) (runs : o ≡ refuses e endpoint s ring notified).
        refuses-Sends e endpoint s ring notified o runs fine between in
      elim (ℕ_discrete (length user) 0) [
        | yes nothing ↦ refused eopnotsupp (ground (arith, nothing))
        | no some_bytes ↦ elim (Result-cases locked) [
          | inl (e, bad) ↦ refused e (ground (arith, bad))
          | inr (v, good) ↦ elim (ℕ_discrete endpoint.tx.next_message_id 0) [
            | yes used_up ↦
                refused eoverflow (unfold start in ground (arith, good, fine, between.0, used_up))
            | no fresh ↦
                let begun = (start endpoint.tx (length user)).1 in
                let runs : o
                    ≡ send_rounds notify pauses rounds user 0 (record endpoint { tx = begun }) s
                        ring notified =
                  unfold start in ground (arith, good, fine, between.0, fresh) in
                rw runs (
                  send_rounds-Sends notify pauses rounds 0 (record endpoint { tx = begun }) s ring
                    notified patient honest fine (omega arith)
                    (start-Under (endpoint.tx) s ring small fresh between))
          ]
        ]
      ]
