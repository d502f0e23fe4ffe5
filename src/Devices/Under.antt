-- ===== src/Devices/Under.antt =====
-- ivc/ivc.c over ivc/message.c: a message under way in a write of a device, its next write and its abort.
use axvisor_tools.Common.{
  ℕ, ◌+◌, ◌<◌, ◌≤◌, ◌≡◌, ◌⊎◌, inl, inr, refl, sym, ◌∙◌, ap, arith, Bool, true, false, none, some,
  Bool-cases, List, [], ◌∷◌, ◌++◌, length, take, drop, take_add, take-take, take-length,
  length-take, length-drop, done, failed, success, Errno, Code, eagain, epipe,
}
use axvisor_tools.Ring.Defs.{Ring}
use axvisor_tools.Message.Sender.{Sender, Wrote, try_write, try_abort}
use axvisor_tools.Message.Joined.{Joined, Log, extend, discard}
use axvisor_tools.Message.Write.{Publishes}
use axvisor_tools.Message.Calls.{try_write_lem}
use axvisor_tools.Message.Abort.{try_abort_lem}
use axvisor_tools.Devices.Publishers.{Endpoint}
use axvisor_tools.Devices.Send.{
  Pause, Aborting, Sending, is_eagain, is_enomsg, abort_rounds, abort_send,
}
use axvisor_tools.Devices.Peer.{Reader, carried, IsHonest, ArePatient}

-- The owner of the other end has these messages, and these bytes of the next.
abbrev pub shown : List (List ℕ) → List ℕ → Log
shown messages bytes = record { partial = bytes; messages = messages }

-- The first `sent` bytes of the message are in the ring.
pub record Under (messages : List (List ℕ)) (user : List ℕ) (sent : ℕ) (tx : Sender) (s : Reader)
    (ring : Ring) : Type 0 where
  pub joined : Joined s.receiver tx ring
  pub on : tx.sending ≡ true
  pub len : tx.active.len ≡ length user
  pub at_byte : tx.sent ≡ sent
  pub holds : carried s ring ≡ shown messages (take sent user)

-- The sender is idle, and these messages are in the ring.
abbrev pub Between : List (List ℕ) → Sender → Reader → Ring → Type 0
Between messages tx s ring =
    (tx.sending ≡ false) × Joined s.receiver tx ring × (carried s ring ≡ shown messages [])

module _ (messages : List (List ℕ)) (user : List ℕ) where
  pub peer-Under :
      (peer : Reader → Ring → Reader × Ring) (sent : ℕ) (tx : Sender) (s : Reader) (ring : Ring)
      → IsHonest peer
      → Under messages user sent tx s ring
      → Under messages user sent tx (peer s ring).0 (peer s ring).1
  peer-Under peer sent tx s ring honest u =
      let (joined, same) = honest s ring tx u.joined in
      record {
        joined = joined;
        on = u.on;
        len = u.len;
        at_byte = u.at_byte;
        holds = same ∙ u.holds;
      }

  -- What an attempt to abort does.
  abbrev Drops : ℕ → Sender → Reader → Code × Sender × Ring → Type 0
  Drops sent tx s (err, tx', ring') =
      ((err ≡ success) × Between messages tx' s ring')
      ⊎ ((err ≡ failed eagain) × Under messages user sent tx' s ring')

  try_abort-Drops :
      (sent : ℕ) (tx : Sender) (s : Reader) (ring : Ring)
      → Under messages user sent tx s ring
      → Drops sent tx s (try_abort tx ring)
  try_abort-Drops sent tx s ring u = elim (try_abort_lem s.receiver s.delivered tx ring u.joined) [
    | inl (off, _, _, _) ↦ absurd (cc (off, u.on))
    | inr (inl (_, _, code, same, kept, _)) ↦ rw (code, same, kept) (inr (refl, u))
    | inr (inr (_, code, off, joined, inl (none_yet, kept))) ↦
        let unsent : sent ≡ 0 = ground (arith, u.joined.sound, u.on, none_yet, u.at_byte) in
        inl (
          code,
          (
            ap (λ t. t.sending) off,
            joined,
            ap (λ r. carried s r) kept ∙ u.holds ∙ ap (λ n. shown messages (take n user)) unsent,
          ),
        )
    | inr (inr (_, code, off, joined, inr (part, logged))) ↦
        inl (code, (ap (λ t. t.sending) off, joined, logged ∙ ap discard (u.holds)))
  ]

  -- What the attempts to abort leave.
  Aborted : ℕ → Aborting Reader → Type 0
  Aborted sent a =
      (a.code ≡ none)
      ⊎ (((a.code ≡ some success) × Between messages a.tx a.state a.ring)
          ⊎ ((a.code ≡ some (failed eagain)) × Under messages user sent a.tx a.state a.ring))

  abort_rounds-Aborted :
      (notify : Bool) (pauses : List (Pause Reader)) (sent : ℕ) (tx : Sender) (s : Reader)
      (ring : Ring) (notified : ℕ)
      → ArePatient pauses
      → Under messages user sent tx s ring
      → Aborted sent (abort_rounds notify pauses tx s ring notified)
  unfolding abort_rounds Aborted is_eagain
  abort_rounds-Aborted notify [] sent tx s ring notified honest u = inl refl
  abort_rounds-Aborted notify (p ∷ pauses) sent tx s ring notified honest u =
      let (s', ring') = p.peer s ring in
      let a = try_abort tx ring' in
      let u' = peer-Under (p.peer) sent tx s ring (honest.0) u in
      elim (try_abort-Drops sent tx s' ring' u') [
        | inl (code, between) ↦ rw (abort_rounds, code) (inr (inl (refl, between)))
        | inr (code, still) ↦ elim (Bool-cases p.late) [
          | inl late ↦ rw (abort_rounds, code, late) (inr (inr (refl, still)))
          | inr early ↦
              rw (abort_rounds, code, early)
                (abort_rounds-Aborted notify pauses sent (a.1) s' (a.2) _ (honest.1) still)
        ]
      ]

  -- What a write leaves when it returns: the whole message, or none of it, or a part of it and a marked
  -- endpoint.
  abbrev pub Sends : Sending Reader → Type 0
  Sends o =
      (o.result ≡ none)
      ⊎ (((o.result ≡ some (done (length user)))
            × (o.endpoint.tx_error ≡ success)
            × Between (messages ++ (user ∷ [])) o.endpoint.tx o.state o.ring)
          ⊎ ((e : Errno) × (o.result ≡ some (failed e))
              × (((o.endpoint.tx_error ≡ success) × Between messages o.endpoint.tx o.state o.ring)
                  ⊎ ((o.endpoint.tx_error ≡ failed epipe)
                      × (sent : ℕ) × (sent < length user)
                      × Under messages user sent o.endpoint.tx o.state o.ring))))

  pub part_sent :
      (sent : ℕ) (tx : Sender) (s : Reader) (ring : Ring)
      → 0 < length user
      → Under messages user sent tx s ring
      → sent < length user
  part_sent sent tx s ring some_bytes u = ground (arith, u.joined.sound, u.on, u.at_byte, u.len)

  pub abort_send-Sends :
      (notify : Bool) (pauses : List (Pause Reader)) (e : Errno) (sent : ℕ) (endpoint : Endpoint)
      (s : Reader) (ring : Ring) (notified : ℕ)
      → ArePatient pauses
      → endpoint.tx_error ≡ success
      → 0 < length user
      → Under messages user sent endpoint.tx s ring
      → Sends (abort_send notify pauses e endpoint s ring notified)
  unfolding abort_send Aborted is_enomsg
  abort_send-Sends notify pauses e sent endpoint s ring notified honest fine some_bytes u =
      elim (abort_rounds-Aborted notify pauses sent endpoint.tx s ring notified honest u) [
        | inl waits ↦ rw (abort_send, waits) (inl refl)
        | inr (inl (code, between)) ↦
            rw (abort_send, code) (inr (inr (e, refl, inl (fine, between))))
        | inr (inr (code, still)) ↦
            rw (abort_send, code)
              (inr (inr (e, refl, inr (refl, sent, part_sent sent _ _ _ some_bytes still, still))))
      ]

  -- What one write of the next chunk does.
  abbrev Adds : ℕ → Reader → Wrote → Type 0
  Adds sent s w =
      (w.code ≡ success)
      × (((w.progress.complete ≡ true) × Between (messages ++ (user ∷ [])) w.sender s w.ring)
          ⊎ ((w.progress.complete ≡ false)
              × Under messages user (sent + w.progress.consumed) w.sender s w.ring))

  -- The bytes behind a write.
  joined_bytes :
      (sent taken chunk : ℕ)
      → taken ≤ length (take chunk (drop sent user))
      → sent ≤ length user
      → take sent user ++ take taken (take chunk (drop sent user)) ≡ take (sent + taken) user
  joined_bytes sent taken chunk fits within =
      ap (λ t. take sent user ++ t)
        (take-take taken chunk (drop sent user)
          (omega (arith, fits, length-take {0} chunk (drop sent user))))
      ∙ sym (take_add sent taken user within)

  published-Adds :
      (sent chunk : ℕ) (tx : Sender) (s : Reader) (ring : Ring) (w : Wrote)
      → Under messages user sent tx s ring
      → sent ≤ length user
      → Publishes s.receiver s.delivered tx ring (take chunk (drop sent user)) 0 w
      → Adds sent s w
  published-Adds sent chunk tx s ring w u within p =
      let bytes = joined_bytes sent p.taken chunk p.taken_in within in
      let logged =
        p.logged
        ∙ ap (λ l. extend l (take p.taken (take chunk (drop sent user))) w.progress.complete)
            (u.holds) in
      elim (p.completes) [
        | inl (whole, all, off) ↦ (
          p.code,
          inl (
            whole,
            (
              off,
              p.joined,
              rw whole at logged
                  ∙ ap (λ t. shown (messages ++ (t ∷ [])) [])
                      (bytes
                        ∙ ap (λ n. take n user) (omega (arith, all, u.at_byte, u.len))
                        ∙ take-length {0} user),
            ),
          ),
        )
        | inr (part, on, _) ↦ (
          p.code,
          inr (
            part,
            record {
              joined = p.joined;
              on = on ∙ u.on;
              len = ap (λ m. m.len) (p.same_message) ∙ u.len;
              at_byte = omega (arith, p.progressed, p.count, u.at_byte);
              holds =
                  rw part at logged
                  ∙ ap (λ t. shown messages t)
                      (bytes ∙ ap (λ n. take n user) (omega (arith, p.count)));
            },
          ),
        )
      ]

  pub write-Adds :
      (sent chunk : ℕ) (tx : Sender) (s : Reader) (ring : Ring)
      → Under messages user sent tx s ring
      → sent ≤ length user
      → Adds sent s (try_write tx ring (take chunk (drop sent user)))
  write-Adds sent chunk tx s ring u within =
      elim (try_write_lem s.receiver s.delivered tx ring (take chunk (drop sent user)) u.joined) [
        | inl (off, _) ↦ absurd (cc (off, u.on))
        | inr (inl (_, long, _)) ↦ absurd (
            omega (
              arith,
              long,
              u.len,
              u.at_byte,
              length-take {0} chunk (drop sent user),
              length-drop {0} sent user,
            ))
        | inr (inr (_, _, p)) ↦ published-Adds sent chunk tx s ring _ u within p
      ]

  pub within_message :
      (sent : ℕ) (tx : Sender) (s : Reader) (ring : Ring)
      → Under messages user sent tx s ring
      → sent ≤ length user
  within_message sent tx s ring u = ground (arith, u.joined.sound, u.on, u.at_byte, u.len)
