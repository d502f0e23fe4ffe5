-- ===== src/Devices/Live.antt =====
-- ivc/ivc.c over ivc/message.c: a write of a device gets its message out while the reader keeps reading.
use axvisor_tools.Common.{
  ℕ, zero, suc, ◌+◌, ◌-◌, ◌*◌, ◌^◌, ◌<◌, ◌≤◌, min, ◌≡◌, ◌≢◌, ◌⊎◌, inl, inr, refl, ◌∙◌, ap, arith,
  Bool, true, false, ◌&&◌, some, not, Bool-cases, List, [], ◌∷◌, length, take, drop, length-take,
  length-drop, length-zero, ltb, ◌==◌, done, success, All,
}
use axvisor_tools.Ring.Defs.{Ring, axivc_ring_capacity}
use axvisor_tools.Ring.Refine.{contents, length-window}
use axvisor_tools.Ring.Inv.{used}
use axvisor_tools.Message.Frame.{axivc_fragment_capacity}
use axvisor_tools.Message.Sender.{Sender, Wrote, u64, start, try_write, write_loop, stop_writing}
use axvisor_tools.Message.Receiver.{Receiver}
use axvisor_tools.Message.Joined.{Joined, Log, IsActive}
use axvisor_tools.Message.Publish.{publish_fragment}
use axvisor_tools.Devices.Publishers.{Endpoint}
use axvisor_tools.Devices.Send.{
  Pause, SendRound, Sending, notify_publisher, send_rounds, send_message,
}
use axvisor_tools.Devices.Peer.{Reader, IsHonest, reads_on, reads_on-IsHonest}
use axvisor_tools.Message.Read.{try_read-Reads}
use axvisor_tools.Devices.Under.{Under, Between, peer-Under, write-Adds, part_sent}
use axvisor_tools.Devices.Whole.{start-Under}

write_loop_nothing :
    (fuel : ℕ) (tx : Sender) (ring : Ring) (consumed published_slots : ℕ)
    → write_loop fuel [] tx ring consumed published_slots
      ≡ stop_writing tx ring consumed published_slots
unfolding write_loop
write_loop_nothing zero tx ring consumed published_slots = refl
write_loop_nothing (suc fuel) tx ring consumed published_slots = refl

-- Everything is taken.
abbrev Takes : List ℕ → Wrote → Type 0
Takes input w = (w.progress.consumed ≡ length input) × (0 < w.progress.published_slots)

module _ (receiver : Receiver) (log : Log) where
  loop-Takes :
      (fuel : ℕ) (x : ℕ) (xs : List ℕ) (tx : Sender) (ring : Ring)
      → Joined receiver tx ring
      → IsActive tx
      → tx.sent + length (x ∷ xs) ≤ tx.active.len
      → length (x ∷ xs) ≤ axivc_fragment_capacity
      → length (contents ring) < axivc_ring_capacity
      → Takes (x ∷ xs) (write_loop (suc fuel) (x ∷ xs) tx ring 0 0)
  unfolding write_loop
  loop-Takes fuel x xs tx ring joined act fits small room =
      let n = min axivc_fragment_capacity (length (x ∷ xs)) in
      let (slot, e, pushes) =
        publish_fragment receiver log tx ring (x ∷ xs) n joined act (omega arith) (omega arith)
          (omega arith) (omega arith) in
      elim pushes [
        | inl (refused, full) ↦ absurd (omega arith)
        | inr (ring', pushed, _, _) ↦ elim (Bool-cases (u64 (tx.sent + n) == tx.active.len)) [
          | inl c ↦ rw (e, write_loop, pushed, c) (omega arith, omega arith)
          | inr c ↦
              let nothing =
                length-zero (drop n (x ∷ xs)) (omega (arith, length-drop {0} n (x ∷ xs))) in
              rw (e, write_loop, pushed, c, nothing, write_loop_nothing) (omega arith, omega arith)
        ]
      ]

  -- A write of at most a fragment into a ring with room takes all of it.
  write-Takes :
      (input : List ℕ) (tx : Sender) (ring : Ring)
      → Joined receiver tx ring
      → tx.sending ≡ true
      → tx.sent + length input ≤ tx.active.len
      → 0 < length input
      → length input ≤ axivc_fragment_capacity
      → length (contents ring) < axivc_ring_capacity
      → Takes input (try_write tx ring input)
  unfolding try_write
  write-Takes [] tx ring joined on fits pos small room = absurd (omega arith)
  write-Takes (x ∷ xs) tx ring joined on fits pos small room = elim (joined.sound.1) [
    | inl off ↦ absurd (cc (on, off))
    | inr act ↦
        let runs : try_write tx ring (x ∷ xs) ≡ write_loop (length (x ∷ xs)) (x ∷ xs) tx ring 0 0 =
          ground (arith, act) in
        rw runs (loop-Takes (length xs) x xs tx ring joined act fits small room)
  ]

-- The peer is honest, and leaves room for a slot.
abbrev pub MakesRoom : (Reader → Ring → Reader × Ring) → Type 0
MakesRoom peer =
    IsHonest peer
    × ((s : Reader) (ring : Ring) (tx : Sender)
        → Joined s.receiver tx ring
        → length (contents (peer s ring).1) < axivc_ring_capacity)

-- The reader makes room, and the copy from the user succeeds.
abbrev pub IsReady : SendRound Reader → Type 0
IsReady r = MakesRoom (r.peer) × (r.copies ≡ true)

pub reads_on-MakesRoom :
    (output_len : ℕ) → axivc_fragment_capacity ≤ output_len → MakesRoom (reads_on output_len)
reads_on-MakesRoom output_len big = (
  reads_on-IsHonest output_len,
  λ s ring tx joined.
      let reads = try_read-Reads tx output_len s.receiver s.delivered ring joined in
      elim (reads.freed) [
        | inl less ↦
            omega (arith, less, joined.valid.room, length-window ring.slots ring.head (used ring))
        | inr (same, inl (inl consumed)) ↦ absurd (omega (arith, consumed))
        | inr (same, inl (inr empty)) ↦ omega (arith, same, ap length empty)
        | inr (same, inr little) ↦ absurd (omega (arith, little, big))
      ],
)

module _ (messages : List (List ℕ)) (user : List ℕ) where
  -- The write returns the length of the message, and if it is to notify, it has.
  abbrev pub Finishes : Bool → ℕ → Sending Reader → Type 0
  Finishes notify notified o =
      (o.result ≡ some (done (length user))) × ((notify ≡ false) ⊎ (notified < o.notified))

  later :
      (notify : Bool) (notified : ℕ) (o : Sending Reader)
      → Finishes notify (notify_publisher notify notified) o
      → Finishes notify notified o
  later notify notified o (result, counted) = (result, ground (arith, counted))

  -- What a write of the next chunk does when there is room.
  ready_write :
      (sent chunk : ℕ) (tx : Sender) (s : Reader) (ring : Ring)
      → Under messages user sent tx s ring
      → 0 < chunk
      → chunk ≤ axivc_fragment_capacity
      → sent + chunk ≤ length user
      → length (contents ring) < axivc_ring_capacity
      → let w = try_write tx ring (take chunk (drop sent user)) in
        (w.progress.consumed ≡ chunk) × (0 < w.progress.published_slots)
  ready_write sent chunk tx s ring u pos small fits room =
      let n : length (take chunk (drop sent user)) ≡ chunk =
        omega (arith, length-take {0} chunk (drop sent user), length-drop {0} sent user) in
      let (all, slots) =
        write-Takes s.receiver s.delivered (take chunk (drop sent user)) tx ring u.joined u.on
          (omega (arith, n, u.at_byte, u.len)) (omega (arith, n)) (omega (arith, n)) room in
      (all ∙ n, slots)

  send_rounds-Finishes :
      (notify : Bool) (pauses : List (Pause Reader)) (rounds : List (SendRound Reader)) (sent : ℕ)
      (endpoint : Endpoint) (s : Reader) (ring : Ring) (notified : ℕ)
      → length user < 2 ^ 64
      → All IsReady rounds
      → sent < length user
      → length user ≤ sent + axivc_fragment_capacity * length rounds
      → Under messages user sent endpoint.tx s ring
      → Finishes notify notified
          (send_rounds notify pauses rounds user sent endpoint s ring notified)
  unfolding send_rounds
  send_rounds-Finishes notify pauses [] sent endpoint s ring notified small ready more_left enough
        u =
      absurd (omega arith)
  send_rounds-Finishes notify pauses (r ∷ rounds) sent endpoint s ring notified small
        ((peer, copies), ready) more_left enough u =
      let chunk = min axivc_fragment_capacity (u64 (length user + 2 ^ 64 - sent)) in
      let (s', ring') = r.peer s ring in
      let w = try_write endpoint.tx ring' (take chunk (drop sent user)) in
      let endpoint' = record endpoint { tx = w.sender } in
      let u' = peer-Under messages user (r.peer) sent (endpoint.tx) s ring (peer.0) u in
      let room = peer.1 s ring (endpoint.tx) u.joined in
      let (all, slots) =
        ready_write sent chunk (endpoint.tx) s' ring' u' (omega arith) (omega arith) (omega arith)
          room in
      let published : ltb 0 w.progress.published_slots ≡ true = ground (arith, slots) in
      let copied : ltb 0 chunk && not r.copies ≡ false = ground (arith, copies) in
      let counted : (notify ≡ false) ⊎ (notified < notify_publisher notify notified) =
        ground arith in
      let (code, adds) =
        write-Adds messages user sent chunk (endpoint.tx) s' ring' u' (omega arith) in
      elim adds [
        | inl (whole, between) ↦ rw (send_rounds, copied, code, whole, published) (refl, counted)
        | inr (part, under) ↦
            let going =
              part_sent messages user (sent + w.progress.consumed) w.sender s' w.ring (omega arith)
                under in
            let n = notify_publisher notify notified in
            let o =
              send_rounds notify pauses rounds user (sent + w.progress.consumed) endpoint' s' w.ring
                n in
            let rest : Finishes notify n o =
              send_rounds-Finishes notify pauses rounds (sent + w.progress.consumed) endpoint' s'
                w.ring n small ready going (omega (arith, all, going)) under in
            rw (send_rounds, copied, code, part, published) (later notify notified o rest)
      ]

  -- Over a ring with an honest reader that makes room for a slot before each round, and with copies from
  -- the user that succeed, a write of a device of a message that is not empty returns its length within as
  -- many rounds as the message has fragments, whatever the clock and the signals; and if it is to
  -- notify, it has called the hypervisor. The lock is got, the endpoint is idle and without a mark, and
  -- its message ids are not used up.
  pub send_message_live :
      (notify : Bool) (pauses : List (Pause Reader)) (rounds : List (SendRound Reader))
      (endpoint : Endpoint) (s : Reader) (ring : Ring) (notified : ℕ)
      → 0 < length user
      → length user < 2 ^ 64
      → All IsReady rounds
      → length user ≤ axivc_fragment_capacity * length rounds
      → endpoint.tx_error ≡ success
      → endpoint.tx.next_message_id ≢ 0
      → Between messages (endpoint.tx) s ring
      → Finishes notify notified
          (send_message notify success pauses rounds user endpoint s ring notified)
  unfolding send_message
  send_message_live notify pauses rounds endpoint s ring notified some_bytes small ready enough fine
        fresh between =
      let begun = (start endpoint.tx (length user)).1 in
      let runs : send_message notify success pauses rounds user endpoint s ring notified
          ≡ send_rounds notify pauses rounds user 0 (record endpoint { tx = begun }) s ring
              notified =
        unfold start in ground (arith, fine, between.0, fresh) in
      rw runs (
        send_rounds-Finishes notify pauses rounds 0 (record endpoint { tx = begun }) s ring notified
          small ready some_bytes (omega (arith, enough))
          (start-Under messages user (endpoint.tx) s ring small fresh between))
