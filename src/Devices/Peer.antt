-- ===== src/Devices/Peer.antt =====
-- The peer of an endpoint of ivc/ivc.c that keeps to ivc/message.c on the other end of the ring.
use axvisor_tools.Common.{ℕ, ◌≡◌, refl, sym, List, All}
use axvisor_tools.Ring.Defs.{Ring}
use axvisor_tools.Ring.Refine.{contents}
use axvisor_tools.Message.Sender.{Sender}
use axvisor_tools.Message.Receiver.{Receiver, try_read}
use axvisor_tools.Message.Joined.{Joined, Log, absorb_all}
use axvisor_tools.Message.Read.{try_read-Reads}
use axvisor_tools.Message.Link.{note_read}
use axvisor_tools.Message.Delivery.{read_carried}
use axvisor_tools.Devices.Send.{Pause, SendRound}

-- A receiver, and what its owner has been shown.
pub record Reader : Type 0 where
  pub receiver : Receiver
  pub delivered : Log

-- What the owner will have been shown once the ring is empty.
abbrev pub carried : Reader → Ring → Log
carried s ring = absorb_all s.delivered (contents ring)

-- The peer keeps the two ends joined, and loses and adds nothing.
abbrev pub IsHonest : (Reader → Ring → Reader × Ring) → Type 0
IsHonest peer =
    (s : Reader) (ring : Ring) (tx : Sender)
    → Joined s.receiver tx ring
    → Joined (peer s ring).0.receiver tx (peer s ring).1
      × (carried (peer s ring).0 (peer s ring).1 ≡ carried s ring)

abbrev pub AreHonest : List (SendRound Reader) → Type 0
AreHonest rounds = All (λ r. IsHonest (r.peer)) rounds

abbrev pub ArePatient : List (Pause Reader) → Type 0
ArePatient pauses = All (λ p. IsHonest (p.peer)) pauses

-- A peer that reads once, with room for so many bytes, and one that does nothing.
abbrev pub reads_on : ℕ → Reader → Ring → Reader × Ring
reads_on output_len s ring =
    let r = try_read s.receiver ring output_len in
    (record { receiver = r.receiver; delivered = note_read r s.delivered }, r.ring)

abbrev pub rests : Reader → Ring → Reader × Ring
rests s ring = (s, ring)

pub reads_on-IsHonest : (output_len : ℕ) → IsHonest (reads_on output_len)
reads_on-IsHonest output_len s ring tx joined =
    let reads = try_read-Reads tx output_len s.receiver s.delivered ring joined in
    (
      reads.joined,
      sym (read_carried tx s.delivered s.receiver ring (try_read s.receiver ring output_len) reads),
    )

pub rests-IsHonest : IsHonest rests
rests-IsHonest s ring tx joined = (joined, refl)
