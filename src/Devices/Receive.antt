-- ===== src/Devices/Receive.antt =====
-- ivc/ivc.c: `axivc_recv_message`, a read of a device. Between two accesses of the ring the peer may do
-- anything to it, and keeps a state of its own. What time, signals and the user's memory do is a parameter of each round.
use axvisor_tools.Common.{
  ℕ, Bool, ◌&&◌, not, true, false, Option, none, some, List, [], ◌∷◌, ◌++◌, ltb, ◌==◌,
  if◌then◌else◌, length, Result, done, failed, Errno, Code, emsgsize, efault, etimedout,
  erestartsys, eopnotsupp, econnreset,
}
use axvisor_tools.Ring.Defs.{Ring}
use axvisor_tools.Message.Frame.{axivc_fragment_capacity}
use axvisor_tools.Message.Sender.{Meta}
use axvisor_tools.Message.Receiver.{Receiver, receiver_poison, peek_meta, try_read}
use axvisor_tools.Devices.Send.{notify_publisher}

-- What the peer did to the ring before this round, whether the copy to the user succeeds, whether the
-- deadline has passed, and whether a signal ends the sleep.
pub record Round (S : Type 0) : Type 0 where
  pub peer : S → Ring → S × Ring
  pub copies : Bool
  pub late : Bool
  pub interrupted : Bool

-- What a call leaves: its result, if it has returned; the bytes in the user's buffer; and how often the
-- publisher was notified.
pub record Outcome (S : Type 0) : Type 0 where
  pub result : Option (Result ℕ)
  pub rx : Receiver
  pub state : S
  pub ring : Ring
  pub user : List ℕ
  pub notified : ℕ

unfoldable pub is_econnreset : Errno → Bool
is_econnreset econnreset = true
is_econnreset _ = false

abbrev pub returns : {S : Type 0} → Result ℕ → Receiver → S → Ring → List ℕ → ℕ → Outcome S
returns r rx s ring user notified = record {
  result = some r;
  rx = rx;
  state = s;
  ring = ring;
  user = user;
  notified = notified;
}

-- An error that poisons the receiver.
abbrev pub poisons : {S : Type 0} → Errno → Receiver → S → Ring → List ℕ → ℕ → Outcome S
poisons e rx s ring user notified =
    returns (failed e) (receiver_poison rx (failed e)) s ring user notified

-- The loop; with no round left the call has not returned yet.
unfoldable pub recv_rounds :
    {S : Type 0} → Bool → List (Round S) → Meta → Receiver → S → Ring → List ℕ → ℕ → Outcome S
recv_rounds notify [] meta rx s ring user notified = record {
  result = none;
  rx = rx;
  state = s;
  ring = ring;
  user = user;
  notified = notified;
}
recv_rounds notify (r ∷ rounds) meta rx s ring user notified =
    let (s', ring') = r.peer s ring in
    let got = try_read rx ring' axivc_fragment_capacity in
    let user' = user ++ got.output in
    let notified' =
      if ltb 0 got.progress.consumed_slots then notify_publisher notify notified else notified in
    let more = recv_rounds notify rounds meta got.receiver s' got.ring user' notified' in
    elim got.code [
      | failed e ↦
          returns (failed e) got.receiver s' got.ring user
            (if is_econnreset e then notify_publisher notify notified else notified)
      | done _ ↦
          if ltb 0 got.progress.written && not r.copies
          then poisons efault got.receiver s' got.ring user notified'
          else if got.progress.complete
          then returns (if meta.len == 0 then failed eopnotsupp else done (length user'))
              got.receiver s' got.ring user' notified'
          else if ltb 0 got.progress.consumed_slots
          then more
          else if r.late
          then poisons etimedout got.receiver s' got.ring user' notified'
          else if r.interrupted
          then poisons erestartsys got.receiver s' got.ring user' notified'
          else more
    ]

-- `locked` is what `mutex_lock_interruptible` answers.
unfoldable pub recv_message :
    {S : Type 0} → Bool → Code → List (Round S) → Receiver → S → Ring → ℕ → ℕ → Outcome S
recv_message notify locked rounds rx s ring count notified =
    if count == 0 then returns (done 0) rx s ring [] notified else elim locked [
      | failed e ↦ returns (failed e) rx s ring [] notified
      | done _ ↦
          let p = peek_meta rx ring in
          elim p.code [
            | failed e ↦ returns (failed e) p.receiver s ring [] notified
            | done _ ↦ elim p.metadata [
              | none ↦ returns (done 0) p.receiver s ring [] notified
              | some meta ↦
                  if ltb count meta.len
                  then returns (failed emsgsize) p.receiver s ring [] notified
                  else recv_rounds notify rounds meta p.receiver s ring [] notified
            ]
          ]
    ]
