-- ===== src/Devices/Send.antt =====
-- ivc/ivc.c: `axivc_send_message`, a write of a device, with `axivc_abort_send` and
-- `axivc_notify_publisher`. Between two accesses of the ring the peer may do anything to it, and keeps a
-- state of its own. What time, signals and the user's memory do is a parameter of each round.
use axvisor_tools.Common.{
  ℕ, ◌+◌, ◌-◌, ◌^◌, min, Bool, true, false, ◌&&◌, not, Option, none, some, List, [], ◌∷◌, ltb, ◌==◌,
  if◌then◌else◌, length, take, drop, Result, done, failed, Errno, Code, eagain, enomsg, epipe,
  efault, etimedout, erestartsys, eopnotsupp,
}
use axvisor_tools.Ring.Defs.{Ring}
use axvisor_tools.Message.Frame.{axivc_fragment_capacity}
use axvisor_tools.Message.Sender.{Sender, u64, start, try_write, try_abort}
use axvisor_tools.Devices.Publishers.{Endpoint}

-- One attempt to abort: what the peer did before it, and whether the deadline has passed behind it.
pub record Pause (S : Type 0) : Type 0 where
  pub peer : S → Ring → S × Ring
  pub late : Bool

-- What the peer did to the ring before this round, whether the copy from the user succeeds, whether
-- the deadline has passed, and whether a signal ends the sleep.
pub record SendRound (S : Type 0) : Type 0 where
  pub peer : S → Ring → S × Ring
  pub copies : Bool
  pub late : Bool
  pub interrupted : Bool

-- The calls of the hypervisor are counted; what it answers is only logged.
abbrev pub notify_publisher : Bool → ℕ → ℕ
notify_publisher enabled notified = if enabled then notified + 1 else notified

unfoldable pub is_eagain : Code → Bool
is_eagain (failed eagain) = true
is_eagain _ = false

unfoldable pub is_enomsg : Errno → Bool
is_enomsg enomsg = true
is_enomsg _ = false

-- What the attempts leave: the last answer, unless the loop goes on.
pub record Aborting (S : Type 0) : Type 0 where
  pub code : Option Code
  pub tx : Sender
  pub state : S
  pub ring : Ring
  pub notified : ℕ

-- The loop of `axivc_abort_send`.
unfoldable pub abort_rounds :
    {S : Type 0} → Bool → List (Pause S) → Sender → S → Ring → ℕ → Aborting S
abort_rounds notify [] tx s ring notified = record {
  code = none;
  tx = tx;
  state = s;
  ring = ring;
  notified = notified;
}
abort_rounds notify (p ∷ pauses) tx s ring notified =
    let (s', ring') = p.peer s ring in
    let (err, tx', ring'') = try_abort tx ring' in
    let more = abort_rounds notify pauses tx' s' ring'' (notify_publisher notify notified) in
    if not (is_eagain err)
    then record { code = some err; tx = tx'; state = s'; ring = ring''; notified = notified }
    else if p.late
    then record {
      code = some err;
      tx = tx';
      state = s';
      ring = ring'';
      notified = notify_publisher notify notified;
    }
    else more

-- What a call leaves; it has returned if there is a result.
pub record Sending (S : Type 0) : Type 0 where
  pub result : Option (Result ℕ)
  pub endpoint : Endpoint
  pub state : S
  pub ring : Ring
  pub notified : ℕ

-- `axivc_abort_send`, and the return of `err` behind it.
unfoldable pub abort_send :
    {S : Type 0} → Bool → List (Pause S) → Errno → Endpoint → S → Ring → ℕ → Sending S
abort_send notify pauses e endpoint s ring notified =
    let a = abort_rounds notify pauses endpoint.tx s ring notified in
    let published = endpoint.tx.published_any in
    elim a.code [
      | none ↦ record {
        result = none;
        endpoint = record endpoint { tx = a.tx };
        state = a.state;
        ring = a.ring;
        notified = a.notified;
      }
      | some err ↦ elim err [
        | done _ ↦ record {
          result = some (failed e);
          endpoint = record endpoint { tx = a.tx };
          state = a.state;
          ring = a.ring;
          notified = if published then notify_publisher notify a.notified else a.notified;
        }
        | failed err' ↦ record {
          result = some (failed e);
          endpoint =
              if is_enomsg err'
              then record endpoint { tx = a.tx }
              else record endpoint { tx = a.tx; tx_error = failed epipe };
          state = a.state;
          ring = a.ring;
          notified = a.notified;
        }
      ]
    ]

-- The loop of `axivc_send_message`; with no round left the call has not returned yet.
unfoldable pub send_rounds :
    {S : Type 0}
    → Bool
    → List (Pause S)
    → List (SendRound S)
    → List ℕ
    → ℕ
    → Endpoint
    → S
    → Ring
    → ℕ
    → Sending S
send_rounds notify pauses [] user sent endpoint s ring notified = record {
  result = none;
  endpoint = endpoint;
  state = s;
  ring = ring;
  notified = notified;
}
send_rounds notify pauses (r ∷ rounds) user sent endpoint s ring notified =
    let count = length user in
    let chunk = min axivc_fragment_capacity (u64 (count + 2 ^ 64 - sent)) in
    let (s', ring') = r.peer s ring in
    let w = try_write endpoint.tx ring' (take chunk (drop sent user)) in
    let sent' = sent + w.progress.consumed in
    let published = ltb 0 w.progress.published_slots in
    let notified' = if published then notify_publisher notify notified else notified in
    let endpoint' = record endpoint { tx = w.sender } in
    let more = send_rounds notify pauses rounds user sent' endpoint' s' w.ring notified' in
    if ltb 0 chunk && not r.copies
    then abort_send notify pauses efault endpoint s' ring' notified
    else elim w.code [
      | failed e ↦ abort_send notify pauses e endpoint' s' w.ring notified
      | done _ ↦
          if w.progress.complete
          then record {
            result = some (done count);
            endpoint = endpoint';
            state = s';
            ring = w.ring;
            notified = notified';
          }
          else if published
          then more
          else if r.late
          then abort_send notify pauses etimedout endpoint' s' w.ring notified'
          else if r.interrupted
          then abort_send notify pauses erestartsys endpoint' s' w.ring notified'
          else more
    ]

-- A return before the loop.
abbrev pub refuses : {S : Type 0} → Errno → Endpoint → S → Ring → ℕ → Sending S
refuses e endpoint s ring notified = record {
  result = some (failed e);
  endpoint = endpoint;
  state = s;
  ring = ring;
  notified = notified;
}

-- `locked` is what `mutex_lock_interruptible` answers; `user` is the user's buffer.
unfoldable pub send_message :
    {S : Type 0}
    → Bool
    → Code
    → List (Pause S)
    → List (SendRound S)
    → List ℕ
    → Endpoint
    → S
    → Ring
    → ℕ
    → Sending S
send_message notify locked pauses rounds user endpoint s ring notified =
    if length user == 0 then refuses eopnotsupp endpoint s ring notified else elim locked [
      | failed e ↦ refuses e endpoint s ring notified
      | done _ ↦ elim endpoint.tx_error [
        | failed e ↦ refuses e endpoint s ring notified
        | done _ ↦
            let (err, tx) = start endpoint.tx (length user) in
            elim err [
              | failed e ↦ refuses e (record endpoint { tx = tx }) s ring notified
              | done _ ↦
                  send_rounds notify pauses rounds user 0 (record endpoint { tx = tx }) s ring
                    notified
            ]
      ]
    ]
