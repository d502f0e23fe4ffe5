-- ===== src/Devices/Files.antt =====
-- ivc/ivc.c: the reads and writes of an open device file, `axivc_publisher_read`,
-- `axivc_publisher_write`, `axivc_subscriber_read` and `axivc_subscriber_write`. A subscriber
-- notifies the publisher, a publisher notifies no one.
use axvisor_tools.Common.{
  ℕ, true, false, inl, inr, none, some, Option-cases, List, [], if◌then◌else◌, failed, Code, enodev,
}
use axvisor_tools.Ring.Defs.{Ring}
use axvisor_tools.Devices.Publishers.{Vdev}
use axvisor_tools.Devices.Subscribers.{SubscriberVdev}
use axvisor_tools.Devices.Send.{Pause, SendRound, Sending, send_message}
use axvisor_tools.Devices.Receive.{Round, Outcome, recv_message}

-- A device behind a read or a write that has returned; one that has not is still under way.
abbrev pub after_read : {V S : Type 0} → V → V × Outcome S → V
after_read v (v', o) = elim o.result [ none ↦ v | some _ ↦ v' ]

abbrev pub after_write : {V S : Type 0} → V → V × Sending S → V
after_write v (v', o) = elim o.result [ none ↦ v | some _ ↦ v' ]

module _ {V S : Type 0} (P : V → Type 0) (v : V) where
  pub after_read_lem : (r : V × Outcome S) → P v → P r.0 → P (after_read v r)
  after_read_lem (v', o) before behind = elim (Option-cases o.result) [
    | inl waits ↦ rw waits before
    | inr (a, returned) ↦ rw returned behind
  ]

  pub after_write_lem : (r : V × Sending S) → P v → P r.0 → P (after_write v r)
  after_write_lem (v', o) before behind = elim (Option-cases o.result) [
    | inl waits ↦ rw waits before
    | inr (a, returned) ↦ rw returned behind
  ]

module _ {S : Type 0} (locked : Code) where
  unfoldable pub publisher_read : List (Round S) → Vdev → S → Ring → ℕ → ℕ → Vdev × Outcome S
  publisher_read rounds vdev s ring count notified =
      let o = recv_message false locked rounds vdev.endpoint.rx s ring count notified in
      if vdev.active then (record vdev { endpoint = record vdev.endpoint { rx = o.rx } }, o) else (
        vdev,
        record {
          result = some (failed enodev);
          rx = vdev.endpoint.rx;
          state = s;
          ring = ring;
          user = [];
          notified = notified;
        },
      )

  unfoldable pub publisher_write :
      List (Pause S) → List (SendRound S) → List ℕ → Vdev → S → Ring → ℕ → Vdev × Sending S
  publisher_write pauses rounds user vdev s ring notified =
      let o = send_message false locked pauses rounds user vdev.endpoint s ring notified in
      if vdev.active then (record vdev { endpoint = o.endpoint }, o) else (
        vdev,
        record {
          result = some (failed enodev);
          endpoint = vdev.endpoint;
          state = s;
          ring = ring;
          notified = notified;
        },
      )

  unfoldable pub subscriber_read :
      List (Round S) → SubscriberVdev → S → Ring → ℕ → ℕ → SubscriberVdev × Outcome S
  subscriber_read rounds vdev s ring count notified =
      let o = recv_message true locked rounds vdev.endpoint.rx s ring count notified in
      if vdev.active then (record vdev { endpoint = record vdev.endpoint { rx = o.rx } }, o) else (
        vdev,
        record {
          result = some (failed enodev);
          rx = vdev.endpoint.rx;
          state = s;
          ring = ring;
          user = [];
          notified = notified;
        },
      )

  unfoldable pub subscriber_write :
      List (Pause S)
      → List (SendRound S)
      → List ℕ
      → SubscriberVdev
      → S
      → Ring
      → ℕ
      → SubscriberVdev × Sending S
  subscriber_write pauses rounds user vdev s ring notified =
      let o = send_message true locked pauses rounds user vdev.endpoint s ring notified in
      if vdev.active then (record vdev { endpoint = o.endpoint }, o) else (
        vdev,
        record {
          result = some (failed enodev);
          endpoint = vdev.endpoint;
          state = s;
          ring = ring;
          notified = notified;
        },
      )
