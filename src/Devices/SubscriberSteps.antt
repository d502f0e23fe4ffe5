-- ===== src/Devices/SubscriberSteps.antt =====
-- ivc/ivc.c: subscribing, unsubscribing, opening, reading, writing and closing of subscriber devices in
-- any order.
use axvisor_tools.Common.{ℕ, Code, none, some, List, [], ◌∷◌, if◌then◌else◌}
use axvisor_tools.Devices.Publishers.{Kernel, find, update}
use axvisor_tools.Ring.Defs.{Ring}
use axvisor_tools.Devices.Send.{Pause, SendRound}
use axvisor_tools.Devices.Receive.{Round}
use axvisor_tools.Devices.Files.{after_read, after_write, subscriber_read, subscriber_write}
use axvisor_tools.Devices.Subscribers.{
  Subscriptions, Look, subscribe_channel, has_subscriber_id, unsubscribe_locked, unsubscribe_rest,
  open_subscriber, release_subscriber,
}

-- The end of an unsubscription, and the open, the close, the read and the write of a file, name the device.
-- A read or a write is given the ring as it is then, and its rounds say what others do to it
-- meanwhile; it is a step when it returns.
pub data SubscriberStep : Type 0 where
  subscribes : List Look → ℕ → ℕ → SubscriberStep
  unsubscribe_begins : ℕ → ℕ → SubscriberStep
  unsubscribe_ends opens_subscriber releases_subscriber : ℕ → SubscriberStep
  reads_subscriber : ℕ → Code → List (Round (Unit {0})) → Ring → ℕ → SubscriberStep
  writes_subscriber :
      ℕ
      → Code
      → List (Pause (Unit {0}))
      → List (SendRound (Unit {0}))
      → List ℕ
      → Ring
      → SubscriberStep

-- A subscription is a step when it returns. A thread is behind the first part of an unsubscription exactly
-- where the device is marked.
unfoldable pub step : Kernel → Subscriptions → SubscriberStep → Subscriptions
step k s (subscribes looks publisher_id key) =
    let (r, s') = subscribe_channel k looks s publisher_id key in elim r [ none ↦ s | some _ ↦ s' ]
step k s (unsubscribe_begins publisher_id key) = (unsubscribe_locked s publisher_id key).1
step k s (unsubscribe_ends id) = elim (find s.vdevs (has_subscriber_id id)) [
  | none ↦ s
  | some v ↦ if v.removing then (unsubscribe_rest k s v.publisher_id v.key id).1 else s
]
step k s (opens_subscriber id) = (open_subscriber s id).1
step k s (releases_subscriber id) = release_subscriber s id
step k s (reads_subscriber id locked rounds ring count) = record s {
  vdevs =
      update s.vdevs (has_subscriber_id id)
        (λ v. after_read v (subscriber_read locked rounds v tt ring count 0));
}
step k s (writes_subscriber id locked pauses rounds user ring) = record s {
  vdevs =
      update s.vdevs (has_subscriber_id id)
        (λ v. after_write v (subscriber_write locked pauses rounds user v tt ring 0));
}

unfoldable pub run : Kernel → Subscriptions → List SubscriberStep → Subscriptions
run k s [] = s
run k s (st ∷ steps) = run k (step k s st) steps

-- The static variables of the driver when it is loaded.
abbrev pub no_subscriptions : Subscriptions
no_subscriptions = record { vdev_count = 0; next_vdev_id = 0; vdevs = []; trace = [] }
