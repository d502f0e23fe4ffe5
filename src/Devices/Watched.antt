-- ===== src/Devices/Watched.antt =====
-- ivc/ivc.c: what holds of the subscriber devices under any order of calls, a subscription being taken whole.
use axvisor_tools.Common.{
  ℕ, Code, ◌+◌, ◌≡◌, inl, inr, refl, sym, ◌∙◌, arith, Bool, true, false, ◌&&◌, ◌||◌, Bool-cases,
  some, Option-cases, Result-cases, List, length,
}
use axvisor_tools.Devices.Publishers.{theirs, Kernel, find}
use axvisor_tools.Ring.Defs.{Ring}
use axvisor_tools.Devices.Send.{Pause, SendRound}
use axvisor_tools.Devices.Receive.{Round}
use axvisor_tools.Devices.Files.{
  after_read, after_write, after_read_lem, after_write_lem, subscriber_read, subscriber_write,
}
use axvisor_tools.Devices.Counted.{any}
use axvisor_tools.Devices.Table.{Inv, added-Inv, flagged-Inv, changed-Inv, kept-Inv, removed-Inv}
use axvisor_tools.Devices.Subscribers.{
  SubscriberVdev, Subscriptions, Look, fresh_subscriber, subscribe_channel, is_subscription,
  has_subscriber_id, unsubscribe_locked, unsubscribe_rest, open_subscriber, release_subscriber,
}
use axvisor_tools.Devices.Subscribed.{subscribe_channel_lem}
use axvisor_tools.Devices.SubscriberSteps.{
  SubscriberStep, subscribes, unsubscribe_begins, unsubscribe_ends, opens_subscriber,
  releases_subscriber, reads_subscriber, writes_subscriber, step,
}

-- No device is open while it is being removed.
abbrev pub IsExclusive : SubscriberVdev → Type 0
IsExclusive v = v.active && v.removing ≡ false

pub subscribes-Inv :
    (others : ℕ) (k : Kernel) (s : Subscriptions) (looks : List Look) (publisher_id key : ℕ)
    → Inv IsExclusive others s
    → Inv IsExclusive others (step k s (subscribes looks publisher_id key))
unfolding step
subscribes-Inv others k s looks publisher_id key inv =
    let s' = (subscribe_channel k looks s publisher_id key).1 in
    elim (subscribe_channel_lem any k publisher_id key looks s (length s.vdevs + others)
      (length s.vdevs + others) inv.holds) [
        | inl (waits, _, _, _) ↦ rw (step, waits) inv
        | inr (answer, returned, inl (e, _, same, count, holds)) ↦
            rw (step, returned) (added-Inv IsExclusive others s s' inv (inl (same, count, holds)))
        | inr (answer, returned, inr (id, shm, _, room, more, count, holds)) ↦
            rw (step, returned)
              (added-Inv IsExclusive others s s' inv
                (inr (fresh_subscriber id publisher_id key shm, refl, room, more, count, holds)))
      ]

-- The device that a search finds is the one that was found idle.
idle_found :
    (p : SubscriberVdev → Bool) (vs : List SubscriberVdev) (v w : SubscriberVdev)
    → find vs p ≡ some v
    → find vs p ≡ some w
    → v.active || v.removing ≡ false
    → (w.active ≡ false) × (w.removing ≡ false)
idle_found p vs v w e f idle = ground (arith, sym e ∙ f)

pub unsubscribe_locked-Inv :
    (others : ℕ) (s : Subscriptions) (publisher_id key : ℕ)
    → Inv IsExclusive others s
    → Inv IsExclusive others (unsubscribe_locked s publisher_id key).1
unfolding unsubscribe_locked
unsubscribe_locked-Inv others s publisher_id key inv =
    let p = is_subscription publisher_id key in
    elim (Option-cases (find s.vdevs p)) [
      | inl unknown ↦ rw (unsubscribe_locked, unknown) inv
      | inr (v, found) ↦ elim (Bool-cases (v.active || v.removing)) [
        | inl busy ↦ rw (unsubscribe_locked, found, busy) inv
        | inr free ↦
            rw (unsubscribe_locked, found, free)
              (flagged-Inv IsExclusive others p s (λ w. record w { removing = true })
                (λ w e. ground (arith, idle_found p s.vdevs v w found e free)) inv)
      ]
    ]

pub unsubscribe_rest-Inv :
    (others : ℕ) (k : Kernel) (s : Subscriptions) (publisher_id key id : ℕ) (v : SubscriberVdev)
    → find s.vdevs (has_subscriber_id id) ≡ some v
    → Inv IsExclusive others s
    → Inv IsExclusive others (unsubscribe_rest k s publisher_id key id).1
unfolding unsubscribe_rest
unsubscribe_rest-Inv others k s publisher_id key id v found inv =
    let p = has_subscriber_id id in
    elim (Result-cases (k.hvc_unsubscribe s.trace publisher_id key)) [
      | inl (e, bad) ↦
          rw (unsubscribe_rest, bad)
            (kept-Inv IsExclusive others p s (λ w. record w { removing = false })
              (λ w e. ground arith) inv)
      | inr (u, good) ↦
          rw (unsubscribe_rest, good)
            (removed-Inv IsExclusive others p s v (theirs publisher_id key) found inv)
    ]

open-Inv :
    (others : ℕ) (s : Subscriptions) (id : ℕ)
    → Inv IsExclusive others s
    → Inv IsExclusive others (open_subscriber s id).1
unfolding open_subscriber
open-Inv others s id inv =
    let p = has_subscriber_id id in
    elim (Option-cases (find s.vdevs p)) [
      | inl unknown ↦ rw (open_subscriber, unknown) inv
      | inr (v, found) ↦ elim (Bool-cases (v.active || v.removing)) [
        | inl busy ↦ rw (open_subscriber, found, busy) inv
        | inr free ↦
            rw (open_subscriber, found, free)
              (flagged-Inv IsExclusive others p s (λ w. record w { active = true })
                (λ w e. ground (arith, idle_found p s.vdevs v w found e free)) inv)
      ]
    ]

subscriber_read-IsExclusive :
    (locked : Code) (rounds : List (Round (Unit {0}))) (v : SubscriberVdev) (ring : Ring)
    (count : ℕ)
    → IsExclusive v
    → IsExclusive (subscriber_read locked rounds v tt ring count 0).0
unfolding subscriber_read
subscriber_read-IsExclusive locked rounds v ring count e = elim (Bool-cases v.active) [
  | inl opened ↦ rw (subscriber_read, opened) (ground (arith, opened, e))
  | inr closed ↦ rw (subscriber_read, closed) refl
]

subscriber_write-IsExclusive :
    (locked : Code) (pauses : List (Pause (Unit {0}))) (rounds : List (SendRound (Unit {0})))
    (user : List ℕ) (v : SubscriberVdev) (ring : Ring)
    → IsExclusive v
    → IsExclusive (subscriber_write locked pauses rounds user v tt ring 0).0
unfolding subscriber_write
subscriber_write-IsExclusive locked pauses rounds user v ring e = elim (Bool-cases v.active) [
  | inl opened ↦ rw (subscriber_write, opened) (ground (arith, opened, e))
  | inr closed ↦ rw (subscriber_write, closed) refl
]

pub step-Inv :
    (others : ℕ) (k : Kernel) (s : Subscriptions) (st : SubscriberStep)
    → Inv IsExclusive others s
    → Inv IsExclusive others (step k s st)
unfolding step release_subscriber
step-Inv others k s (subscribes looks publisher_id key) inv =
    subscribes-Inv others k s looks publisher_id key inv
step-Inv others k s (unsubscribe_begins publisher_id key) inv =
    unsubscribe_locked-Inv others s publisher_id key inv
step-Inv others k s (unsubscribe_ends id) inv =
    elim (Option-cases (find s.vdevs (has_subscriber_id id))) [
      | inl unknown ↦ rw (unknown, step) inv
      | inr (v, found) ↦ elim (Bool-cases v.removing) [
        | inl leaving ↦
            rw (found, step, leaving)
              (unsubscribe_rest-Inv others k s v.publisher_id v.key id v found inv)
        | inr stays ↦ rw (found, step, stays) inv
      ]
    ]
step-Inv others k s (opens_subscriber id) inv = open-Inv others s id inv
step-Inv others k s (releases_subscriber id) inv =
    flagged-Inv IsExclusive others (has_subscriber_id id) s (λ w. record w { active = false })
      (λ v e. refl) inv
step-Inv others k s (reads_subscriber id locked rounds ring count) inv =
    changed-Inv IsExclusive others (has_subscriber_id id) s
      (λ v. after_read v (subscriber_read locked rounds v tt ring count 0))
      (λ v e.
        after_read_lem IsExclusive v (subscriber_read locked rounds v tt ring count 0) e
          (subscriber_read-IsExclusive locked rounds v ring count e))
      inv
step-Inv others k s (writes_subscriber id locked pauses rounds user ring) inv =
    changed-Inv IsExclusive others (has_subscriber_id id) s
      (λ v. after_write v (subscriber_write locked pauses rounds user v tt ring 0))
      (λ v e.
        after_write_lem IsExclusive v (subscriber_write locked pauses rounds user v tt ring 0) e
          (subscriber_write-IsExclusive locked pauses rounds user v ring e))
      inv
