-- ===== src/Devices/SubscriberRest.antt =====
-- ivc/ivc.c: the endpoints of the subscriber devices between two calls.
use axvisor_tools.Common.{
  ℕ, ◌+◌, ◌≢◌, inl, inr, refl, sym, subst, arith, true, false, Bool-cases, Option-cases,
  Result-cases, List, [], ◌∷◌, length, All, All-append, Code, ◌||◌,
}
use axvisor_tools.Ring.Defs.{Ring}
use axvisor_tools.Devices.Kept.{write_ends}
use axvisor_tools.Message.Sender.{sender_init}
use axvisor_tools.Message.Receiver.{ReceiverState, receiver_init}
use axvisor_tools.Devices.Counted.{any}
use axvisor_tools.Devices.Found.{changed-All, delete-All}
use axvisor_tools.Devices.Table.{Inv}
use axvisor_tools.Devices.Send.{Pause, SendRound, send_message}
use axvisor_tools.Devices.Receive.{Round, recv_message}
use axvisor_tools.Devices.Boundary.{recv_message-IsBoundary}
use axvisor_tools.Devices.Settled.{IsSettled}
use axvisor_tools.Devices.Publishers.{Kernel, find}
use axvisor_tools.Devices.Subscribers.{
  SubscriberVdev, Subscriptions, Look, fresh_subscriber, is_subscription, has_subscriber_id,
  unsubscribe_locked, unsubscribe_rest, open_subscriber, release_subscriber,
}
use axvisor_tools.Devices.Subscribed.{subscribe_channel_lem}
use axvisor_tools.Devices.Files.{after_read, after_write, subscriber_read, subscriber_write}
use axvisor_tools.Devices.SubscriberSteps.{
  SubscriberStep, subscribes, unsubscribe_begins, unsubscribe_ends, opens_subscriber,
  releases_subscriber, reads_subscriber, writes_subscriber, step, run, no_subscriptions,
}
use axvisor_tools.Devices.Watched.{IsExclusive, step-Inv}

-- No message is half received, and none is half sent and unmarked.
abbrev pub IsAtRest : SubscriberVdev → Type 0
IsAtRest v = (v.endpoint.rx.state ≢ ReceiverState.receiving) × IsSettled v.endpoint

subscriber_read-IsAtRest :
    (locked : Code) (rounds : List (Round (Unit {0}))) (v : SubscriberVdev) (ring : Ring)
    (count : ℕ)
    → IsAtRest v
    → IsAtRest (after_read v (subscriber_read locked rounds v tt ring count 0))
unfolding subscriber_read
subscriber_read-IsAtRest locked rounds v ring count (still, settled) =
    let o = recv_message true locked rounds v.endpoint.rx tt ring count 0 in
    elim (Bool-cases v.active) [
      | inr closed ↦ rw (subscriber_read, closed) (still, settled)
      | inl opened ↦ elim (Option-cases o.result) [
        | inl waits ↦ rw (subscriber_read, opened, waits) (still, settled)
        | inr (r, returned) ↦
            rw (subscriber_read, opened, returned)
              (
                elim (recv_message-IsBoundary true locked rounds v.endpoint.rx tt ring count 0
                    still) [ inl waits ↦ absurd (cc (returned, waits)) | inr ends ↦ ends ],
                settled,
              )
      ]
    ]

subscriber_write-IsAtRest :
    (locked : Code) (pauses : List (Pause (Unit {0}))) (rounds : List (SendRound (Unit {0})))
    (user : List ℕ) (v : SubscriberVdev) (ring : Ring)
    → IsAtRest v
    → IsAtRest (after_write v (subscriber_write locked pauses rounds user v tt ring 0))
unfolding subscriber_write
subscriber_write-IsAtRest locked pauses rounds user v ring (still, settled) =
    let o = send_message true locked pauses rounds user v.endpoint tt ring 0 in
    elim (Bool-cases v.active) [
      | inr closed ↦ rw (subscriber_write, closed) (still, settled)
      | inl opened ↦ elim (Option-cases o.result) [
        | inl waits ↦ rw (subscriber_write, opened, waits) (still, settled)
        | inr (r, returned) ↦
            let (same, ends) =
              write_ends true locked pauses rounds user v.endpoint ring r settled returned in
            rw (subscriber_write, opened, returned) (rw same still, ends)
      ]
    ]

subscribes-IsAtRest :
    (k : Kernel) (s : Subscriptions) (looks : List Look) (publisher_id key : ℕ)
    → Inv IsExclusive 0 s
    → All IsAtRest s.vdevs
    → All IsAtRest (step k s (subscribes looks publisher_id key)).vdevs
unfolding step sender_init receiver_init
subscribes-IsAtRest k s looks publisher_id key inv rests =
    elim (subscribe_channel_lem any k publisher_id key looks s (length s.vdevs + 0)
      (length s.vdevs + 0) inv.holds) [
        | inl (waits, _, _, _) ↦ rw (step, waits) rests
        | inr (answer, returned, inl (e, _, same, count, holds)) ↦
            rw (step, returned) (subst (All IsAtRest) (sym same) rests)
        | inr (answer, returned, inr (id, shm, _, room, more, count, holds)) ↦
            rw (step, returned)
              (subst (All IsAtRest) (sym more) (
                All-append IsAtRest s.vdevs (fresh_subscriber id publisher_id key shm) rests
                  ((λ e. cc e), inl (refl, refl))))
      ]

unsubscribe_locked-IsAtRest :
    (s : Subscriptions) (publisher_id key : ℕ)
    → All IsAtRest s.vdevs
    → All IsAtRest (unsubscribe_locked s publisher_id key).1.vdevs
unfolding unsubscribe_locked
unsubscribe_locked-IsAtRest s publisher_id key rests =
    elim (Option-cases (find s.vdevs (is_subscription publisher_id key))) [
      | inl unknown ↦ rw (unsubscribe_locked, unknown) rests
      | inr (v, found) ↦ elim (Bool-cases (v.active || v.removing)) [
        | inl busy ↦ rw (unsubscribe_locked, found, busy) rests
        | inr free ↦
            rw (unsubscribe_locked, found, free)
              (changed-All (is_subscription publisher_id key) IsAtRest s.vdevs
                (λ w. record w { removing = true }) (λ w e. e) rests)
      ]
    ]

unsubscribe_rest-IsAtRest :
    (k : Kernel) (s : Subscriptions) (publisher_id key id : ℕ)
    → All IsAtRest s.vdevs
    → All IsAtRest (unsubscribe_rest k s publisher_id key id).1.vdevs
unfolding unsubscribe_rest
unsubscribe_rest-IsAtRest k s publisher_id key id rests =
    elim (Result-cases (k.hvc_unsubscribe s.trace publisher_id key)) [
      | inl (e, bad) ↦
          rw (unsubscribe_rest, bad)
            (changed-All (has_subscriber_id id) IsAtRest s.vdevs
              (λ w. record w { removing = false }) (λ w e. e) rests)
      | inr (u, good) ↦
          rw (unsubscribe_rest, good) (delete-All (has_subscriber_id id) IsAtRest s.vdevs rests)
    ]

open-IsAtRest :
    (s : Subscriptions) (id : ℕ)
    → All IsAtRest s.vdevs
    → All IsAtRest (open_subscriber s id).1.vdevs
unfolding open_subscriber
open-IsAtRest s id rests = elim (Option-cases (find s.vdevs (has_subscriber_id id))) [
  | inl unknown ↦ rw (open_subscriber, unknown) rests
  | inr (v, found) ↦ elim (Bool-cases (v.active || v.removing)) [
    | inl busy ↦ rw (open_subscriber, found, busy) rests
    | inr free ↦
        rw (open_subscriber, found, free)
          (changed-All (has_subscriber_id id) IsAtRest s.vdevs (λ w. record w { active = true })
            (λ w e. e) rests)
  ]
]

step-IsAtRest :
    (k : Kernel) (s : Subscriptions) (st : SubscriberStep)
    → Inv IsExclusive 0 s
    → All IsAtRest s.vdevs
    → All IsAtRest (step k s st).vdevs
unfolding step release_subscriber
step-IsAtRest k s (subscribes looks publisher_id key) inv rests =
    subscribes-IsAtRest k s looks publisher_id key inv rests
step-IsAtRest k s (unsubscribe_begins publisher_id key) inv rests =
    unsubscribe_locked-IsAtRest s publisher_id key rests
step-IsAtRest k s (unsubscribe_ends id) inv rests =
    elim (Option-cases (find s.vdevs (has_subscriber_id id))) [
      | inl unknown ↦ rw (unknown, step) rests
      | inr (v, found) ↦ elim (Bool-cases v.removing) [
        | inl leaving ↦
            rw (found, step, leaving) (unsubscribe_rest-IsAtRest k s v.publisher_id v.key id rests)
        | inr stays ↦ rw (found, step, stays) rests
      ]
    ]
step-IsAtRest k s (opens_subscriber id) inv rests = open-IsAtRest s id rests
step-IsAtRest k s (releases_subscriber id) inv rests =
    changed-All (has_subscriber_id id) IsAtRest s.vdevs (λ w. record w { active = false })
      (λ w e. e) rests
step-IsAtRest k s (reads_subscriber id locked rounds ring count) inv rests =
    changed-All (has_subscriber_id id) IsAtRest s.vdevs
      (λ v. after_read v (subscriber_read locked rounds v tt ring count 0))
      (λ v e. subscriber_read-IsAtRest locked rounds v ring count e) rests
step-IsAtRest k s (writes_subscriber id locked pauses rounds user ring) inv rests =
    changed-All (has_subscriber_id id) IsAtRest s.vdevs
      (λ v. after_write v (subscriber_write locked pauses rounds user v tt ring 0))
      (λ v e. subscriber_write-IsAtRest locked pauses rounds user v ring e) rests

run-IsAtRest :
    (k : Kernel) (s : Subscriptions) (steps : List SubscriberStep)
    → Inv IsExclusive 0 s
    → All IsAtRest s.vdevs
    → All IsAtRest (run k s steps).vdevs
unfolding run
run-IsAtRest k s [] inv rests = rests
run-IsAtRest k s (st ∷ steps) inv rests =
    run-IsAtRest k (step k s st) steps (step-Inv 0 k s st inv) (step-IsAtRest k s st inv rests)

-- The same of the subscriber devices: from the load of the driver on, whatever is subscribed, unsubscribed,
-- opened, read, written and closed in whatever order, whatever the kernel and the hypervisor answer and
-- whatever the publishers do to the regions and the rings: when no call is under way no device has half
-- received a message, and one that has half sent a message is marked with EPIPE.
pub subscribers-IsAtRest :
    (k : Kernel) (steps : List SubscriberStep) → All IsAtRest (run k no_subscriptions steps).vdevs
subscribers-IsAtRest k steps =
    run-IsAtRest k no_subscriptions steps
      (record {
        counted = refl;
        bounded = omega arith;
        exclusive = tt;
        holds = record { memory = refl; mappings = refl; channels = refl; devices = refl };
      })
      tt
