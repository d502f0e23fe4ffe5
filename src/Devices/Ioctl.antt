-- ===== src/Devices/Ioctl.antt =====
-- ivc/ivc.c: what holds of the devices of both sides between the requests of `ioctl`.
use axvisor_tools.Common.{
  ℕ, ◌≡◌, inl, inr, ◌≢◌, refl, ◌∙◌, ap, arith, Bool, true, false, Bool-cases, none, some,
  Option-cases, Result-cases, List, [], ◌∷◌, length, ◌==◌, ==_iff, Result, done, failed, Code, ◌||◌,
  enoent, ebusy,
}
use axvisor_tools.Devices.Publishers.{
  Kernel, Vdev, Publications, publish_channel, find, update, has_key, unpublish_locked,
}
use axvisor_tools.Devices.Table.{Inv}
use axvisor_tools.Devices.Found.{some_injective}
use axvisor_tools.Devices.Exclusive as Pub
use axvisor_tools.Devices.Subscribers.{
  SubscriberVdev, Subscriptions, Look, subscribe_channel, is_subscription, unsubscribe_locked,
}
use axvisor_tools.Devices.SubscriberSteps as SubscriberSteps
use axvisor_tools.Devices.Watched as Sub
use axvisor_tools.Devices.SubscriberSteps.{SubscriberStep, subscribes}
use axvisor_tools.Devices.Driver.{
  Driver, publications_of, subscriptions_of, with_publications, with_subscriptions,
  unpublish_channel, unsubscribe_channel, Request, publish, unpublish, subscribe, unsubscribe,
  unknown, manager_ioctl,
}

-- A device that a search has found and marked is found again by its id.
found_again :
    {V : Type 0} (id : V → ℕ) (vs : List V) (p : V → Bool) (f : V → V) (v : V)
    → find vs p ≡ some v
    → ((w : V) → id (f w) ≡ id w)
    → (w : V) × (find (update vs p f) (λ x. id x == id v) ≡ some w)
found_again id [] p f v e keeps = absurd (cc e)
found_again id (w ∷ vs) p f v e keeps = elim (Bool-cases (p w)) [
  | inl here ↦
      let same : id (f w) == id v ≡ true =
        (==_iff (id (f w)) (id v)).1 (keeps w ∙ ap id (some_injective w v (rw here at e))) in
      rw (here, same) (f w, refl)
  | inr later ↦ elim (Bool-cases (id w == id v)) [
    | inl first ↦ rw (later, first) (w, refl)
    | inr other ↦ rw (later, other) (found_again id vs p f v (rw later at e) keeps)
  ]
]

unpublish_channel-Inv :
    (others : ℕ) (k : Kernel) (s : Publications) (key : ℕ)
    → Inv Pub.IsExclusive others s
    → Inv Pub.IsExclusive others (unpublish_channel k s key).1
unfolding unpublish_channel
unpublish_channel-Inv others k s key inv =
    let locked = Pub.unpublish_locked-Inv others s key inv in
    let p = has_key key in
    let mark = λ (w : Vdev). record w { removing = true } in
    elim (Option-cases (find s.vdevs p)) [
      | inl missing ↦
          let runs : unpublish_locked s key ≡ (failed enoent, s) =
            unfold unpublish_locked in ground (arith, missing) in
          rw (unpublish_channel, runs) locked
      | inr (v, found) ↦ elim (Bool-cases (v.active || v.removing)) [
        | inl busy ↦
            let runs : unpublish_locked s key ≡ (failed ebusy, s) =
              unfold unpublish_locked in ground (arith, found, busy) in
            rw (unpublish_channel, runs) locked
        | inr idle ↦
            let runs : unpublish_locked s key
                ≡ (done v.id, record s { vdevs = update s.vdevs p mark }) =
              unfold unpublish_locked in ground (arith, found, idle) in
            let (w, again) = found_again (λ (x : Vdev). x.id) s.vdevs p mark v found (λ x. refl) in
            rw (unpublish_channel, runs)
              (Pub.unpublish_rest-Inv others k (unpublish_locked s key).1 key v.id w (rw runs again)
                locked)
      ]
    ]

unsubscribe_channel-Inv :
    (others : ℕ) (k : Kernel) (s : Subscriptions) (publisher_id key : ℕ)
    → Inv Sub.IsExclusive others s
    → Inv Sub.IsExclusive others (unsubscribe_channel k s publisher_id key).1
unfolding unsubscribe_channel
unsubscribe_channel-Inv others k s publisher_id key inv =
    let locked = Sub.unsubscribe_locked-Inv others s publisher_id key inv in
    let p = is_subscription publisher_id key in
    let mark = λ (w : SubscriberVdev). record w { removing = true } in
    elim (Option-cases (find s.vdevs p)) [
      | inl missing ↦
          let runs : unsubscribe_locked s publisher_id key ≡ (failed enoent, s) =
            unfold unsubscribe_locked in ground (arith, missing) in
          rw (unsubscribe_channel, runs) locked
      | inr (v, found) ↦ elim (Bool-cases (v.active || v.removing)) [
        | inl busy ↦
            let runs : unsubscribe_locked s publisher_id key ≡ (failed ebusy, s) =
              unfold unsubscribe_locked in ground (arith, found, busy) in
            rw (unsubscribe_channel, runs) locked
        | inr idle ↦
            let runs : unsubscribe_locked s publisher_id key
                ≡ (done v.id, record s { vdevs = update s.vdevs p mark }) =
              unfold unsubscribe_locked in ground (arith, found, idle) in
            let (w, again) =
              found_again (λ (x : SubscriberVdev). x.id) s.vdevs p mark v found (λ x. refl) in
            rw (unsubscribe_channel, runs)
              (Sub.unsubscribe_rest-Inv others k (unsubscribe_locked s publisher_id key).1
                publisher_id key v.id w (rw runs again) locked)
      ]
    ]

-- What holds of the two sides together.
pub record DriverInv (d : Driver) : Type 0 where
  pub publishers : Inv Pub.IsExclusive (length d.subscriptions.vdevs) (publications_of d)
  pub subscribers : Inv Sub.IsExclusive (length d.publications.vdevs) (subscriptions_of d)

-- A call on one side leaves the other alone.
pub on_publications :
    (d : Driver) (s : Publications)
    → DriverInv d
    → Inv Pub.IsExclusive (length d.subscriptions.vdevs) s
    → DriverInv (with_publications d s)
on_publications d s inv after = record {
  publishers = after;
  subscribers = record {
    counted = inv.subscribers.counted;
    bounded = inv.subscribers.bounded;
    exclusive = inv.subscribers.exclusive;
    holds = ground (arith, after.holds);
  };
}

pub on_subscriptions :
    (d : Driver) (s : Subscriptions)
    → DriverInv d
    → Inv Sub.IsExclusive (length d.publications.vdevs) s
    → DriverInv (with_subscriptions d s)
on_subscriptions d s inv after = record {
  publishers = record {
    counted = inv.publishers.counted;
    bounded = inv.publishers.bounded;
    exclusive = inv.publishers.exclusive;
    holds = ground (arith, after.holds);
  };
  subscribers = after;
}

waiting :
    (k : Kernel) (looks : List Look) (copies_out : Bool) (d : Driver) (publisher_id key : ℕ)
    (ret : Code)
    → (subscribe_channel k looks (subscriptions_of d) publisher_id key).0 ≡ none
    → (manager_ioctl k looks true copies_out d (subscribe publisher_id key)).0 ≢ some ret
unfolding manager_ioctl
waiting k looks copies_out d publisher_id key ret waits = rw (manager_ioctl, waits) (λ e. cc e)

subscribed-Inv :
    (others : ℕ) (k : Kernel) (looks : List Look) (s : Subscriptions) (publisher_id key : ℕ)
    (answer : Result ℕ)
    → (subscribe_channel k looks s publisher_id key).0 ≡ some answer
    → Inv Sub.IsExclusive others s
    → Inv Sub.IsExclusive others (subscribe_channel k looks s publisher_id key).1
unfolding SubscriberSteps.step
subscribed-Inv others k looks s publisher_id key answer returned inv =
    let stepped = Sub.subscribes-Inv others k s looks publisher_id key inv in
    rw (SubscriberSteps.step, returned) at stepped

-- A request that has returned keeps it.
pub ioctl-Inv :
    (k : Kernel) (looks : List Look) (copies_in copies_out : Bool) (d : Driver) (request : Request)
    (ret : Code)
    → (manager_ioctl k looks copies_in copies_out d request).0 ≡ some ret
    → DriverInv d
    → DriverInv (manager_ioctl k looks copies_in copies_out d request).1
unfolding manager_ioctl
ioctl-Inv k looks false copies_out d (publish key size) ret e inv = inv
ioctl-Inv k looks true copies_out d (publish key size) ret e inv =
    let others = length d.subscriptions.vdevs in
    let s = (publish_channel k (publications_of d) key size).1 in
    let after = Pub.publishes-Inv others k (publications_of d) key size inv.publishers in
    elim (Result-cases (publish_channel k (publications_of d) key size).0) [
      | inl (e', bad) ↦ rw (manager_ioctl, bad) (on_publications d s inv after)
      | inr (id, good) ↦ elim (Bool-cases copies_out) [
        | inl copied ↦ rw (manager_ioctl, good, copied) (on_publications d s inv after)
        | inr lost ↦
            rw (manager_ioctl, good, lost)
              (on_publications d (unpublish_channel k s key).1 inv
                (unpublish_channel-Inv others k s key after))
      ]
    ]
ioctl-Inv k looks false copies_out d (unpublish key) ret e inv = inv
ioctl-Inv k looks true copies_out d (unpublish key) ret e inv =
    on_publications d (unpublish_channel k (publications_of d) key).1 inv (
      unpublish_channel-Inv (length d.subscriptions.vdevs) k (publications_of d) key inv.publishers)
ioctl-Inv k looks false copies_out d (subscribe publisher_id key) ret e inv = inv
ioctl-Inv k looks true copies_out d (subscribe publisher_id key) ret e inv =
    let others = length d.publications.vdevs in
    let s = (subscribe_channel k looks (subscriptions_of d) publisher_id key).1 in
    elim (Option-cases (subscribe_channel k looks (subscriptions_of d) publisher_id key).0) [
      | inl waits ↦ absurd (waiting k looks copies_out d publisher_id key ret waits e)
      | inr (answer, returned) ↦
          let after =
            subscribed-Inv others k looks (subscriptions_of d) publisher_id key answer returned
              inv.subscribers in
          elim (Result-cases answer) [
            | inl (e', bad) ↦ rw (manager_ioctl, returned, bad) (on_subscriptions d s inv after)
            | inr (id, good) ↦ elim (Bool-cases copies_out) [
              | inl copied ↦
                  rw (manager_ioctl, returned, good, copied) (on_subscriptions d s inv after)
              | inr lost ↦
                  rw (manager_ioctl, returned, good, lost)
                    (on_subscriptions d (unsubscribe_channel k s publisher_id key).1 inv
                      (unsubscribe_channel-Inv others k s publisher_id key after))
            ]
          ]
    ]
ioctl-Inv k looks false copies_out d (unsubscribe publisher_id key) ret e inv = inv
ioctl-Inv k looks true copies_out d (unsubscribe publisher_id key) ret e inv =
    on_subscriptions d (unsubscribe_channel k (subscriptions_of d) publisher_id key).1 inv (
      unsubscribe_channel-Inv (length d.publications.vdevs) k (subscriptions_of d) publisher_id key
        inv.subscribers)
ioctl-Inv k looks copies_in copies_out d unknown ret e inv = inv
