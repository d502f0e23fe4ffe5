-- ===== src/Devices/SubscriberSections.antt =====
-- ivc/ivc.c: the calls on the subscriber devices by any threads, section by section under their lock.
use axvisor_tools.Common.{
  ℕ, ◌+◌, ◌≤◌, ◌≡◌, inl, inr, refl, sym, ◌∙◌, arith, Bool, true, false, ◌||◌, Bool-cases, none,
  some, Option-cases, Result-cases, List, [], ◌∷◌, length, All, if◌then◌else◌,
}
use axvisor_tools.Devices.Publishers.{Output, Kernel, max_vdevs, find, update}
use axvisor_tools.Devices.Subscribers.{
  SubscriberVdev, Subscriptions, fresh_subscriber, has_subscriber_id, is_subscription,
  unsubscribe_locked, unsubscribe_rest, open_subscriber, release_subscriber,
}
use axvisor_tools.Devices.Found.{length-update, length-delete, update-All, delete-All}
use axvisor_tools.Devices.Places.{
  Places, reserves_place, cancels_place, adds_place, PlacesInv, Changes, changed-PlacesInv,
  reserves-PlacesInv, cancels-PlacesInv, adds-PlacesInv,
}
use axvisor_tools.Devices.SubscriberSteps.{no_subscriptions}
use axvisor_tools.Devices.Watched.{IsExclusive}

-- What a thread does while it has the lock. A device whose registration has succeeded can be opened and
-- closed before it is listed. `removes` is the end of an unsubscription, with the call of the hypervisor before it.
pub data SubscriberSection : Type 0 where
  reserves : ℕ → ℕ → Output → SubscriberSection
  cancels adds opens_reserved releases_reserved : ℕ → SubscriberSection
  marks : ℕ → ℕ → SubscriberSection
  removes opens releases : ℕ → SubscriberSection

abbrev on_registry : (Subscriptions → Subscriptions) → Places SubscriberVdev → Places SubscriberVdev
on_registry f w = record w { registry = f w.registry }

-- The registry of the devices that are not listed yet.
abbrev open_pending : ℕ → Places SubscriberVdev → Places SubscriberVdev
open_pending id w = record w {
  pending = (open_subscriber (record w.registry { vdevs = w.pending }) id).1.vdevs;
}

abbrev release_pending : ℕ → Places SubscriberVdev → Places SubscriberVdev
release_pending id w = record w {
  pending = (release_subscriber (record w.registry { vdevs = w.pending }) id).vdevs;
}

unfoldable pub section : Kernel → Places SubscriberVdev → SubscriberSection → Places SubscriberVdev
section k w (reserves publisher_id key shm) =
    reserves_place (λ id. fresh_subscriber id publisher_id key shm) w
section k w (cancels id) = cancels_place (has_subscriber_id id) w
section k w (adds id) = adds_place (has_subscriber_id id) w
section k w (opens_reserved id) = open_pending id w
section k w (releases_reserved id) = release_pending id w
section k w (marks publisher_id key) =
    on_registry (λ s. (unsubscribe_locked s publisher_id key).1) w
section k w (removes id) = elim (find w.registry.vdevs (has_subscriber_id id)) [
  | none ↦ w
  | some v ↦
      if v.removing
      then on_registry (λ s. (unsubscribe_rest k s v.publisher_id v.key id).1) w
      else w
]
section k w (opens id) = on_registry (λ s. (open_subscriber s id).1) w
section k w (releases id) = on_registry (λ s. release_subscriber s id) w

unfoldable pub run_sections :
    Kernel → Places SubscriberVdev → List SubscriberSection → Places SubscriberVdev
run_sections k w [] = w
run_sections k w (x ∷ xs) = run_sections k (section k w x) xs

idle_found :
    (p : SubscriberVdev → Bool) (vs : List SubscriberVdev) (v w : SubscriberVdev)
    → find vs p ≡ some v
    → find vs p ≡ some w
    → v.active || v.removing ≡ false
    → (w.active ≡ false) × (w.removing ≡ false)
idle_found p vs v w e f idle = ground (arith, sym e ∙ f)

-- A flag is set on the device that a search finds.
flag-Changes :
    (p : SubscriberVdev → Bool) (s : Subscriptions) (f : SubscriberVdev → SubscriberVdev)
    → ((v : SubscriberVdev) → find s.vdevs p ≡ some v → IsExclusive (f v))
    → All IsExclusive s.vdevs
    → Changes IsExclusive s (record s { vdevs = update s.vdevs p f })
flag-Changes p s f h all =
    inl (refl, length-update p s.vdevs f, update-All p IsExclusive s.vdevs f h all)

marks-Changes :
    (s : Subscriptions) (publisher_id key : ℕ)
    → All IsExclusive s.vdevs
    → Changes IsExclusive s (unsubscribe_locked s publisher_id key).1
unfolding unsubscribe_locked
marks-Changes s publisher_id key all =
    let p = is_subscription publisher_id key in
    elim (Option-cases (find s.vdevs p)) [
      | inl unknown ↦ rw (unsubscribe_locked, unknown) (inl (refl, refl, all))
      | inr (v, found) ↦ elim (Bool-cases (v.active || v.removing)) [
        | inl busy ↦ rw (unsubscribe_locked, found, busy) (inl (refl, refl, all))
        | inr free ↦
            rw (unsubscribe_locked, found, free)
              (flag-Changes p s (λ w. record w { removing = true })
                (λ w e. ground (arith, idle_found p s.vdevs v w found e free)) all)
      ]
    ]

removes-Changes :
    (k : Kernel) (s : Subscriptions) (publisher_id key id : ℕ) (v : SubscriberVdev)
    → find s.vdevs (has_subscriber_id id) ≡ some v
    → All IsExclusive s.vdevs
    → Changes IsExclusive s (unsubscribe_rest k s publisher_id key id).1
unfolding unsubscribe_rest
removes-Changes k s publisher_id key id v found all =
    let p = has_subscriber_id id in
    elim (Result-cases (k.hvc_unsubscribe s.trace publisher_id key)) [
      | inl (e, bad) ↦
          rw (unsubscribe_rest, bad)
            (inl (
              refl,
              length-update p s.vdevs _,
              update-All p IsExclusive s.vdevs (λ w. record w { removing = false })
                  (λ w e. ground arith) all,
            ))
      | inr (u, good) ↦
          rw (unsubscribe_rest, good)
            (inr (refl, length-delete p s.vdevs v found, delete-All p IsExclusive s.vdevs all))
    ]

opens-Changes :
    (s : Subscriptions) (id : ℕ)
    → All IsExclusive s.vdevs
    → Changes IsExclusive s (open_subscriber s id).1
unfolding open_subscriber
opens-Changes s id all =
    let p = has_subscriber_id id in
    elim (Option-cases (find s.vdevs p)) [
      | inl unknown ↦ rw (open_subscriber, unknown) (inl (refl, refl, all))
      | inr (v, found) ↦ elim (Bool-cases (v.active || v.removing)) [
        | inl busy ↦ rw (open_subscriber, found, busy) (inl (refl, refl, all))
        | inr free ↦
            rw (open_subscriber, found, free)
              (flag-Changes p s (λ w. record w { active = true })
                (λ w e. ground (arith, idle_found p s.vdevs v w found e free)) all)
      ]
    ]

releases-Changes :
    (s : Subscriptions) (id : ℕ)
    → All IsExclusive s.vdevs
    → Changes IsExclusive s (release_subscriber s id)
unfolding release_subscriber
releases-Changes s id all =
    flag-Changes (has_subscriber_id id) s (λ w. record w { active = false }) (λ v e. refl) all

-- A change of the devices that are not listed yet, which keeps their number.
pending-PlacesInv :
    (w : Places SubscriberVdev) (s' : Subscriptions)
    → s'.vdev_count ≡ w.registry.vdev_count
    → Changes IsExclusive (record w.registry { vdevs = w.pending }) s'
    → PlacesInv IsExclusive w
    → PlacesInv IsExclusive (record w { pending = s'.vdevs })
pending-PlacesInv w s' same (inl (count, len, all)) inv = record {
  counted = omega (arith, inv.counted, len);
  bounded = inv.bounded;
  listed = inv.listed;
  reserved = all;
}
pending-PlacesInv w s' same (inr (count, len, all)) inv =
    absurd (omega (arith, same, count, len, inv.counted))

open_subscriber-count :
    (s : Subscriptions) (id : ℕ) → (open_subscriber s id).1.vdev_count ≡ s.vdev_count
unfolding open_subscriber
open_subscriber-count s id = ground arith

release_subscriber-count :
    (s : Subscriptions) (id : ℕ) → (release_subscriber s id).vdev_count ≡ s.vdev_count
unfolding release_subscriber
release_subscriber-count s id = refl

section-PlacesInv :
    (k : Kernel) (w : Places SubscriberVdev) (x : SubscriberSection)
    → PlacesInv IsExclusive w
    → PlacesInv IsExclusive (section k w x)
unfolding section
section-PlacesInv k w (reserves publisher_id key shm) inv =
    reserves-PlacesInv IsExclusive (λ id. fresh_subscriber id publisher_id key shm) w (λ id. refl)
      inv
section-PlacesInv k w (cancels id) inv = cancels-PlacesInv IsExclusive (has_subscriber_id id) w inv
section-PlacesInv k w (adds id) inv = adds-PlacesInv IsExclusive (has_subscriber_id id) w inv
section-PlacesInv k w (opens_reserved id) inv =
    let s = record w.registry { vdevs = w.pending } in
    pending-PlacesInv w (open_subscriber s id).1 (open_subscriber-count s id)
      (opens-Changes s id inv.reserved) inv
section-PlacesInv k w (releases_reserved id) inv =
    let s = record w.registry { vdevs = w.pending } in
    pending-PlacesInv w (release_subscriber s id) (release_subscriber-count s id)
      (releases-Changes s id inv.reserved) inv
section-PlacesInv k w (marks publisher_id key) inv =
    changed-PlacesInv IsExclusive w (unsubscribe_locked w.registry publisher_id key).1
      (marks-Changes w.registry publisher_id key inv.listed) inv
section-PlacesInv k w (removes id) inv =
    elim (Option-cases (find w.registry.vdevs (has_subscriber_id id))) [
      | inl unknown ↦ rw (unknown, section) inv
      | inr (v, found) ↦ elim (Bool-cases v.removing) [
        | inl leaving ↦
            rw (found, section, leaving)
              (changed-PlacesInv IsExclusive w
                (unsubscribe_rest k w.registry v.publisher_id v.key id).1
                (removes-Changes k w.registry v.publisher_id v.key id v found inv.listed) inv)
        | inr stays ↦ rw (found, section, stays) inv
      ]
    ]
section-PlacesInv k w (opens id) inv =
    changed-PlacesInv IsExclusive w (open_subscriber w.registry id).1
      (opens-Changes w.registry id inv.listed) inv
section-PlacesInv k w (releases id) inv =
    changed-PlacesInv IsExclusive w (release_subscriber w.registry id)
      (releases-Changes w.registry id inv.listed) inv

run_sections-PlacesInv :
    (k : Kernel) (w : Places SubscriberVdev) (xs : List SubscriberSection)
    → PlacesInv IsExclusive w
    → PlacesInv IsExclusive (run_sections k w xs)
unfolding run_sections
run_sections-PlacesInv k w [] inv = inv
run_sections-PlacesInv k w (x ∷ xs) inv =
    run_sections-PlacesInv k (section k w x) xs (section-PlacesInv k w x inv)

-- The driver behind its load.
abbrev pub no_subscriber_places : Places SubscriberVdev
no_subscriber_places = record { registry = no_subscriptions; pending = [] }

-- The same of the subscriber devices, a subscription having its place only behind its wait for the region.
-- From the load of the driver on, whatever calls of subscribing, unsubscribing, opening and closing any
-- threads make, and however their sections under the lock interleave, and whatever the kernel and the hypervisor
-- answer between them: the counter is the number of devices that are listed or have a place reserved for them, and at
-- most 16, and no device of either kind is open while it is being removed.
pub subscriptions_counted :
    (k : Kernel) (sections : List SubscriberSection)
    → let w = run_sections k no_subscriber_places sections in
      (w.registry.vdev_count ≡ length w.registry.vdevs + length w.pending)
      × (w.registry.vdev_count ≤ max_vdevs)
      × All IsExclusive w.registry.vdevs
      × All IsExclusive w.pending
subscriptions_counted k sections =
    let inv =
      run_sections-PlacesInv k no_subscriber_places sections
        (record { counted = refl; bounded = omega arith; listed = tt; reserved = tt }) in
    (inv.counted, inv.bounded, inv.listed, inv.reserved)
