-- ===== src/Devices/Sections.antt =====
-- ivc/ivc.c: the calls on the publisher devices by any threads, section by section under their lock.
use axvisor_tools.Common.{
  ℕ, ◌+◌, ◌≤◌, ◌≡◌, inl, inr, refl, sym, ◌∙◌, arith, Bool, true, false, ◌||◌, Bool-cases, none,
  some, Option-cases, Result-cases, List, [], ◌∷◌, length, All, if◌then◌else◌,
}
use axvisor_tools.Devices.Publishers.{
  Output, Kernel, Vdev, Publications, max_vdevs, fresh, find, update, has_id, has_key,
  unpublish_locked, unpublish_rest, open_device, release_device,
}
use axvisor_tools.Devices.Found.{length-update, length-delete, update-All, delete-All}
use axvisor_tools.Devices.Places.{
  Places, reserves_place, cancels_place, adds_place, PlacesInv, Changes, changed-PlacesInv,
  reserves-PlacesInv, cancels-PlacesInv, adds-PlacesInv,
}
use axvisor_tools.Devices.Steps.{loaded}
use axvisor_tools.Devices.Exclusive.{IsExclusive}

-- What a thread does while it has the lock. A device whose registration has succeeded can be opened and
-- closed before it is listed. `removes` is the end of an unpublication, with the call of the hypervisor before it.
pub data Section : Type 0 where
  reserves : ℕ → Output → Section
  cancels adds opens_reserved releases_reserved : ℕ → Section
  marks removes opens releases : ℕ → Section

abbrev on_registry : (Publications → Publications) → Places Vdev → Places Vdev
on_registry f w = record w { registry = f w.registry }

-- The registry of the devices that are not listed yet.
abbrev open_pending : ℕ → Places Vdev → Places Vdev
open_pending id w = record w {
  pending = (open_device (record w.registry { vdevs = w.pending }) id).1.vdevs;
}

abbrev release_pending : ℕ → Places Vdev → Places Vdev
release_pending id w = record w {
  pending = (release_device (record w.registry { vdevs = w.pending }) id).vdevs;
}

unfoldable pub section : Kernel → Places Vdev → Section → Places Vdev
section k w (reserves key shm) = reserves_place (λ id. fresh id key shm) w
section k w (cancels id) = cancels_place (has_id id) w
section k w (adds id) = adds_place (has_id id) w
section k w (opens_reserved id) = open_pending id w
section k w (releases_reserved id) = release_pending id w
section k w (marks key) = on_registry (λ s. (unpublish_locked s key).1) w
section k w (removes id) = elim (find w.registry.vdevs (has_id id)) [
  | none ↦ w
  | some v ↦ if v.removing then on_registry (λ s. (unpublish_rest k s v.key id).1) w else w
]
section k w (opens id) = on_registry (λ s. (open_device s id).1) w
section k w (releases id) = on_registry (λ s. release_device s id) w

unfoldable pub run_sections : Kernel → Places Vdev → List Section → Places Vdev
run_sections k w [] = w
run_sections k w (x ∷ xs) = run_sections k (section k w x) xs

idle_found :
    (p : Vdev → Bool) (vs : List Vdev) (v w : Vdev)
    → find vs p ≡ some v
    → find vs p ≡ some w
    → v.active || v.removing ≡ false
    → (w.active ≡ false) × (w.removing ≡ false)
idle_found p vs v w e f idle = ground (arith, sym e ∙ f)

-- A flag is set on the device that a search finds.
flag-Changes :
    (p : Vdev → Bool) (s : Publications) (f : Vdev → Vdev)
    → ((v : Vdev) → find s.vdevs p ≡ some v → IsExclusive (f v))
    → All IsExclusive s.vdevs
    → Changes IsExclusive s (record s { vdevs = update s.vdevs p f })
flag-Changes p s f h all =
    inl (refl, length-update p s.vdevs f, update-All p IsExclusive s.vdevs f h all)

marks-Changes :
    (s : Publications) (key : ℕ)
    → All IsExclusive s.vdevs
    → Changes IsExclusive s (unpublish_locked s key).1
unfolding unpublish_locked
marks-Changes s key all =
    let p = has_key key in
    elim (Option-cases (find s.vdevs p)) [
      | inl unknown ↦ rw (unpublish_locked, unknown) (inl (refl, refl, all))
      | inr (v, found) ↦ elim (Bool-cases (v.active || v.removing)) [
        | inl busy ↦ rw (unpublish_locked, found, busy) (inl (refl, refl, all))
        | inr free ↦
            rw (unpublish_locked, found, free)
              (flag-Changes p s (λ w. record w { removing = true })
                (λ w e. ground (arith, idle_found p s.vdevs v w found e free)) all)
      ]
    ]

removes-Changes :
    (k : Kernel) (s : Publications) (key id : ℕ) (v : Vdev)
    → find s.vdevs (has_id id) ≡ some v
    → All IsExclusive s.vdevs
    → Changes IsExclusive s (unpublish_rest k s key id).1
unfolding unpublish_rest
removes-Changes k s key id v found all =
    let p = has_id id in
    elim (Result-cases (k.hvc_unpublish s.trace key)) [
      | inl (e, bad) ↦
          rw (unpublish_rest, bad)
            (inl (
              refl,
              length-update p s.vdevs _,
              update-All p IsExclusive s.vdevs (λ w. record w { removing = false })
                  (λ w e. ground arith) all,
            ))
      | inr (u, good) ↦
          rw (unpublish_rest, good)
            (inr (refl, length-delete p s.vdevs v found, delete-All p IsExclusive s.vdevs all))
    ]

opens-Changes :
    (s : Publications) (id : ℕ)
    → All IsExclusive s.vdevs
    → Changes IsExclusive s (open_device s id).1
unfolding open_device
opens-Changes s id all =
    let p = has_id id in
    elim (Option-cases (find s.vdevs p)) [
      | inl unknown ↦ rw (open_device, unknown) (inl (refl, refl, all))
      | inr (v, found) ↦ elim (Bool-cases (v.active || v.removing)) [
        | inl busy ↦ rw (open_device, found, busy) (inl (refl, refl, all))
        | inr free ↦
            rw (open_device, found, free)
              (flag-Changes p s (λ w. record w { active = true })
                (λ w e. ground (arith, idle_found p s.vdevs v w found e free)) all)
      ]
    ]

releases-Changes :
    (s : Publications) (id : ℕ)
    → All IsExclusive s.vdevs
    → Changes IsExclusive s (release_device s id)
unfolding release_device
releases-Changes s id all =
    flag-Changes (has_id id) s (λ w. record w { active = false }) (λ v e. refl) all

-- A change of the devices that are not listed yet, which keeps their number.
pending-PlacesInv :
    (w : Places Vdev) (s' : Publications)
    → s'.vdev_count ≡ w.registry.vdev_count
    → Changes IsExclusive (record w.registry { vdevs = w.pending }) s'
    → PlacesInv IsExclusive w
    → PlacesInv IsExclusive (record w { pending = s'.vdevs })
pending-PlacesInv w s' same (inl (count, len, all)) inv = record {
  counted = omega (arith, inv.counted, len);
  bounded = inv.bounded;
  listed = inv.listed;
  reserved = all;
}
pending-PlacesInv w s' same (inr (count, len, all)) inv =
    absurd (omega (arith, same, count, len, inv.counted))

open_device-count : (s : Publications) (id : ℕ) → (open_device s id).1.vdev_count ≡ s.vdev_count
unfolding open_device
open_device-count s id = ground arith

release_device-count : (s : Publications) (id : ℕ) → (release_device s id).vdev_count ≡ s.vdev_count
unfolding release_device
release_device-count s id = refl

section-PlacesInv :
    (k : Kernel) (w : Places Vdev) (x : Section)
    → PlacesInv IsExclusive w
    → PlacesInv IsExclusive (section k w x)
unfolding section
section-PlacesInv k w (reserves key shm) inv =
    reserves-PlacesInv IsExclusive (λ id. fresh id key shm) w (λ id. refl) inv
section-PlacesInv k w (cancels id) inv = cancels-PlacesInv IsExclusive (has_id id) w inv
section-PlacesInv k w (adds id) inv = adds-PlacesInv IsExclusive (has_id id) w inv
section-PlacesInv k w (opens_reserved id) inv =
    let s = record w.registry { vdevs = w.pending } in
    pending-PlacesInv w (open_device s id).1 (open_device-count s id)
      (opens-Changes s id inv.reserved) inv
section-PlacesInv k w (releases_reserved id) inv =
    let s = record w.registry { vdevs = w.pending } in
    pending-PlacesInv w (release_device s id) (release_device-count s id)
      (releases-Changes s id inv.reserved) inv
section-PlacesInv k w (marks key) inv =
    changed-PlacesInv IsExclusive w (unpublish_locked w.registry key).1
      (marks-Changes w.registry key inv.listed) inv
section-PlacesInv k w (removes id) inv = elim (Option-cases (find w.registry.vdevs (has_id id))) [
  | inl unknown ↦ rw (unknown, section) inv
  | inr (v, found) ↦ elim (Bool-cases v.removing) [
    | inl leaving ↦
        rw (found, section, leaving)
          (changed-PlacesInv IsExclusive w (unpublish_rest k w.registry v.key id).1
            (removes-Changes k w.registry v.key id v found inv.listed) inv)
    | inr stays ↦ rw (found, section, stays) inv
  ]
]
section-PlacesInv k w (opens id) inv =
    changed-PlacesInv IsExclusive w (open_device w.registry id).1
      (opens-Changes w.registry id inv.listed) inv
section-PlacesInv k w (releases id) inv =
    changed-PlacesInv IsExclusive w (release_device w.registry id)
      (releases-Changes w.registry id inv.listed) inv

run_sections-PlacesInv :
    (k : Kernel) (w : Places Vdev) (xs : List Section)
    → PlacesInv IsExclusive w
    → PlacesInv IsExclusive (run_sections k w xs)
unfolding run_sections
run_sections-PlacesInv k w [] inv = inv
run_sections-PlacesInv k w (x ∷ xs) inv =
    run_sections-PlacesInv k (section k w x) xs (section-PlacesInv k w x inv)

-- The driver behind its load.
abbrev pub no_places : Places Vdev
no_places = record { registry = loaded; pending = [] }

-- From the load of the driver on, whatever calls of publishing, unpublishing, opening and closing any
-- threads make, and however their sections under the lock interleave, and whatever the kernel and the hypervisor
-- answer between them: the counter is the number of devices that are listed or have a place reserved for them, and at
-- most 16, and no device of either kind is open while it is being removed.
pub registry_counted :
    (k : Kernel) (sections : List Section)
    → let w = run_sections k no_places sections in
      (w.registry.vdev_count ≡ length w.registry.vdevs + length w.pending)
      × (w.registry.vdev_count ≤ max_vdevs)
      × All IsExclusive w.registry.vdevs
      × All IsExclusive w.pending
registry_counted k sections =
    let inv =
      run_sections-PlacesInv k no_places sections
        (record { counted = refl; bounded = omega arith; listed = tt; reserved = tt }) in
    (inv.counted, inv.bounded, inv.listed, inv.reserved)
