-- ===== src/Devices/Exclusive.antt =====
-- ivc/ivc.c: what holds of the publisher devices under any order of calls, a publication being taken whole.
use axvisor_tools.Common.{
  ℕ, Code, ◌+◌, ◌-◌, ◌≡◌, inl, inr, refl, sym, ◌∙◌, arith, Bool, true, false, ◌&&◌, ◌||◌,
  Bool-cases, some, Option-cases, Result-cases, List, ◌∷◌, length, if◌then◌else◌, done, failed,
  success, ebusy, enoent, enodev, eio,
}
use axvisor_tools.Devices.Publishers.{
  own, freed, unmapped, unpublished, deregistered, refused, Kernel, Vdev, Publications, fresh,
  publish_channel, find, update, delete, has_id, has_key, unpublish_locked, unpublish_rest,
  open_device, release_device,
}
use axvisor_tools.Devices.Counted.{any, publish_channel_lem}
use axvisor_tools.Devices.Steps.{
  Step, publishes, unpublish_begins, unpublish_ends, opens, releases, reads, writes, step,
}
use axvisor_tools.Devices.Table.{Inv, added-Inv, flagged-Inv, changed-Inv, kept-Inv, removed-Inv}
use axvisor_tools.Ring.Defs.{Ring}
use axvisor_tools.Devices.Send.{Pause, SendRound}
use axvisor_tools.Devices.Receive.{Round}
use axvisor_tools.Devices.Files.{
  after_read, after_write, after_read_lem, after_write_lem, publisher_read, publisher_write,
}

-- No device is open while it is being removed.
abbrev pub IsExclusive : Vdev → Type 0
IsExclusive v = v.active && v.removing ≡ false

pub publishes-Inv :
    (others : ℕ) (k : Kernel) (s : Publications) (key size : ℕ)
    → Inv IsExclusive others s
    → Inv IsExclusive others (publish_channel k s key size).1
publishes-Inv others k s key size inv =
    added-Inv IsExclusive others s (publish_channel k s key size).1 inv
      (elim (publish_channel_lem any k s key size (length s.vdevs + others)
        (length s.vdevs + others) inv.holds) [
          | inl (e, failing, same, count, holds) ↦ inl (same, count, holds)
          | inr (id, shm, good, room, more, count, holds) ↦
              inr (fresh id key shm, refl, room, more, count, holds)
        ])

-- The device that a search finds is the one that was found idle.
idle_found :
    (p : Vdev → Bool) (vs : List Vdev) (v w : Vdev)
    → find vs p ≡ some v
    → find vs p ≡ some w
    → v.active || v.removing ≡ false
    → (w.active ≡ false) × (w.removing ≡ false)
idle_found p vs v w e f idle = ground (arith, sym e ∙ f)

pub unpublish_locked-Inv :
    (others : ℕ) (s : Publications) (key : ℕ)
    → Inv IsExclusive others s
    → Inv IsExclusive others (unpublish_locked s key).1
unpublish_locked-Inv others s key inv = elim (Option-cases (find s.vdevs (has_key key))) [
  | inl unknown ↦
      let runs : unpublish_locked s key ≡ (failed enoent, s) =
        unfold unpublish_locked in ground (arith, unknown) in
      rw runs inv
  | inr (v, found) ↦ elim (Bool-cases (v.active || v.removing)) [
    | inl busy ↦
        let runs : unpublish_locked s key ≡ (failed ebusy, s) =
          unfold unpublish_locked in ground (arith, found, busy) in
        rw runs inv
    | inr free ↦
        let runs : unpublish_locked s key ≡ (
          done v.id,
          record s { vdevs = update s.vdevs (has_key key) (λ w. record w { removing = true }) },
        ) =
          unfold unpublish_locked in ground (arith, found, free) in
        rw runs (
          flagged-Inv IsExclusive others (has_key key) s (λ w. record w { removing = true })
            (λ w e. ground (arith, idle_found (has_key key) s.vdevs v w found e free)) inv)
  ]
]

pub unpublish_rest-Inv :
    (others : ℕ) (k : Kernel) (s : Publications) (key id : ℕ) (v : Vdev)
    → find s.vdevs (has_id id) ≡ some v
    → Inv IsExclusive others s
    → Inv IsExclusive others (unpublish_rest k s key id).1
unpublish_rest-Inv others k s key id v found inv =
    elim (Result-cases (k.hvc_unpublish s.trace key)) [
      | inl (e, bad) ↦
          let runs : unpublish_rest k s key id ≡ (
            failed eio,
            record s {
              vdevs = update s.vdevs (has_id id) (λ w. record w { removing = false });
              trace = refused ∷ s.trace;
            },
          ) =
            unfold unpublish_rest in ground (arith, bad) in
          rw runs (
            kept-Inv IsExclusive others (has_id id) s (λ w. record w { removing = false })
              (λ w e. ground arith) inv)
      | inr (u, good) ↦
          let runs : unpublish_rest k s key id ≡ (
            success,
            record {
              vdev_count = s.vdev_count - 1;
              next_vdev_id = s.next_vdev_id;
              vdevs = delete s.vdevs (has_id id);
              trace = freed ∷ unmapped ∷ deregistered ∷ unpublished (own key) ∷ s.trace;
            },
          ) =
            unfold unpublish_rest in ground (arith, good) in
          rw runs (removed-Inv IsExclusive others (has_id id) s v (own key) found inv)
    ]

open-Inv :
    (others : ℕ) (s : Publications) (id : ℕ)
    → Inv IsExclusive others s
    → Inv IsExclusive others (open_device s id).1
open-Inv others s id inv = elim (Option-cases (find s.vdevs (has_id id))) [
  | inl unknown ↦
      let runs : open_device s id ≡ (failed enodev, s) =
        unfold open_device in ground (arith, unknown) in
      rw runs inv
  | inr (v, found) ↦ elim (Bool-cases (v.active || v.removing)) [
    | inl busy ↦
        let runs : open_device s id ≡ ((if v.removing then failed enodev else failed ebusy), s) =
          unfold open_device in ground (arith, found, busy) in
        rw runs inv
    | inr free ↦
        let runs : open_device s id ≡ (
          success,
          record s { vdevs = update s.vdevs (has_id id) (λ w. record w { active = true }) },
        ) =
          unfold open_device in ground (arith, found, free) in
        rw runs (
          flagged-Inv IsExclusive others (has_id id) s (λ w. record w { active = true })
            (λ w e. ground (arith, idle_found (has_id id) s.vdevs v w found e free)) inv)
  ]
]

release-Inv :
    (others : ℕ) (s : Publications) (id : ℕ)
    → Inv IsExclusive others s
    → Inv IsExclusive others (release_device s id)
unfolding release_device
release-Inv others s id inv =
    flagged-Inv IsExclusive others (has_id id) s (λ w. record w { active = false }) (λ v e. refl)
      inv

publisher_read-IsExclusive :
    (locked : Code) (rounds : List (Round (Unit {0}))) (v : Vdev) (ring : Ring) (count : ℕ)
    → IsExclusive v
    → IsExclusive (publisher_read locked rounds v tt ring count 0).0
unfolding publisher_read
publisher_read-IsExclusive locked rounds v ring count e = elim (Bool-cases v.active) [
  | inl opened ↦ rw (publisher_read, opened) (ground (arith, opened, e))
  | inr closed ↦ rw (publisher_read, closed) refl
]

publisher_write-IsExclusive :
    (locked : Code) (pauses : List (Pause (Unit {0}))) (rounds : List (SendRound (Unit {0})))
    (user : List ℕ) (v : Vdev) (ring : Ring)
    → IsExclusive v
    → IsExclusive (publisher_write locked pauses rounds user v tt ring 0).0
unfolding publisher_write
publisher_write-IsExclusive locked pauses rounds user v ring e = elim (Bool-cases v.active) [
  | inl opened ↦ rw (publisher_write, opened) (ground (arith, opened, e))
  | inr closed ↦ rw (publisher_write, closed) refl
]

pub step-Inv :
    (others : ℕ) (k : Kernel) (s : Publications) (st : Step)
    → Inv IsExclusive others s
    → Inv IsExclusive others (step k s st)
unfolding step
step-Inv others k s (publishes key size) inv = publishes-Inv others k s key size inv
step-Inv others k s (unpublish_begins key) inv = unpublish_locked-Inv others s key inv
step-Inv others k s (unpublish_ends id) inv = elim (Option-cases (find s.vdevs (has_id id))) [
  | inl unknown ↦ rw (unknown, step) inv
  | inr (v, found) ↦ elim (Bool-cases v.removing) [
    | inl leaving ↦ rw (found, step, leaving) (unpublish_rest-Inv others k s v.key id v found inv)
    | inr stays ↦ rw (found, step, stays) inv
  ]
]
step-Inv others k s (opens id) inv = open-Inv others s id inv
step-Inv others k s (releases id) inv = release-Inv others s id inv
step-Inv others k s (reads id locked rounds ring count) inv =
    changed-Inv IsExclusive others (has_id id) s
      (λ v. after_read v (publisher_read locked rounds v tt ring count 0))
      (λ v e.
        after_read_lem IsExclusive v (publisher_read locked rounds v tt ring count 0) e
          (publisher_read-IsExclusive locked rounds v ring count e))
      inv
step-Inv others k s (writes id locked pauses rounds user ring) inv =
    changed-Inv IsExclusive others (has_id id) s
      (λ v. after_write v (publisher_write locked pauses rounds user v tt ring 0))
      (λ v e.
        after_write_lem IsExclusive v (publisher_write locked pauses rounds user v tt ring 0) e
          (publisher_write-IsExclusive locked pauses rounds user v ring e))
      inv
