-- ===== src/Devices/Rest.antt =====
-- ivc/ivc.c: the endpoints of the publisher devices between two calls.
use axvisor_tools.Common.{
  ℕ, ◌+◌, ◌≢◌, inl, inr, refl, sym, subst, arith, true, false, Bool-cases, Option-cases,
  Result-cases, List, [], ◌∷◌, length, All, All-append, Code, ◌||◌,
}
use axvisor_tools.Ring.Defs.{Ring}
use axvisor_tools.Devices.Kept.{write_ends}
use axvisor_tools.Message.Sender.{sender_init}
use axvisor_tools.Message.Receiver.{ReceiverState, receiver_init}
use axvisor_tools.Devices.Publishers.{
  Kernel, Vdev, Publications, fresh, publish_channel, find, has_id, has_key, unpublish_locked,
  unpublish_rest, open_device, release_device,
}
use axvisor_tools.Devices.Counted.{any, publish_channel_lem}
use axvisor_tools.Devices.Found.{changed-All, delete-All}
use axvisor_tools.Devices.Table.{Inv}
use axvisor_tools.Devices.Exclusive.{IsExclusive, step-Inv}
use axvisor_tools.Devices.Send.{Pause, SendRound, send_message}
use axvisor_tools.Devices.Receive.{Round, recv_message}
use axvisor_tools.Devices.Boundary.{recv_message-IsBoundary}
use axvisor_tools.Devices.Settled.{IsSettled}
use axvisor_tools.Devices.Files.{after_read, after_write, publisher_read, publisher_write}
use axvisor_tools.Devices.Steps.{
  Step, publishes, unpublish_begins, unpublish_ends, opens, releases, reads, writes, step, run,
  loaded,
}

-- No message is half received, and none is half sent and unmarked.
abbrev pub IsAtRest : Vdev → Type 0
IsAtRest v = (v.endpoint.rx.state ≢ ReceiverState.receiving) × IsSettled v.endpoint

publisher_read-IsAtRest :
    (locked : Code) (rounds : List (Round (Unit {0}))) (v : Vdev) (ring : Ring) (count : ℕ)
    → IsAtRest v
    → IsAtRest (after_read v (publisher_read locked rounds v tt ring count 0))
unfolding publisher_read
publisher_read-IsAtRest locked rounds v ring count (still, settled) =
    let o = recv_message false locked rounds v.endpoint.rx tt ring count 0 in
    elim (Bool-cases v.active) [
      | inr closed ↦ rw (publisher_read, closed) (still, settled)
      | inl opened ↦ elim (Option-cases o.result) [
        | inl waits ↦ rw (publisher_read, opened, waits) (still, settled)
        | inr (r, returned) ↦
            rw (publisher_read, opened, returned)
              (
                elim (recv_message-IsBoundary false locked rounds v.endpoint.rx tt ring count 0
                    still) [ inl waits ↦ absurd (cc (returned, waits)) | inr ends ↦ ends ],
                settled,
              )
      ]
    ]

publisher_write-IsAtRest :
    (locked : Code) (pauses : List (Pause (Unit {0}))) (rounds : List (SendRound (Unit {0})))
    (user : List ℕ) (v : Vdev) (ring : Ring)
    → IsAtRest v
    → IsAtRest (after_write v (publisher_write locked pauses rounds user v tt ring 0))
unfolding publisher_write
publisher_write-IsAtRest locked pauses rounds user v ring (still, settled) =
    let o = send_message false locked pauses rounds user v.endpoint tt ring 0 in
    elim (Bool-cases v.active) [
      | inr closed ↦ rw (publisher_write, closed) (still, settled)
      | inl opened ↦ elim (Option-cases o.result) [
        | inl waits ↦ rw (publisher_write, opened, waits) (still, settled)
        | inr (r, returned) ↦
            let (same, ends) =
              write_ends false locked pauses rounds user v.endpoint ring r settled returned in
            rw (publisher_write, opened, returned) (rw same still, ends)
      ]
    ]

publishes-IsAtRest :
    (k : Kernel) (s : Publications) (key size : ℕ)
    → Inv IsExclusive 0 s
    → All IsAtRest s.vdevs
    → All IsAtRest (publish_channel k s key size).1.vdevs
unfolding sender_init receiver_init
publishes-IsAtRest k s key size inv rests =
    elim (publish_channel_lem any k s key size (length s.vdevs + 0) (length s.vdevs + 0)
      inv.holds) [
        | inl (e, failing, same, count, holds) ↦ subst (All IsAtRest) (sym same) rests
        | inr (id, shm, good, room, more, count, holds) ↦
            subst (All IsAtRest) (sym more)
              (All-append IsAtRest s.vdevs (fresh id key shm) rests ((λ e. cc e), inl (refl, refl)))
      ]

unpublish_locked-IsAtRest :
    (s : Publications) (key : ℕ)
    → All IsAtRest s.vdevs
    → All IsAtRest (unpublish_locked s key).1.vdevs
unfolding unpublish_locked
unpublish_locked-IsAtRest s key rests = elim (Option-cases (find s.vdevs (has_key key))) [
  | inl unknown ↦ rw (unpublish_locked, unknown) rests
  | inr (v, found) ↦ elim (Bool-cases (v.active || v.removing)) [
    | inl busy ↦ rw (unpublish_locked, found, busy) rests
    | inr free ↦
        rw (unpublish_locked, found, free)
          (changed-All (has_key key) IsAtRest s.vdevs (λ w. record w { removing = true }) (λ w e. e)
            rests)
  ]
]

unpublish_rest-IsAtRest :
    (k : Kernel) (s : Publications) (key id : ℕ)
    → All IsAtRest s.vdevs
    → All IsAtRest (unpublish_rest k s key id).1.vdevs
unfolding unpublish_rest
unpublish_rest-IsAtRest k s key id rests = elim (Result-cases (k.hvc_unpublish s.trace key)) [
  | inl (e, bad) ↦
      rw (unpublish_rest, bad)
        (changed-All (has_id id) IsAtRest s.vdevs (λ w. record w { removing = false }) (λ w e. e)
          rests)
  | inr (u, good) ↦ rw (unpublish_rest, good) (delete-All (has_id id) IsAtRest s.vdevs rests)
]

open-IsAtRest :
    (s : Publications) (id : ℕ) → All IsAtRest s.vdevs → All IsAtRest (open_device s id).1.vdevs
unfolding open_device
open-IsAtRest s id rests = elim (Option-cases (find s.vdevs (has_id id))) [
  | inl unknown ↦ rw (open_device, unknown) rests
  | inr (v, found) ↦ elim (Bool-cases (v.active || v.removing)) [
    | inl busy ↦ rw (open_device, found, busy) rests
    | inr free ↦
        rw (open_device, found, free)
          (changed-All (has_id id) IsAtRest s.vdevs (λ w. record w { active = true }) (λ w e. e)
            rests)
  ]
]

step-IsAtRest :
    (k : Kernel) (s : Publications) (st : Step)
    → Inv IsExclusive 0 s
    → All IsAtRest s.vdevs
    → All IsAtRest (step k s st).vdevs
unfolding step release_device
step-IsAtRest k s (publishes key size) inv rests = publishes-IsAtRest k s key size inv rests
step-IsAtRest k s (unpublish_begins key) inv rests = unpublish_locked-IsAtRest s key rests
step-IsAtRest k s (unpublish_ends id) inv rests = elim (Option-cases (find s.vdevs (has_id id))) [
  | inl unknown ↦ rw (unknown, step) rests
  | inr (v, found) ↦ elim (Bool-cases v.removing) [
    | inl leaving ↦ rw (found, step, leaving) (unpublish_rest-IsAtRest k s v.key id rests)
    | inr stays ↦ rw (found, step, stays) rests
  ]
]
step-IsAtRest k s (opens id) inv rests = open-IsAtRest s id rests
step-IsAtRest k s (releases id) inv rests =
    changed-All (has_id id) IsAtRest s.vdevs (λ w. record w { active = false }) (λ w e. e) rests
step-IsAtRest k s (reads id locked rounds ring count) inv rests =
    changed-All (has_id id) IsAtRest s.vdevs
      (λ v. after_read v (publisher_read locked rounds v tt ring count 0))
      (λ v e. publisher_read-IsAtRest locked rounds v ring count e) rests
step-IsAtRest k s (writes id locked pauses rounds user ring) inv rests =
    changed-All (has_id id) IsAtRest s.vdevs
      (λ v. after_write v (publisher_write locked pauses rounds user v tt ring 0))
      (λ v e. publisher_write-IsAtRest locked pauses rounds user v ring e) rests

run-IsAtRest :
    (k : Kernel) (s : Publications) (steps : List Step)
    → Inv IsExclusive 0 s
    → All IsAtRest s.vdevs
    → All IsAtRest (run k s steps).vdevs
unfolding run
run-IsAtRest k s [] inv rests = rests
run-IsAtRest k s (st ∷ steps) inv rests =
    run-IsAtRest k (step k s st) steps (step-Inv 0 k s st inv) (step-IsAtRest k s st inv rests)

-- From the load of the driver on, whatever is published, unpublished, opened, read, written and closed in
-- whatever order, whatever the kernel and the hypervisor answer and whatever the peers do to the rings, before
-- and during the reads and the writes: when no call is under way no device has half received a message, and one
-- that has half sent a message is marked with EPIPE.
pub devices-IsAtRest : (k : Kernel) (steps : List Step) → All IsAtRest (run k loaded steps).vdevs
devices-IsAtRest k steps =
    run-IsAtRest k loaded steps
      (record {
        counted = refl;
        bounded = omega arith;
        exclusive = tt;
        holds = record { memory = refl; mappings = refl; channels = refl; devices = refl };
      })
      tt
