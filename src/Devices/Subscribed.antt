-- ===== src/Devices/Subscribed.antt =====
-- ivc/ivc.c: a subscription on every path.
use axvisor_tools.Common.{
  once, ℕ, Bool, ◌+◌, ◌<◌, ◌≡◌, ◌⊎◌, inl, inr, refl, arith, Option, none, some, Bool-cases,
  Option-cases, Result-cases, List, [], ◌∷◌, ◌++◌, dec_lt, Errno, Result, Code, done, failed,
  enospc, enomem, efault, eio,
}
use axvisor_tools.Ring.Defs.{u32}
use axvisor_tools.Devices.Publishers.{
  Channel, theirs, allocated, freed, mapped, unmapped, published, registered, refused, Trace,
  Output, Kernel, max_vdevs,
}
use axvisor_tools.Devices.Counted.{Holds}
use axvisor_tools.Devices.Subscribers.{
  Subscriptions, Look, wait_for_region, rollback_subscription, unmap_subscription, fresh_subscriber,
  register_subscriber, accept_region, map_subscription, subscribe_channel,
}

module _ (p : Channel → Bool) where
  rollback_subscription-Holds :
      (k : Kernel) (publisher_id key : ℕ) (t : Trace) (m n c d : ℕ)
      → Holds p t m n (c + once (p (theirs publisher_id key))) d
      → Holds p (rollback_subscription k publisher_id key t) m n c d
  rollback_subscription-Holds k publisher_id key t m n c d h =
      elim (Result-cases (k.hvc_unsubscribe t publisher_id key)) [
        | inl (e, bad) ↦ rw bad (ground (arith, h))
        | inr (u, good) ↦ rw good (ground (arith, h))
      ]

  unmap_subscription-Holds :
      (k : Kernel) (publisher_id key : ℕ) (t : Trace) (m n c d : ℕ)
      → Holds p t m (n + 1) (c + once (p (theirs publisher_id key))) d
      → Holds p (unmap_subscription k publisher_id key t) m n c d
  unmap_subscription-Holds k publisher_id key t m n c d h =
      rollback_subscription-Holds k publisher_id key (unmapped ∷ t) m n c d (ground (arith, h))

  -- A subscription registers one more device, with all it needs, or fails and leaves the devices alone.
  abbrev pub Subscribes : ℕ → ℕ → Subscriptions → Result ℕ × Subscriptions → ℕ → ℕ → Type 0
  Subscribes publisher_id key s (r, s') n c =
      ((e : Errno) × (r ≡ failed e)
        × (s'.vdevs ≡ s.vdevs)
        × (s'.vdev_count ≡ s.vdev_count)
        × Holds p s'.trace n n c n)
      ⊎ ((id : ℕ) × (shm : Output) × (r ≡ done id)
          × (s.vdev_count < max_vdevs)
          × (s'.vdevs ≡ s.vdevs ++ (fresh_subscriber id publisher_id key shm ∷ []))
          × (s'.vdev_count ≡ s.vdev_count + 1)
          × Holds p s'.trace (n + 1) (n + 1) (c + once (p (theirs publisher_id key))) (n + 1))

  -- It has returned so, or it waits, and holds a mapping and a channel meanwhile.
  abbrev pub Ends : ℕ → ℕ → Subscriptions → Option (Result ℕ) × Subscriptions → ℕ → ℕ → Type 0
  Ends publisher_id key s (r, s') n c =
      ((r ≡ none)
        × (s'.vdevs ≡ s.vdevs)
        × (s'.vdev_count ≡ s.vdev_count)
        × Holds p s'.trace n (n + 1) (c + once (p (theirs publisher_id key))) n)
      ⊎ ((answer : Result ℕ) × (r ≡ some answer) × Subscribes publisher_id key s (answer, s') n c)

  module _ (k : Kernel) (publisher_id key : ℕ) where
    register_subscriber_lem :
        (s : Subscriptions) (shm : Output) (n c : ℕ)
        → Holds p s.trace (n + 1) (n + 1) (c + once (p (theirs publisher_id key))) n
        → Subscribes publisher_id key s (register_subscriber k s publisher_id key shm) n c
    register_subscriber_lem s shm n c h = elim (dec_lt s.vdev_count max_vdevs) [
      | no full ↦
          let t = freed ∷ s.trace in
          let runs : register_subscriber k s publisher_id key shm
              ≡ (failed enospc, record s { trace = unmap_subscription k publisher_id key t }) =
            unfold register_subscriber in ground arith in
          rw runs (
            inl (
              enospc,
              refl,
              refl,
              refl,
              unmap_subscription-Holds k publisher_id key t n n c n (ground (arith, h)),
            ))
      | yes room ↦ elim (Result-cases (k.misc_register s.trace s.next_vdev_id)) [
        | inl (e, bad) ↦
            let t = freed ∷ refused ∷ s.trace in
            let runs : register_subscriber k s publisher_id key shm ≡ (
              failed e,
              record s {
                next_vdev_id = u32 (s.next_vdev_id + 1);
                trace = unmap_subscription k publisher_id key t;
              },
            ) =
              unfold register_subscriber in ground (arith, bad) in
            rw runs (
              inl (
                e,
                refl,
                refl,
                refl,
                unmap_subscription-Holds k publisher_id key t n n c n (ground (arith, h)),
              ))
        | inr (u, good) ↦
            let runs : register_subscriber k s publisher_id key shm ≡ (
              done s.next_vdev_id,
              record {
                vdev_count = s.vdev_count + 1;
                next_vdev_id = u32 (s.next_vdev_id + 1);
                vdevs = s.vdevs ++ (fresh_subscriber s.next_vdev_id publisher_id key shm ∷ []);
                trace = registered ∷ s.trace;
              },
            ) =
              unfold register_subscriber in ground (arith, good) in
            rw runs (inr (s.next_vdev_id, shm, refl, room, refl, refl, ground (arith, h)))
      ]
    ]

    accept_region_lem :
        (s : Subscriptions) (err : Code) (shm : Output) (n c : ℕ)
        → Holds p s.trace n (n + 1) (c + once (p (theirs publisher_id key))) n
        → Subscribes publisher_id key s (accept_region k s err publisher_id key shm) n c
    unfolding accept_region
    accept_region_lem s (failed e) shm n c h =
        inl (e, refl, refl, refl, unmap_subscription-Holds k publisher_id key s.trace n n c n h)
    accept_region_lem s (done u) shm n c h = elim (Bool-cases (k.has_memory s.trace)) [
      | inr none_left ↦
          rw (accept_region, none_left)
            (inl (
              enomem,
              refl,
              refl,
              refl,
              unmap_subscription-Holds k publisher_id key (refused ∷ s.trace) n n c n
                  (ground (arith, h)),
            ))
      | inl some_left ↦
          rw (accept_region, some_left)
            (register_subscriber_lem (record s { trace = allocated ∷ s.trace }) shm n c
              (ground (arith, h)))
    ]

    map_subscription_lem :
        (looks : List Look) (s : Subscriptions) (shm : Output) (n c : ℕ)
        → Holds p s.trace n n (c + once (p (theirs publisher_id key))) n
        → Ends publisher_id key s (map_subscription k looks s publisher_id key shm) n c
    unfolding map_subscription
    map_subscription_lem looks s shm n c h = elim (Option-cases (k.memremap s.trace shm)) [
      | inl unmappable ↦
          rw (map_subscription, unmappable)
            (inr (
              failed enomem,
              refl,
              inl (
                enomem,
                refl,
                refl,
                refl,
                rollback_subscription-Holds k publisher_id key (refused ∷ s.trace) n n c n
                    (ground (arith, h)),
              ),
            ))
      | inr (region, maps) ↦
          let s' = record s { trace = mapped ∷ s.trace } in
          let h' : Holds p (mapped ∷ s.trace) n (n + 1) (c + once (p (theirs publisher_id key))) n =
            ground (arith, h) in
          elim (Option-cases (wait_for_region looks shm.shm_size publisher_id key)) [
            | inl waits ↦ rw (map_subscription, maps, waits) (inl (refl, refl, refl, h'))
            | inr (err, looked) ↦
                rw (map_subscription, maps, looked)
                  (inr (_, refl, accept_region_lem s' err shm n c h'))
          ]
    ]

    -- `ivc_subscribe_channel` on every path, where no other call of this side comes between. As long as it waits for the
    -- publisher to lay out the region it holds one mapping and the channel that was asked for. Then it fails, and the devices and
    -- their counter are as before, no more memory, mappings or registrations are held than before, and no more channels, of
    -- whichever publishers and keys are counted, but those that the hypervisor was asked to take back and refused. Or fewer than 16
    -- devices were there, and one more is registered, counted and idle, for the publisher and key that were asked
    -- for, and holds one allocation, mapping and registration, and this channel.
    pub subscribe_channel_lem :
        (looks : List Look) (s : Subscriptions) (n c : ℕ)
        → Holds p s.trace n n c n
        → Ends publisher_id key s (subscribe_channel k looks s publisher_id key) n c
    unfolding subscribe_channel
    subscribe_channel_lem looks s n c h = elim (Bool-cases (k.has_memory s.trace)) [
      | inr none_left ↦
          rw (subscribe_channel, none_left)
            (inr (failed enomem, refl, inl (enomem, refl, refl, refl, ground (arith, h))))
      | inl some_left ↦
          let t = allocated ∷ s.trace in
          elim (Bool-cases (k.has_address t)) [
            | inr nowhere ↦
                rw (subscribe_channel, some_left, nowhere)
                  (inr (failed efault, refl, inl (efault, refl, refl, refl, ground (arith, h))))
            | inl somewhere ↦ elim (Result-cases (k.hvc_subscribe t publisher_id key)) [
              | inl (e, bad) ↦
                  rw (subscribe_channel, some_left, somewhere, bad)
                    (inr (failed eio, refl, inl (eio, refl, refl, refl, ground (arith, h))))
              | inr (shm, good) ↦
                  rw (subscribe_channel, some_left, somewhere, good)
                    (map_subscription_lem looks
                      (record s { trace = freed ∷ published (theirs publisher_id key) ∷ t }) shm n c
                      (ground (arith, h)))
            ]
          ]
    ]
