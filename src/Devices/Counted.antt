-- ===== src/Devices/Counted.antt =====
-- ivc/ivc.c: what the driver holds, and a publication on every path.
use axvisor_tools.Common.{
  once, ℕ, Bool, true, ◌+◌, ◌<◌, ◌≡◌, ◌⊎◌, inl, inr, refl, arith, Bool-cases, Option-cases,
  Result-cases, [], ◌∷◌, ◌++◌, dec_lt, Errno, Result, done, failed, enospc, enomem, efault, eio,
}
use axvisor_tools.Ring.Defs.{u32}
use axvisor_tools.Region.Defs.{init_publisher}
use axvisor_tools.Devices.Publishers.{
  Channel, own, Event, allocated, freed, mapped, unmapped, published, unpublished, stranded,
  registered, deregistered, refused, Trace, Output, Kernel, Publications, max_vdevs,
  rollback_channel, unmap_region, fresh, register_vdev, map_channel, publish_channel,
}

abbrev pub any : Channel → Bool
any channel = true

-- How many events of a trace each predicate holds of.
abbrev pub count : (Event → ℕ) → Trace → ℕ
count weight [] = 0
count weight (event ∷ t) = weight event + count weight t

abbrev pub got_memory : Event → ℕ
got_memory allocated = 1
got_memory _ = 0

abbrev pub freed_memory : Event → ℕ
freed_memory freed = 1
freed_memory _ = 0

abbrev pub got_mapping : Event → ℕ
got_mapping mapped = 1
got_mapping _ = 0

abbrev pub undid_mapping : Event → ℕ
undid_mapping unmapped = 1
undid_mapping _ = 0

abbrev pub got_channel : (Channel → Bool) → Event → ℕ
got_channel p (published channel) = once (p channel)
got_channel p _ = 0

abbrev pub gave_channel : (Channel → Bool) → Event → ℕ
gave_channel p (unpublished channel) = once (p channel)
gave_channel p _ = 0

abbrev pub stranded_channel : (Channel → Bool) → Event → ℕ
stranded_channel p (stranded channel) = once (p channel)
stranded_channel p _ = 0

abbrev pub got_device : Event → ℕ
got_device registered = 1
got_device _ = 0

abbrev pub undid_device : Event → ℕ
undid_device deregistered = 1
undid_device _ = 0

-- `m` allocations, `n` mappings, `c` of the channels that `p` holds of, and `d` devices are held. A channel is
-- held until it is given back, or the hypervisor refuses to take it.
pub record Holds (p : Channel → Bool) (t : Trace) (m n c d : ℕ) : Type 0 where
  pub memory : count got_memory t ≡ count freed_memory t + m
  pub mappings : count got_mapping t ≡ count undid_mapping t + n
  pub channels :
      count (got_channel p) t ≡ count (gave_channel p) t + count (stranded_channel p) t + c
  pub devices : count got_device t ≡ count undid_device t + d

module _ (p : Channel → Bool) where
  rollback_channel-Holds :
      (k : Kernel) (key : ℕ) (t : Trace) (m n c d : ℕ)
      → Holds p t m n (c + once (p (own key))) d
      → Holds p (rollback_channel k key t) m n c d
  rollback_channel-Holds k key t m n c d h = elim (Result-cases (k.hvc_unpublish t key)) [
    | inl (e, bad) ↦ rw bad (ground (arith, h))
    | inr (u, good) ↦ rw good (ground (arith, h))
  ]

  unmap_region-Holds :
      (k : Kernel) (key : ℕ) (t : Trace) (m n c d : ℕ)
      → Holds p t m (n + 1) (c + once (p (own key))) d
      → Holds p (unmap_region k key t) m n c d
  unmap_region-Holds k key t m n c d h =
      rollback_channel-Holds k key (unmapped ∷ t) m n c d (ground (arith, h))

  -- A publication registers one more device, with all it needs, or fails and leaves the devices alone.
  abbrev pub Publishes : ℕ → Publications → Result ℕ × Publications → ℕ → ℕ → Type 0
  Publishes key s (r, s') n c =
      ((e : Errno) × (r ≡ failed e)
        × (s'.vdevs ≡ s.vdevs)
        × (s'.vdev_count ≡ s.vdev_count)
        × Holds p s'.trace n n c n)
      ⊎ ((id : ℕ) × (shm : Output) × (r ≡ done id)
          × (s.vdev_count < max_vdevs)
          × (s'.vdevs ≡ s.vdevs ++ (fresh id key shm ∷ []))
          × (s'.vdev_count ≡ s.vdev_count + 1)
          × Holds p s'.trace (n + 1) (n + 1) (c + once (p (own key))) (n + 1))

  register_vdev_lem :
      (k : Kernel) (s : Publications) (key : ℕ) (shm : Output) (n c : ℕ)
      → Holds p s.trace (n + 1) (n + 1) (c + once (p (own key))) n
      → Publishes key s (register_vdev k s key shm) n c
  register_vdev_lem k s key shm n c h = elim (dec_lt s.vdev_count max_vdevs) [
    | no full ↦
        let runs : register_vdev k s key shm
            ≡ (failed enospc, record s { trace = unmap_region k key (freed ∷ s.trace) }) =
          unfold register_vdev in ground arith in
        rw runs (
          inl (
            enospc,
            refl,
            refl,
            refl,
            unmap_region-Holds k key (freed ∷ s.trace) n n c n (ground (arith, h)),
          ))
    | yes room ↦ elim (Result-cases (k.misc_register s.trace s.next_vdev_id)) [
      | inl (e, bad) ↦
          let runs : register_vdev k s key shm ≡ (
            failed e,
            record s {
              next_vdev_id = u32 (s.next_vdev_id + 1);
              trace = unmap_region k key (freed ∷ refused ∷ s.trace);
            },
          ) =
            unfold register_vdev in ground (arith, bad) in
          rw runs (
            inl (
              e,
              refl,
              refl,
              refl,
              unmap_region-Holds k key (freed ∷ refused ∷ s.trace) n n c n (ground (arith, h)),
            ))
      | inr (u, good) ↦
          let runs : register_vdev k s key shm ≡ (
            done s.next_vdev_id,
            record {
              vdev_count = s.vdev_count + 1;
              next_vdev_id = u32 (s.next_vdev_id + 1);
              vdevs = s.vdevs ++ (fresh s.next_vdev_id key shm ∷ []);
              trace = registered ∷ s.trace;
            },
          ) =
            unfold register_vdev in ground (arith, good) in
          rw runs (inr (s.next_vdev_id, shm, refl, room, refl, refl, ground (arith, h)))
    ]
  ]

  map_channel_lem :
      (k : Kernel) (s : Publications) (key : ℕ) (shm : Output) (n c : ℕ)
      → Holds p s.trace n n (c + once (p (own key))) n
      → Publishes key s (map_channel k s key shm) n c
  map_channel_lem k s key shm n c h = elim (Option-cases (k.memremap s.trace shm)) [
    | inl unmappable ↦
        let runs : map_channel k s key shm
            ≡ (failed enomem, record s { trace = rollback_channel k key (refused ∷ s.trace) }) =
          unfold map_channel in ground (arith, unmappable) in
        rw runs (
          inl (
            enomem,
            refl,
            refl,
            refl,
            rollback_channel-Holds k key (refused ∷ s.trace) n n c n (ground (arith, h)),
          ))
    | inr (region, maps) ↦
        let t = mapped ∷ s.trace in
        elim (Result-cases ((init_publisher region shm.shm_size key).0)) [
          | inl (e, bad) ↦
              let runs : map_channel k s key shm
                  ≡ (failed e, record s { trace = unmap_region k key t }) =
                unfold map_channel in ground (arith, maps, bad) in
              rw runs
                (inl (e, refl, refl, refl, unmap_region-Holds k key t n n c n (ground (arith, h))))
          | inr (u, good) ↦ elim (Bool-cases (k.has_memory t)) [
            | inr none_left ↦
                let runs : map_channel k s key shm
                    ≡ (failed enomem, record s { trace = unmap_region k key (refused ∷ t) }) =
                  unfold map_channel in ground (arith, maps, good, none_left) in
                rw runs (
                  inl (
                    enomem,
                    refl,
                    refl,
                    refl,
                    unmap_region-Holds k key (refused ∷ t) n n c n (ground (arith, h)),
                  ))
            | inl some_left ↦
                let runs : map_channel k s key shm
                    ≡ register_vdev k (record s { trace = allocated ∷ t }) key shm =
                  unfold map_channel in ground (arith, maps, good, some_left) in
                rw runs (
                  register_vdev_lem k (record s { trace = allocated ∷ t }) key shm n c
                    (ground (arith, h)))
          ]
        ]
  ]

  -- `ivc_publish_channel` on every path, where no other call comes between. It fails, and then the devices and their
  -- counter are as before, no more memory, mappings or registrations are held than before, and no more channels, of whichever
  -- keys are counted, but those that the hypervisor was asked to take back and refused. Or fewer than 16 devices were there, and
  -- one more is registered, counted and idle, for the key that was asked for, and holds one allocation, mapping and
  -- registration, and the channel with this key.
  pub publish_channel_lem :
      (k : Kernel) (s : Publications) (key expected_shm_size : ℕ) (n c : ℕ)
      → Holds p s.trace n n c n
      → Publishes key s (publish_channel k s key expected_shm_size) n c
  publish_channel_lem k s key size n c h = elim (Bool-cases (k.has_memory s.trace)) [
    | inr none_left ↦
        let runs : publish_channel k s key size
            ≡ (failed enomem, record s { trace = refused ∷ s.trace }) =
          unfold publish_channel in rw none_left refl in
        rw runs (inl (enomem, refl, refl, refl, ground (arith, h)))
    | inl some_left ↦
        let t = allocated ∷ s.trace in
        elim (Bool-cases (k.has_address t)) [
          | inr nowhere ↦
              let runs : publish_channel k s key size
                  ≡ (failed efault, record s { trace = freed ∷ t }) =
                unfold publish_channel in rw (some_left, nowhere) refl in
              rw runs (inl (efault, refl, refl, refl, ground (arith, h)))
          | inl somewhere ↦ elim (Result-cases (k.hvc_publish t key size)) [
            | inl (e, bad) ↦
                let runs : publish_channel k s key size
                    ≡ (failed eio, record s { trace = freed ∷ refused ∷ t }) =
                  unfold publish_channel in rw (some_left, somewhere, bad) refl in
                rw runs (inl (eio, refl, refl, refl, ground (arith, h)))
            | inr (shm, good) ↦
                let runs : publish_channel k s key size
                    ≡ map_channel k (record s { trace = freed ∷ published (own key) ∷ t }) key shm =
                  unfold publish_channel in rw (some_left, somewhere, good) refl in
                rw runs (
                  map_channel_lem k (record s { trace = freed ∷ published (own key) ∷ t }) key shm n
                    c (ground (arith, h)))
          ]
        ]
  ]
