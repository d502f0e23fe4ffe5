-- ===== src/Uio/Cleanup.antt =====
-- uio_ivshmem/uio_ivshmem.c: probe and remove give back what was acquired, the last first.
use axvisor_tools.Common.{
  ◌≡◌, ◌⊎◌, arith, Option, none, some, List, [], ◌∷◌, ◌++◌, Errno, done, failed, success,
}
use axvisor_tools.Uio.Probe.{
  PciCall, enable_device, request_regions, alloc_vectors, map_registers, register_uio,
  disable_device, release_regions, free_vectors, unmap_registers, unregister_uio, interrupts_on,
  interrupts_off, Answers, ivshmem_revision, probe, remove,
}

-- The resources held, the latest first, and whether the device may interrupt.
pub data Resource : Type 0 where
  device regions vectors registers uio interrupts : Resource

-- A call acquires one more, or gives back the latest and no other.
abbrev pub act : PciCall → List Resource → Option (List Resource)
act enable_device held = some (device ∷ held)
act request_regions held = some (regions ∷ held)
act alloc_vectors held = some (vectors ∷ held)
act map_registers held = some (registers ∷ held)
act register_uio held = some (uio ∷ held)
act interrupts_on held = some (interrupts ∷ held)
act disable_device (device ∷ held) = some held
act release_regions (regions ∷ held) = some held
act free_vectors (vectors ∷ held) = some held
act unmap_registers (registers ∷ held) = some held
act unregister_uio (uio ∷ held) = some held
act interrupts_off (interrupts ∷ held) = some held
act _ _ = none

abbrev pub and_then : List PciCall → Option (List Resource) → Option (List Resource)
and_then [] held = held
and_then (call ∷ calls) none = none
and_then (call ∷ calls) (some held) = and_then calls (act call held)

-- A probe that fails holds nothing in the end, and has given back all it had acquired in the opposite
-- order. One that succeeds holds all, on a device of the right revision with exactly one vector, and
-- removing the device gives all back in the opposite order.
pub probe_cleanup :
    (a : Answers)
    → let (code, calls) = probe a in
      ((e : Errno) × (code ≡ failed e) × (and_then calls (some []) ≡ some []))
      ⊎ ((code ≡ success)
          × (a.revision ≡ ivshmem_revision)
          × (a.vectors ≡ done 1)
          × (and_then calls (some [])
              ≡ some (interrupts ∷ uio ∷ registers ∷ vectors ∷ regions ∷ device ∷ []))
          × (and_then (calls ++ remove) (some []) ≡ some []))
unfolding probe remove
probe_cleanup a = ground arith
