-- ===== src/Devices/Places.antt =====
-- ivc/ivc.c: the sections under the lock of the registry of either side, by calls that interleave. Behind
-- its first section a publication or a subscription has a place, and is not in the list yet.
use axvisor_tools.Common.{
  ℕ, ◌+◌, ◌-◌, ◌≤◌, ◌≡◌, ◌⊎◌, inl, inr, sym, subst, Result, arith, Bool, none, some, Option-cases,
  Bool-cases, leb, List, [], ◌∷◌, ◌++◌, length, length-append, All, All-append, failed, done,
}
use axvisor_tools.Ring.Defs.{u32}
use axvisor_tools.Devices.Publishers.{Registry, max_vdevs, reserve, cancel, add, find, delete}
use axvisor_tools.Devices.Found.{length-delete, delete-All, find-All}

-- The registry, and the devices that have a place in it and are not in its list yet.
pub record Places (V : Type 0) : Type 0 where
  pub registry : Registry V
  pub pending : List V

-- The first section: `make` is the device with the id that it gets.
abbrev placed : {V : Type 0} → (ℕ → V) → Places V → Result ℕ × Registry V → Places V
placed make w (reserved, s) = elim reserved [
  | failed e ↦ w
  | done id ↦ record { registry = s; pending = w.pending ++ (make id ∷ []) }
]

unfoldable pub reserves_place : {V : Type 0} → (ℕ → V) → Places V → Places V
reserves_place make w = placed make w (reserve w.registry)

-- The last section, where the registration of the device has failed, and where it has not.
unfoldable pub cancels_place : {V : Type 0} → (V → Bool) → Places V → Places V
cancels_place p w = elim (find w.pending p) [
  | none ↦ w
  | some v ↦ record { registry = cancel w.registry; pending = delete w.pending p }
]

unfoldable pub adds_place : {V : Type 0} → (V → Bool) → Places V → Places V
adds_place p w = elim (find w.pending p) [
  | none ↦ w
  | some v ↦ record { registry = add w.registry v; pending = delete w.pending p }
]

module _ {V : Type 0} (P : V → Type 0) where
  -- The counter is the number of devices, listed or not, and at most 16.
  pub record PlacesInv (w : Places V) : Type 0 where
    pub counted : w.registry.vdev_count ≡ length w.registry.vdevs + length w.pending
    pub bounded : w.registry.vdev_count ≤ max_vdevs
    pub listed : All P w.registry.vdevs
    pub reserved : All P w.pending

  -- The list keeps its length, or a device of it and its place are gone.
  abbrev pub Changes : Registry V → Registry V → Type 0
  Changes s s' =
      ((s'.vdev_count ≡ s.vdev_count) × (length s'.vdevs ≡ length s.vdevs) × All P s'.vdevs)
      ⊎ ((s'.vdev_count ≡ s.vdev_count - 1)
          × (length s'.vdevs + 1 ≡ length s.vdevs)
          × All P s'.vdevs)

  pub changed-PlacesInv :
      (w : Places V) (s' : Registry V)
      → Changes w.registry s'
      → PlacesInv w
      → PlacesInv (record w { registry = s' })
  changed-PlacesInv w s' (inl (count, len, all)) inv = record {
    counted = omega (arith, inv.counted, count, len);
    bounded = omega (arith, inv.bounded, count);
    listed = all;
    reserved = inv.reserved;
  }
  changed-PlacesInv w s' (inr (count, len, all)) inv = record {
    counted = omega (arith, inv.counted, count, len);
    bounded = omega (arith, inv.bounded, count);
    listed = all;
    reserved = inv.reserved;
  }

  pub reserves-PlacesInv :
      (make : ℕ → V) (w : Places V)
      → ((id : ℕ) → P (make id))
      → PlacesInv w
      → PlacesInv (reserves_place make w)
  unfolding reserves_place
  reserves-PlacesInv make w good inv = elim (Bool-cases (leb max_vdevs w.registry.vdev_count)) [
    | inl full ↦ rw (reserves_place, full) inv
    | inr room ↦
        let v = make w.registry.next_vdev_id in
        let grown = length-append {0} w.pending (v ∷ []) in
        let s : Registry V = record w.registry {
          vdev_count = w.registry.vdev_count + 1;
          next_vdev_id = u32 (w.registry.next_vdev_id + 1);
        } in
        let runs : reserve w.registry ≡ (done w.registry.next_vdev_id, s) = ground (arith, room) in
        subst (λ r. PlacesInv (placed make w r)) (sym runs)
          (record {
            counted = omega (arith, inv.counted, grown);
            bounded = ground (arith, room);
            listed = inv.listed;
            reserved = All-append P w.pending v inv.reserved (good _);
          })
  ]

  pub cancels-PlacesInv :
      (p : V → Bool) (w : Places V) → PlacesInv w → PlacesInv (cancels_place p w)
  unfolding cancels_place
  cancels-PlacesInv p w inv = elim (Option-cases (find w.pending p)) [
    | inl unknown ↦ rw (cancels_place, unknown) inv
    | inr (v, found) ↦
        let less = length-delete p w.pending v found in
        rw (cancels_place, found)
          (record {
            counted = omega (arith, inv.counted, less);
            bounded = omega (arith, inv.bounded);
            listed = inv.listed;
            reserved = delete-All p P w.pending inv.reserved;
          })
  ]

  pub adds-PlacesInv : (p : V → Bool) (w : Places V) → PlacesInv w → PlacesInv (adds_place p w)
  unfolding adds_place
  adds-PlacesInv p w inv = elim (Option-cases (find w.pending p)) [
    | inl unknown ↦ rw (adds_place, unknown) inv
    | inr (v, found) ↦
        let less = length-delete p w.pending v found in
        let grown = length-append {0} w.registry.vdevs (v ∷ []) in
        rw (adds_place, found)
          (record {
            counted = omega (arith, inv.counted, less, grown);
            bounded = inv.bounded;
            listed =
                All-append P w.registry.vdevs v inv.listed
                  (find-All p P w.pending v found inv.reserved);
            reserved = delete-All p P w.pending inv.reserved;
          })
  ]
