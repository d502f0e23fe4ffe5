-- ===== src/Uio/Probe.antt =====
-- uio_ivshmem/uio_ivshmem.c: probe and remove. What the PCI and UIO cores answer is a parameter; what is
-- asked of them is kept as a list, in order.
use axvisor_tools.Common.{
  ℕ, Bool, not, List, [], ◌∷◌, ◌==◌, if◌then◌else◌, Result, done, failed, Code, success, enodev,
  enomem, enospc,
}

abbrev pub ivshmem_revision : ℕ
ivshmem_revision = 1

-- One call for each resource that probe acquires, and one for giving it back; and the two writes of the
-- interrupt control register. The device structure is freed with the PCI device.
pub data PciCall : Type 0 where
  enable_device request_regions alloc_vectors map_registers register_uio : PciCall
  disable_device release_regions free_vectors unmap_registers unregister_uio : PciCall
  interrupts_on interrupts_off : PciCall

pub record Answers : Type 0 where
  pub revision : ℕ
  pub has_memory : Bool
  pub enables : Code
  pub regions : Code
  pub vectors : Result ℕ
  pub maps : Bool
  pub registers : Code

-- The labels at the end of `ivshmem_uio_probe`, each with those below it.
abbrev pub disable_device_label : List PciCall
disable_device_label = disable_device ∷ []

abbrev pub release_regions_label : List PciCall
release_regions_label = release_regions ∷ disable_device_label

abbrev pub free_vectors_label : List PciCall
free_vectors_label = free_vectors ∷ release_regions_label

abbrev pub unmap_registers_label : List PciCall
unmap_registers_label = unmap_registers ∷ free_vectors_label

-- Only calls that succeed are kept.
unfoldable pub probe : Answers → Code × List PciCall
probe a =
    if not (a.revision == ivshmem_revision)
    then (failed enodev, [])
    else if not a.has_memory
    then (failed enomem, [])
    else elim a.enables [
      | failed e ↦ (failed e, [])
      | done _ ↦ elim a.regions [
        | failed e ↦ (failed e, enable_device ∷ disable_device_label)
        | done _ ↦ elim a.vectors [
          | failed e ↦ (failed e, enable_device ∷ request_regions ∷ release_regions_label)
          | done count ↦
              if not (count == 1)
              then (
                failed enospc,
                enable_device ∷ request_regions ∷ alloc_vectors ∷ free_vectors_label,
              )
              else if not a.maps
              then (
                failed enomem,
                enable_device ∷ request_regions ∷ alloc_vectors ∷ free_vectors_label,
              )
              else elim a.registers [
                | failed e ↦ (
                  failed e,
                  enable_device ∷ request_regions ∷ alloc_vectors ∷ map_registers
                      ∷ unmap_registers_label,
                )
                | done _ ↦ (
                  success,
                  enable_device ∷ request_regions ∷ alloc_vectors ∷ map_registers ∷ register_uio
                      ∷ interrupts_on ∷ [],
                )
              ]
        ]
      ]
    ]

-- `ivshmem_uio_remove`, without its balancing of the interrupt.
unfoldable pub remove : List PciCall
remove =
    interrupts_off ∷ unregister_uio ∷ unmap_registers ∷ free_vectors ∷ release_regions
    ∷ disable_device ∷ []
