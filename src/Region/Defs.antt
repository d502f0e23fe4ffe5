-- ===== src/Region/Defs.antt =====
-- ivc/region.c and ivc/includes/region.h. `base` is the region itself; a function that changes it
-- returns the new one. The stores of `axivc_region_init_publisher` are kept as a list, in program
-- order, so that a peer can be shown what stands between two of them.
use axvisor_tools.Common.{
  ℕ, ◌+◌, Bool, ◌||◌, not, List, [], ◌∷◌, ltb, ◌==◌, if◌then◌else◌, bit_and, Code, success, failed,
  einval, eagain, eproto, reject_if, ◌>>◌,
}
use axvisor_tools.Ring.Defs.{Ring, initialize, axivc_ring_capacity, axivc_slot_size}

abbrev pub region_magic : ℕ
region_magic = 0x49564332

abbrev pub region_version : ℕ
region_version = 3

abbrev pub feature_spsc_opaque_slots : ℕ
feature_spsc_opaque_slots = 1

-- The sizes and offsets that `axivc_region_check_layout` fixes.
abbrev pub sizeof_region_header : ℕ
sizeof_region_header = 32

abbrev pub sizeof_ring : ℕ
sizeof_ring = 8448

abbrev pub sizeof_region : ℕ
sizeof_region = 17152

abbrev pub offset_publisher_to_subscriber : ℕ
offset_publisher_to_subscriber = 256

abbrev pub offset_subscriber_to_publisher : ℕ
offset_subscriber_to_publisher = 8704

abbrev pub direction_publisher_to_subscriber : ℕ
direction_publisher_to_subscriber = 1

abbrev pub direction_subscriber_to_publisher : ℕ
direction_subscriber_to_publisher = 2

pub record RegionHeader : Type 0 where
  pub magic : ℕ
  pub version : ℕ
  pub header_size : ℕ
  pub region_size : ℕ
  pub features : ℕ
  pub publisher_to_subscriber_offset : ℕ
  pub subscriber_to_publisher_offset : ℕ
  pub ring_size : ℕ

pub record Region : Type 0 where
  pub publisher_id : ℕ
  pub key : ℕ
  pub header : RegionHeader
  pub publisher_to_subscriber : Ring
  pub subscriber_to_publisher : Ring

-- A store through `region->header`.
abbrev pub at_header : (RegionHeader → RegionHeader) → Region → Region
at_header f region = record region { header = f region.header }

-- The stores, in program order.
unfoldable pub init_stores : ℕ → ℕ → List (Region → Region)
init_stores publisher_id key =
    at_header (λ h. record h { magic = 0 })
    ∷ (λ r. record r { publisher_id = publisher_id })
    ∷ (λ r. record r { key = key })
    ∷ (λ r. record r {
      publisher_to_subscriber =
          initialize r.publisher_to_subscriber direction_publisher_to_subscriber;
    })
    ∷ (λ r. record r {
      subscriber_to_publisher =
          initialize r.subscriber_to_publisher direction_subscriber_to_publisher;
    })
    ∷ at_header (λ h. record h { header_size = sizeof_region_header })
    ∷ at_header (λ h. record h { region_size = sizeof_region })
    ∷ at_header (λ h. record h { features = feature_spsc_opaque_slots })
    ∷ at_header (λ h. record h { publisher_to_subscriber_offset = offset_publisher_to_subscriber })
    ∷ at_header (λ h. record h { subscriber_to_publisher_offset = offset_subscriber_to_publisher })
    ∷ at_header (λ h. record h { ring_size = sizeof_ring })
    ∷ at_header (λ h. record h { version = region_version })
    ∷ at_header (λ h. record h { magic = region_magic })
    ∷ []

unfoldable pub run_stores : List (Region → Region) → Region → Region
run_stores [] region = region
run_stores (store ∷ stores) region = run_stores stores (store region)

unfoldable pub init_publisher : Region → ℕ → ℕ → Code × Region
unfolding init_stores run_stores
init_publisher region shm_size channel_key =
    if ltb shm_size sizeof_region
    then (failed einval, region)
    else if not (region.key == channel_key)
    then (failed eproto, region)
    else (success, run_stores (init_stores region.publisher_id region.key) region)

-- The checks of one ring's layout fields, each a load of its own.
abbrev pub ring_mismatch : (ℕ → Ring) → ℕ → Bool
ring_mismatch seen direction =
    not ((seen 0).direction == direction)
    || not ((seen 1).capacity == axivc_ring_capacity)
    || not ((seen 2).slot_size == axivc_slot_size)

-- The peer may store between two loads: `seen n` is the region as load `n` finds it.
unfoldable pub validate_loads : (ℕ → Region) → ℕ → ℕ → ℕ → Code
validate_loads seen shm_size publisher_id channel_key = do
  reject_if (ltb shm_size sizeof_region) einval
  reject_if (not ((seen 0).publisher_id == publisher_id) || not ((seen 1).key == channel_key))
      einval
  reject_if (not ((seen 2).header.magic == region_magic)) eagain
  reject_if (not ((seen 3).header.version == region_version)) eproto
  reject_if (not ((seen 4).header.header_size == sizeof_region_header)) eproto
  reject_if (ltb (seen 5).header.region_size sizeof_region) eproto
  reject_if
      (not
        (bit_and (seen 6).header.features feature_spsc_opaque_slots == feature_spsc_opaque_slots))
      eproto
  reject_if (not ((seen 7).header.publisher_to_subscriber_offset == offset_publisher_to_subscriber))
      eproto
  reject_if (not ((seen 8).header.subscriber_to_publisher_offset == offset_subscriber_to_publisher))
      eproto
  reject_if (not ((seen 9).header.ring_size == sizeof_ring)) eproto
  reject_if
      (ring_mismatch (λ n. (seen (10 + n)).publisher_to_subscriber)
        direction_publisher_to_subscriber)
      eproto
  reject_if
      (ring_mismatch (λ n. (seen (13 + n)).subscriber_to_publisher)
        direction_subscriber_to_publisher)
      eproto
  success

-- No one stores meanwhile.
abbrev pub validate : Region → ℕ → ℕ → ℕ → Code
validate region = validate_loads (λ n. region)
