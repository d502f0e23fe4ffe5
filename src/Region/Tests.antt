-- ===== src/Region/Tests.antt =====
-- A region that is published over stale contents, and a run in which a check of the subscriber
-- fails.
use axvisor_tools.Common.{
  ◌+◌, ◌≡◌, ◌≤◌, ◌≢◌, ◌<◌, ◌⊎◌, refl, arith, [], failed, success, einval, eagain, eproto,
}
use axvisor_tools.Ring.Defs.{Ring}
use axvisor_tools.Ring.Inv.{IsValid}
use axvisor_tools.Ring.Refine.{contents}
use axvisor_tools.Region.Defs.{
  Region, sizeof_region, init_stores, init_publisher, validate, validate_loads,
}
use axvisor_tools.Region.Publication.{behind, init_publisher_lem, half_published}

abbrev stale_ring : Ring
stale_ring = record { direction = 7; capacity = 8; slot_size = 9; head = 5; tail = 2; slots = [] }

-- The header is that of a live region of an older layout.
abbrev stale : Region
stale = record {
  publisher_id = 4;
  key = 77;
  header = record {
    magic = 0x49564332;
    version = 2;
    header_size = 32;
    region_size = 17152;
    features = 1;
    publisher_to_subscriber_offset = 256;
    subscriber_to_publisher_offset = 8704;
    ring_size = 8448;
  };
  publisher_to_subscriber = stale_ring;
  subscriber_to_publisher = stale_ring;
}

old_version : validate stale 17152 4 77 ≡ failed eproto
unfolding validate_loads
old_version = refl

other_key : (init_publisher stale 17152 78).0 ≡ failed eproto
unfolding init_publisher
other_key = refl

init_publisher_lem_example :
    let (code, region') = init_publisher stale 20480 77 in
    ((20480 < sizeof_region) × (code ≡ failed einval) × (region' ≡ stale))
    ⊎ (((sizeof_region ≤ 20480) × (stale.key ≢ 77) × (code ≡ failed eproto) × (region' ≡ stale))
        ⊎ ((sizeof_region ≤ 20480)
            × (code ≡ success)
            × (region'.publisher_id ≡ 4)
            × (region'.key ≡ 77)
            × (validate region' 20480 4 77 ≡ success)
            × (contents region'.publisher_to_subscriber ≡ [])
            × (contents region'.subscriber_to_publisher ≡ [])
            × IsValid region'.publisher_to_subscriber
            × IsValid region'.subscriber_to_publisher))
init_publisher_lem_example = init_publisher_lem stale 20480 77

half_published_example : validate_loads (λ n. behind stale (n + 4)) 20480 4 77 ≡ failed eagain
unfolding init_stores
half_published_example =
    half_published stale 20480 (λ n. n + 4) (omega arith) (omega arith) (omega arith)
