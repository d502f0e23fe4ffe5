-- ===== src/Devices/SectionTests.antt =====
-- Two publications of ivc/ivc.c whose sections interleave, and the same of two subscriptions.
use axvisor_tools.Common.{
  ◌≡◌, ◌+◌, ◌≤◌, refl, true, none, List, [], ◌∷◌, length, All, done, success,
}
use axvisor_tools.Devices.Publishers.{
  Kernel, Output, max_vdevs, unpublish_locked, unpublish_rest, open_device, release_device,
}
use axvisor_tools.Devices.Exclusive.{IsExclusive}
use axvisor_tools.Devices.Watched as Watched
use axvisor_tools.Devices.Places.{reserves_place, cancels_place, adds_place}
use axvisor_tools.Devices.Sections.{
  Section, reserves, cancels, adds, opens_reserved, marks, removes, opens, section, run_sections,
  no_places, registry_counted,
}
use axvisor_tools.Devices.SubscriberSections as Sub
use axvisor_tools.Devices.SubscriberSections.{
  SubscriberSection, no_subscriber_places, subscriptions_counted,
}

abbrev shm : Output
shm = record { shm_base = 4096; shm_size = 20480 }

abbrev kernel : Kernel
kernel = record {
  has_memory = λ t. true;
  has_address = λ t. true;
  hvc_publish = λ t key size. done shm;
  hvc_unpublish = λ t key. success;
  hvc_subscribe = λ t publisher_id key. done shm;
  hvc_unsubscribe = λ t publisher_id key. success;
  memremap = λ t shm. none;
  misc_register = λ t id. success;
}

-- Device 1 is listed before device 0, which is open by then; the place of device 2 is given up.
abbrev sections : List Section
sections =
    reserves 77 shm
    ∷ reserves 78 shm
    ∷ opens_reserved 0
    ∷ adds 1
    ∷ reserves 79 shm
    ∷ adds 0
    ∷ cancels 2
    ∷ marks 77
    ∷ marks 78
    ∷ opens 1
    ∷ removes 1
    ∷ []

one_listed : (run_sections kernel no_places sections).registry.vdev_count ≡ 1
unfolding run_sections section reserves_place cancels_place adds_place unpublish_locked
    unpublish_rest open_device release_device
one_listed = refl

registry_counted_example :
    let w = run_sections kernel no_places sections in
    (w.registry.vdev_count ≡ length w.registry.vdevs + length w.pending)
    × (w.registry.vdev_count ≤ max_vdevs)
    × All IsExclusive w.registry.vdevs
    × All IsExclusive w.pending
registry_counted_example = registry_counted kernel sections

abbrev subscriber_sections : List SubscriberSection
subscriber_sections =
    Sub.reserves 2 77 shm
    ∷ Sub.reserves 2 78 shm
    ∷ Sub.adds 1
    ∷ Sub.opens 1
    ∷ Sub.marks 2 78
    ∷ Sub.cancels 0
    ∷ []

subscriptions_counted_example :
    let w = Sub.run_sections kernel no_subscriber_places subscriber_sections in
    (w.registry.vdev_count ≡ length w.registry.vdevs + length w.pending)
    × (w.registry.vdev_count ≤ max_vdevs)
    × All Watched.IsExclusive w.registry.vdevs
    × All Watched.IsExclusive w.pending
subscriptions_counted_example = subscriptions_counted kernel subscriber_sections
