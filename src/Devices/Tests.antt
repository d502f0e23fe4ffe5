-- ===== src/Devices/Tests.antt =====
-- A driver with one channel prepared by the hypervisor, and the theorems at concrete inputs.
use axvisor_tools.Common.{
  Bool, ◌==◌, false, ◌≡◌, refl, true, some, List, [], ◌∷◌, All, done, success,
}
use axvisor_tools.Ring.Defs.{Ring}
use axvisor_tools.Region.Defs.{Region, init_publisher}
use axvisor_tools.Devices.Subscribers.{Look, subscribe_channel}
use axvisor_tools.Devices.Subscribed.{Ends, subscribe_channel_lem}
use axvisor_tools.Devices.SubscriberSteps as SubscriberSteps
use axvisor_tools.Devices.SubscriberSteps.{
  SubscriberStep, subscribes, unsubscribe_begins, unsubscribe_ends, opens_subscriber,
  releases_subscriber, reads_subscriber, writes_subscriber, no_subscriptions,
}
use axvisor_tools.Devices.Driver.{publish, unpublish, subscribe, unknown}
use axvisor_tools.Devices.Unload.{Use, asks, publisher_step}
use axvisor_tools.Devices.Publishers.{
  Channel, own, Kernel, publish_channel, map_channel, register_vdev, unpublish_locked,
  unpublish_rest, open_device, release_device,
}
use axvisor_tools.Devices.Counted.{any, Holds, Publishes, publish_channel_lem}
use axvisor_tools.Devices.Steps.{
  Step, publishes, unpublish_begins, unpublish_ends, opens, releases, reads, writes, step, run,
  loaded,
}
use axvisor_tools.Devices.Send.{SendRound}
use axvisor_tools.Devices.Receive.{Round}
use axvisor_tools.Devices.Rest.{IsAtRest, devices-IsAtRest}
use axvisor_tools.Devices.SubscriberRest as SubscriberRest
use axvisor_tools.Devices.SubscriberRest.{subscribers-IsAtRest}

abbrev old_ring : Ring
old_ring = record { direction = 0; capacity = 0; slot_size = 0; head = 0; tail = 0; slots = [] }

-- What the hypervisor has prepared: publisher 2, key 77.
abbrev prepared : Region
prepared = record {
  publisher_id = 2;
  key = 77;
  header = record {
    magic = 0;
    version = 0;
    header_size = 0;
    region_size = 0;
    features = 0;
    publisher_to_subscriber_offset = 0;
    subscriber_to_publisher_offset = 0;
    ring_size = 0;
  };
  publisher_to_subscriber = old_ring;
  subscriber_to_publisher = old_ring;
}

abbrev kernel : Kernel
kernel = record {
  has_memory = λ t. true;
  has_address = λ t. true;
  hvc_publish = λ t key size. done (record { shm_base = 4096; shm_size = 20480 });
  hvc_unpublish = λ t key. success;
  hvc_subscribe = λ t publisher_id key. done (record { shm_base = 4096; shm_size = 20480 });
  hvc_unsubscribe = λ t publisher_id key. success;
  memremap = λ t shm. some prepared;
  misc_register = λ t id. success;
}

-- Key 78 is rolled back; device 0 is not removed while it is open, nor opened while it is removed; the
-- key is published again as device 1.
abbrev steps : List Step
steps =
    publishes 77 20480
    ∷ publishes 78 20480
    ∷ opens 0
    ∷ unpublish_begins 77
    ∷ releases 0
    ∷ unpublish_begins 77
    ∷ opens 0
    ∷ unpublish_ends 0
    ∷ publishes 77 20480
    ∷ []

one_device : (run kernel loaded steps).vdev_count ≡ 1
unfolding run step publish_channel map_channel register_vdev init_publisher unpublish_locked
    unpublish_rest open_device release_device
one_device = refl

-- A ring that no one reads, and a peer that does nothing.
abbrev full_ring : Ring
full_ring = record old_ring { tail = 32 }

abbrev impatient : SendRound (Unit {0})
impatient = record { peer = λ s ring. (s, ring); copies = true; late = false; interrupted = true }

abbrev silent : Round (Unit {0})
silent = record { peer = λ s ring. (s, ring); copies = true; late = true; interrupted = false }

-- A write that gives up, tries once to abort, and leaves the device to be opened again.
abbrev transfers : List Step
transfers =
    publishes 77 20480
    ∷ opens 0
    ∷ writes 0 success (record { peer = λ s ring. (s, ring); late = true } ∷ []) (impatient ∷ [])
        (7 ∷ []) full_ring
    ∷ reads 0 success (silent ∷ []) old_ring 4
    ∷ releases 0
    ∷ opens 0
    ∷ []

devices-IsAtRest_example : All IsAtRest (run kernel loaded transfers).vdevs
devices-IsAtRest_example = devices-IsAtRest kernel transfers

loaded-Holds : Holds any loaded.trace 0 0 0 0
loaded-Holds = record { memory = refl; mappings = refl; channels = refl; devices = refl }

-- The channel with key 77 of this machine.
abbrev just_77 : Channel → Bool
just_77 (own key) = key == 77
just_77 _ = false

loaded-Holds_77 : Holds just_77 loaded.trace 0 0 0 0
loaded-Holds_77 = record { memory = refl; mappings = refl; channels = refl; devices = refl }

publish_channel_lem_example :
    Publishes just_77 77 loaded (publish_channel kernel loaded 77 20480) 0 0
publish_channel_lem_example = publish_channel_lem just_77 kernel loaded 77 20480 0 0 loaded-Holds_77

-- A subscriber that looks before and after the region is laid out.
abbrev laid_out : Region
laid_out = (init_publisher prepared 20480 77).1

abbrev looks : List Look
looks =
    record { region = prepared; late = false; interrupted = false }
    ∷ record { region = laid_out; late = false; interrupted = false }
    ∷ []

abbrev subscriber_steps : List SubscriberStep
subscriber_steps =
    subscribes looks 2 77
    ∷ opens_subscriber 0
    ∷ unsubscribe_begins 2 77
    ∷ releases_subscriber 0
    ∷ unsubscribe_begins 2 77
    ∷ unsubscribe_ends 0
    ∷ subscribes looks 2 77
    ∷ []

-- The subscriber's write is interrupted on a full ring.
abbrev transfers_back : List SubscriberStep
transfers_back =
    subscribes looks 2 77
    ∷ opens_subscriber 0
    ∷ writes_subscriber 0 success [] (impatient ∷ []) (7 ∷ []) full_ring
    ∷ reads_subscriber 0 success (silent ∷ []) old_ring 4
    ∷ releases_subscriber 0
    ∷ []

subscribers-IsAtRest_example :
    All SubscriberRest.IsAtRest (SubscriberSteps.run kernel no_subscriptions transfers_back).vdevs
subscribers-IsAtRest_example = subscribers-IsAtRest kernel transfers_back

subscribe_channel_lem_example :
    Ends any 2 77 no_subscriptions (subscribe_channel kernel looks no_subscriptions 2 77) 0 0
subscribe_channel_lem_example =
    subscribe_channel_lem any kernel 2 77 looks no_subscriptions 0 0 loaded-Holds

-- Requests of both sides, one of which cannot be answered to the user, and devices left open at the end.
abbrev uses : List Use
uses =
    asks [] true true (publish 77 20480)
    ∷ asks looks true true (subscribe 2 77)
    ∷ asks looks true false (subscribe 2 77)
    ∷ publisher_step (opens 0)
    ∷ asks [] true true (unpublish 77)
    ∷ asks [] false true unknown
    ∷ []
