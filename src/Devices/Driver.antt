-- ===== src/Devices/Driver.antt =====
-- ivc/ivc.c: `axivc_manager_ioctl`, `init_ivc_devices` and `uninit_ivc_devices`; and ivc/main.c: the load and
-- unload of the module. The registration of the IVSHMEM driver is a parameter.
use axvisor_tools.Common.{
  ℕ, Bool, true, false, not, Option, none, some, List, [], ◌∷◌, if◌then◌else◌, done, failed, Code,
  success, efault, einval,
}
use axvisor_tools.Devices.Publishers.{
  give_up, freed, unmapped, deregistered, Trace, Kernel, Vdev, Publications, publish_channel,
  unpublish_locked, unpublish_rest,
}
use axvisor_tools.Devices.Steps.{loaded}
use axvisor_tools.Devices.Subscribers.{
  give_up_subscription, SubscriberVdev, Subscriptions, Look, subscribe_channel, unsubscribe_locked,
  unsubscribe_rest,
}
use axvisor_tools.Devices.SubscriberSteps.{no_subscriptions}

-- The two sides, with one trace: a side's own is the one of the last call on it.
pub record Driver : Type 0 where
  pub publications : Publications
  pub subscriptions : Subscriptions
  pub trace : Trace

abbrev pub publications_of : Driver → Publications
publications_of d = record (d.publications) { trace = d.trace }

abbrev pub subscriptions_of : Driver → Subscriptions
subscriptions_of d = record (d.subscriptions) { trace = d.trace }

abbrev pub with_publications : Driver → Publications → Driver
with_publications d s = record d { publications = s; trace = s.trace }

abbrev pub with_subscriptions : Driver → Subscriptions → Driver
with_subscriptions d s = record d { subscriptions = s; trace = s.trace }

-- `ivc_unpublish_channel` and `ivc_unsubscribe_channel` in one piece.
unfoldable pub unpublish_channel : Kernel → Publications → ℕ → Code × Publications
unpublish_channel k s key =
    let (found, s') = unpublish_locked s key in
    elim found [ failed e ↦ (failed e, s') | done id ↦ unpublish_rest k s' key id ]

unfoldable pub unsubscribe_channel : Kernel → Subscriptions → ℕ → ℕ → Code × Subscriptions
unsubscribe_channel k s publisher_id key =
    let (found, s') = unsubscribe_locked s publisher_id key in
    elim found [ failed e ↦ (failed e, s') | done id ↦ unsubscribe_rest k s' publisher_id key id ]

-- A request of `ioctl` with the fields of its argument that the driver reads.
pub data Request : Type 0 where
  publish : ℕ → ℕ → Request
  unpublish : ℕ → Request
  subscribe : ℕ → ℕ → Request
  unsubscribe : ℕ → ℕ → Request
  unknown : Request

-- `copies_in` and `copies_out` say whether the user's argument can be read and written. Without a result
-- a subscription still waits, with these looks.
unfoldable pub manager_ioctl :
    Kernel → List Look → Bool → Bool → Driver → Request → Option Code × Driver
manager_ioctl k looks copies_in copies_out d (publish key shm_size) =
    if not copies_in
    then (some (failed efault), d)
    else let (r, s) = publish_channel k (publications_of d) key shm_size in
      elim r [
        | failed e ↦ (some (failed e), with_publications d s)
        | done id ↦
            if copies_out
            then (some success, with_publications d s)
            else (some (failed efault), with_publications d (unpublish_channel k s key).1)
      ]
manager_ioctl k looks copies_in copies_out d (unpublish key) =
    if not copies_in
    then (some (failed efault), d)
    else let (err, s) = unpublish_channel k (publications_of d) key in
      (some err, with_publications d s)
manager_ioctl k looks copies_in copies_out d (subscribe publisher_id key) =
    if not copies_in
    then (some (failed efault), d)
    else let (answer, s) = subscribe_channel k looks (subscriptions_of d) publisher_id key in
      elim answer [
        | none ↦ (none, with_subscriptions d s)
        | some r ↦ elim r [
          | failed e ↦ (some (failed e), with_subscriptions d s)
          | done id ↦ if copies_out then (some success, with_subscriptions d s) else (
            some (failed efault),
            with_subscriptions d (unsubscribe_channel k s publisher_id key).1,
          )
        ]
      ]
manager_ioctl k looks copies_in copies_out d (unsubscribe publisher_id key) =
    if not copies_in
    then (some (failed efault), d)
    else let (err, s) = unsubscribe_channel k (subscriptions_of d) publisher_id key in
      (some err, with_subscriptions d s)
manager_ioctl k looks copies_in copies_out d unknown = (some (failed einval), d)

-- The two loops of `uninit_ivc_devices`, which do not ask what the hypervisor answers.
unfoldable pub remove_publishers : Kernel → List Vdev → Trace → Trace
remove_publishers k [] t = t
remove_publishers k (v ∷ vs) t =
    remove_publishers k vs (freed ∷ unmapped ∷ deregistered ∷ give_up k v.key t)

unfoldable pub remove_subscribers : Kernel → List SubscriberVdev → Trace → Trace
remove_subscribers k [] t = t
remove_subscribers k (v ∷ vs) t =
    remove_subscribers k vs
      (freed ∷ unmapped ∷ deregistered ∷ give_up_subscription k v.publisher_id v.key t)

-- The module: its devices, and whether the management device and the IVSHMEM driver are registered.
pub record Module : Type 0 where
  pub driver : Driver
  pub manager : Bool
  pub ivshmem : Bool

unfoldable pub init_ivc_devices : Code → Module → Code × Module
init_ivc_devices registers m = elim registers [
  | failed e ↦ (failed e, m)
  | done _ ↦ (success, record m { manager = true })
]

unfoldable pub uninit_ivc_devices : Kernel → Module → Module
uninit_ivc_devices k m =
    let d = m.driver in
    record m {
      driver = record {
        publications = record (d.publications) { vdevs = [] };
        subscriptions = record (d.subscriptions) { vdevs = [] };
        trace =
            remove_subscribers k d.subscriptions.vdevs
              (remove_publishers k d.publications.vdevs d.trace);
      };
      manager = false;
    }

-- `registers` and `ivshmem_registers` are what the two registrations answer.
unfoldable pub axvisor_init : Kernel → Code → Code → Module → Code × Module
axvisor_init k registers ivshmem_registers m =
    let (ret, m') = init_ivc_devices registers m in
    elim ret [
      | failed e ↦ (failed e, m')
      | done _ ↦ elim ivshmem_registers [
        | failed e ↦ (failed e, uninit_ivc_devices k m')
        | done _ ↦ (success, record m' { ivshmem = true })
      ]
    ]

unfoldable pub axvisor_exit : Kernel → Module → Module
axvisor_exit k m = uninit_ivc_devices k (record m { ivshmem = false })

-- The module before it is loaded.
abbrev pub unloaded : Module
unloaded = record {
  driver = record { publications = loaded; subscriptions = no_subscriptions; trace = [] };
  manager = false;
  ivshmem = false;
}
