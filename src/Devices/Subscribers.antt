-- ===== src/Devices/Subscribers.antt =====
-- ivc/ivc.c: the subscriber devices, and their opening, closing and removal, with the kernel and the
-- hypervisor of the publisher devices. While a subscription waits, the publisher may change the region:
-- what each look at it finds is a parameter.
use axvisor_tools.Common.{
  ℕ, ◌-◌, Bool, true, false, ◌&&◌, ◌||◌, not, Option, none, some, List, [], ◌∷◌, ◌==◌,
  if◌then◌else◌, Result, done, failed, Code, success, ebusy, efault, enomem, eio, enoent, enodev,
  erestartsys,
}
use axvisor_tools.Region.Defs.{Region, validate}
use axvisor_tools.Devices.Publishers.{
  theirs, reserve, cancel, add, allocated, freed, mapped, unmapped, published, unpublished,
  stranded, registered, deregistered, refused, Trace, Output, Kernel, Endpoint, endpoint_init,
  Registry, note, find, update, delete,
}
use axvisor_tools.Devices.Send.{is_eagain}

pub record SubscriberVdev : Type 0 where
  pub id : ℕ
  pub active : Bool
  pub removing : Bool
  pub publisher_id : ℕ
  pub key : ℕ
  pub shm : Output
  pub endpoint : Endpoint

abbrev pub Subscriptions : Type 0
Subscriptions = Registry SubscriberVdev

-- One look at the region: what it holds, whether the deadline has passed behind it, and whether a signal
-- ends the sleep.
pub record Look : Type 0 where
  pub region : Region
  pub late : Bool
  pub interrupted : Bool

-- The loop of `ivc_subscribe_channel`; with no look left it still waits.
unfoldable pub wait_for_region : List Look → ℕ → ℕ → ℕ → Option Code
wait_for_region [] shm_size publisher_id key = none
wait_for_region (look ∷ looks) shm_size publisher_id key =
    let err = validate look.region shm_size publisher_id key in
    let more = wait_for_region looks shm_size publisher_id key in
    if not (is_eagain err) || look.late
    then some err
    else if look.interrupted
    then some (failed erestartsys)
    else more

-- A call of the hypervisor that gives a subscription up for good.
abbrev pub give_up_subscription : Kernel → ℕ → ℕ → Trace → Trace
give_up_subscription k publisher_id key t =
    note (k.hvc_unsubscribe t publisher_id key) (unpublished (theirs publisher_id key))
      (stranded (theirs publisher_id key))
    ∷ t

-- The two labels at the end of `ivc_subscribe_channel`.
abbrev pub rollback_subscription : Kernel → ℕ → ℕ → Trace → Trace
rollback_subscription k publisher_id key t = give_up_subscription k publisher_id key t

abbrev pub unmap_subscription : Kernel → ℕ → ℕ → Trace → Trace
unmap_subscription k publisher_id key t = rollback_subscription k publisher_id key (unmapped ∷ t)

abbrev pub fresh_subscriber : ℕ → ℕ → ℕ → Output → SubscriberVdev
fresh_subscriber id publisher_id key shm = record {
  id = id;
  active = false;
  removing = false;
  publisher_id = publisher_id;
  key = key;
  shm = shm;
  endpoint = endpoint_init;
}

-- From the first lock of the registry to the end of `ivc_subscribe_channel`, with `vdev` allocated, where
-- no other call comes between.
unfoldable pub register_subscriber :
    Kernel → Subscriptions → ℕ → ℕ → Output → Result ℕ × Subscriptions
register_subscriber k s publisher_id key shm =
    let (reserved, s1) = reserve s in
    elim reserved [
      | failed e ↦
          (failed e, record s1 { trace = unmap_subscription k publisher_id key (freed ∷ s.trace) })
      | done id ↦ elim (k.misc_register s.trace id) [
        | failed e ↦ (
          failed e,
          record (cancel s1) {
            trace = unmap_subscription k publisher_id key (freed ∷ refused ∷ s.trace);
          },
        )
        | done _ ↦ (
          done id,
          record (add s1 (fresh_subscriber id publisher_id key shm)) {
            trace = registered ∷ s.trace;
          },
        )
      ]
    ]

-- From the end of the wait on.
unfoldable pub accept_region :
    Kernel → Subscriptions → Code → ℕ → ℕ → Output → Result ℕ × Subscriptions
accept_region k s err publisher_id key shm = elim err [
  | failed e ↦ (failed e, record s { trace = unmap_subscription k publisher_id key s.trace })
  | done _ ↦
      if not (k.has_memory s.trace)
      then (
        failed enomem,
        record s { trace = unmap_subscription k publisher_id key (refused ∷ s.trace) },
      )
      else register_subscriber k (record s { trace = allocated ∷ s.trace }) publisher_id key shm
]

-- From the mapping of the region on; without a result the call still waits.
unfoldable pub map_subscription :
    Kernel → List Look → Subscriptions → ℕ → ℕ → Output → Option (Result ℕ) × Subscriptions
map_subscription k looks s publisher_id key shm = elim (k.memremap s.trace shm) [
  | none ↦ (
    some (failed enomem),
    record s { trace = rollback_subscription k publisher_id key (refused ∷ s.trace) },
  )
  | some region ↦
      let s' = record s { trace = mapped ∷ s.trace } in
      elim (wait_for_region looks shm.shm_size publisher_id key) [
        | none ↦ (none, s')
        | some err ↦ let (r, s'') = accept_region k s' err publisher_id key shm in (some r, s'')
      ]
]

-- The device's name is given by the id that is returned.
unfoldable pub subscribe_channel :
    Kernel → List Look → Subscriptions → ℕ → ℕ → Option (Result ℕ) × Subscriptions
subscribe_channel k looks s publisher_id key =
    if not (k.has_memory s.trace)
    then (some (failed enomem), record s { trace = refused ∷ s.trace })
    else let t = allocated ∷ s.trace in
      if not (k.has_address t)
      then (some (failed efault), record s { trace = freed ∷ t })
      else elim (k.hvc_subscribe t publisher_id key) [
        | failed e ↦ (some (failed eio), record s { trace = freed ∷ refused ∷ t })
        | done shm ↦
            map_subscription k looks
              (record s { trace = freed ∷ published (theirs publisher_id key) ∷ t }) publisher_id
              key shm
      ]

abbrev pub is_subscription : ℕ → ℕ → SubscriberVdev → Bool
is_subscription publisher_id key v = v.publisher_id == publisher_id && v.key == key

abbrev pub has_subscriber_id : ℕ → SubscriberVdev → Bool
has_subscriber_id id v = v.id == id

-- `ivc_unsubscribe_channel` up to its call of the hypervisor: the device that it goes on with.
unfoldable pub unsubscribe_locked : Subscriptions → ℕ → ℕ → Result ℕ × Subscriptions
unsubscribe_locked s publisher_id key = elim (find s.vdevs (is_subscription publisher_id key)) [
  | none ↦ (failed enoent, s)
  | some v ↦ if v.active || v.removing then (failed ebusy, s) else (
    done v.id,
    record s {
      vdevs = update s.vdevs (is_subscription publisher_id key) (λ w. record w { removing = true });
    },
  )
]

-- The rest of it.
unfoldable pub unsubscribe_rest : Kernel → Subscriptions → ℕ → ℕ → ℕ → Code × Subscriptions
unsubscribe_rest k s publisher_id key id = elim (k.hvc_unsubscribe s.trace publisher_id key) [
  | failed e ↦ (
    failed eio,
    record s {
      vdevs = update s.vdevs (has_subscriber_id id) (λ w. record w { removing = false });
      trace = refused ∷ s.trace;
    },
  )
  | done _ ↦ (
    success,
    record s {
      vdev_count = s.vdev_count - 1;
      vdevs = delete s.vdevs (has_subscriber_id id);
      trace = freed ∷ unmapped ∷ deregistered ∷ unpublished (theirs publisher_id key) ∷ s.trace;
    },
  )
]

unfoldable pub open_subscriber : Subscriptions → ℕ → Code × Subscriptions
open_subscriber s id = elim (find s.vdevs (has_subscriber_id id)) [
  | none ↦ (failed enodev, s)
  | some v ↦
      if v.active || v.removing
      then ((if v.removing then failed enodev else failed ebusy), s)
      else (
        success,
        record s {
          vdevs = update s.vdevs (has_subscriber_id id) (λ w. record w { active = true });
        },
      )
]

unfoldable pub release_subscriber : Subscriptions → ℕ → Subscriptions
release_subscriber s id = record s {
  vdevs = update s.vdevs (has_subscriber_id id) (λ w. record w { active = false });
}
