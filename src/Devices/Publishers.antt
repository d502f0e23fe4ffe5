-- ===== src/Devices/Publishers.antt =====
-- ivc/ivc.c: the publisher devices, and their opening, closing and removal. The kernel's and the
-- hypervisor's answers are a parameter, and may depend on all that happened before. A device is known
-- by its id. Each function between two locks is taken whole; unpublishing is in two parts, since it lets
-- go of the lock while it calls the hypervisor.
use axvisor_tools.Common.{
  ℕ, ◌+◌, ◌-◌, Bool, true, false, ◌||◌, not, Option, none, some, List, [], ◌∷◌, ◌++◌, leb, ◌==◌,
  if◌then◌else◌, Result, done, failed, Code, success, ebusy, efault, enomem, eio, enospc, enoent,
  enodev,
}
use axvisor_tools.Ring.Defs.{u32}
use axvisor_tools.Region.Defs.{Region, init_publisher}
use axvisor_tools.Message.Sender.{Sender, sender_init}
use axvisor_tools.Message.Receiver.{Receiver, receiver_init}

abbrev pub max_vdevs : ℕ
max_vdevs = 16

-- A channel of this machine by its key, and one of another publisher.
pub data Channel : Type 0 where
  own : ℕ → Channel
  theirs : ℕ → ℕ → Channel

-- What was got, what was given up, and calls that failed; a channel that the hypervisor is asked to take
-- back and refuses is stranded. `published` and `unpublished` stand for a subscription too.
pub data Event : Type 0 where
  allocated freed mapped unmapped registered deregistered refused : Event
  published unpublished stranded : Channel → Event

abbrev pub Trace : Type 0
Trace = List Event

pub record Output : Type 0 where
  pub shm_base : ℕ
  pub shm_size : ℕ

-- `has_memory` is `kzalloc`, `has_address` says that `kva2pa` translates both output pointers, and
-- `memremap` shows what the region holds.
pub record Kernel : Type 0 where
  pub has_memory : Trace → Bool
  pub has_address : Trace → Bool
  pub hvc_publish : Trace → ℕ → ℕ → Result Output
  pub hvc_unpublish : Trace → ℕ → Code
  pub hvc_subscribe : Trace → ℕ → ℕ → Result Output
  pub hvc_unsubscribe : Trace → ℕ → ℕ → Code
  pub memremap : Trace → Output → Option Region
  pub misc_register : Trace → ℕ → Code

pub record Endpoint : Type 0 where
  pub tx : Sender
  pub rx : Receiver
  pub tx_error : Code

abbrev pub endpoint_init : Endpoint
endpoint_init = record { tx = sender_init; rx = receiver_init; tx_error = success }

pub record Vdev : Type 0 where
  pub id : ℕ
  pub active : Bool
  pub removing : Bool
  pub key : ℕ
  pub shm : Output
  pub endpoint : Endpoint

-- The static variables of one side, and what has happened so far.
pub record Registry (V : Type 0) : Type 0 where
  pub vdev_count : ℕ
  pub next_vdev_id : ℕ
  pub vdevs : List V
  pub trace : Trace

abbrev pub Publications : Type 0
Publications = Registry Vdev

abbrev pub note : Code → Event → Event → Event
note (done _) good bad = good
note (failed _) good bad = bad

-- A call of the hypervisor that gives a channel up for good.
abbrev pub give_up : Kernel → ℕ → Trace → Trace
give_up k key t = note (k.hvc_unpublish t key) (unpublished (own key)) (stranded (own key)) ∷ t

-- The two labels at the end of `ivc_publish_channel`.
abbrev pub rollback_channel : Kernel → ℕ → Trace → Trace
rollback_channel k key t = give_up k key t

abbrev pub unmap_region : Kernel → ℕ → Trace → Trace
unmap_region k key t = rollback_channel k key (unmapped ∷ t)

abbrev pub fresh : ℕ → ℕ → Output → Vdev
fresh id key shm = record {
  id = id;
  active = false;
  removing = false;
  key = key;
  shm = shm;
  endpoint = endpoint_init;
}

-- The three sections under the lock of the registry: a place is reserved, given up again, or taken by the
-- device.
abbrev pub reserve : {V : Type 0} → Registry V → Result ℕ × Registry V
reserve s = if leb max_vdevs s.vdev_count then (failed enospc, s) else (
  done s.next_vdev_id,
  record s { vdev_count = s.vdev_count + 1; next_vdev_id = u32 (s.next_vdev_id + 1) },
)

abbrev pub cancel : {V : Type 0} → Registry V → Registry V
cancel s = record s { vdev_count = s.vdev_count - 1 }

abbrev pub add : {V : Type 0} → Registry V → V → Registry V
add s vdev = record s { vdevs = s.vdevs ++ (vdev ∷ []) }

-- From the first lock of the registry to the end of `ivc_publish_channel`, with `vdev` allocated, where no
-- other call comes between.
unfoldable pub register_vdev : Kernel → Publications → ℕ → Output → Result ℕ × Publications
register_vdev k s key shm =
    let (reserved, s1) = reserve s in
    elim reserved [
      | failed e ↦ (failed e, record s1 { trace = unmap_region k key (freed ∷ s.trace) })
      | done id ↦ elim (k.misc_register s.trace id) [
        | failed e ↦ (
          failed e,
          record (cancel s1) { trace = unmap_region k key (freed ∷ refused ∷ s.trace) },
        )
        | done _ ↦ (done id, record (add s1 (fresh id key shm)) { trace = registered ∷ s.trace })
      ]
    ]

-- From the mapping of the region on.
unfoldable pub map_channel : Kernel → Publications → ℕ → Output → Result ℕ × Publications
map_channel k s key shm = elim (k.memremap s.trace shm) [
  | none ↦ (failed enomem, record s { trace = rollback_channel k key (refused ∷ s.trace) })
  | some region ↦
      let t = mapped ∷ s.trace in
      elim ((init_publisher region shm.shm_size key).0) [
        | failed e ↦ (failed e, record s { trace = unmap_region k key t })
        | done _ ↦
            if not (k.has_memory t)
            then (failed enomem, record s { trace = unmap_region k key (refused ∷ t) })
            else register_vdev k (record s { trace = allocated ∷ t }) key shm
      ]
]

-- The device's name is given by the id that is returned.
unfoldable pub publish_channel : Kernel → Publications → ℕ → ℕ → Result ℕ × Publications
publish_channel k s key expected_shm_size =
    if not (k.has_memory s.trace)
    then (failed enomem, record s { trace = refused ∷ s.trace })
    else let t = allocated ∷ s.trace in
      if not (k.has_address t)
      then (failed efault, record s { trace = freed ∷ t })
      else elim (k.hvc_publish t key expected_shm_size) [
        | failed e ↦ (failed eio, record s { trace = freed ∷ refused ∷ t })
        | done shm ↦ map_channel k (record s { trace = freed ∷ published (own key) ∷ t }) key shm
      ]

-- The first device of the list with a property; a store through the pointer to it, and `list_del`.
abbrev pub find : {V : Type 0} → List V → (V → Bool) → Option V
find [] p = none
find (v ∷ vs) p = if p v then some v else find vs p

abbrev pub update : {V : Type 0} → List V → (V → Bool) → (V → V) → List V
update [] p f = []
update (v ∷ vs) p f = if p v then f v ∷ vs else v ∷ update vs p f

abbrev pub delete : {V : Type 0} → List V → (V → Bool) → List V
delete [] p = []
delete (v ∷ vs) p = if p v then vs else v ∷ delete vs p

abbrev pub has_key : ℕ → Vdev → Bool
has_key key v = v.key == key

abbrev pub has_id : ℕ → Vdev → Bool
has_id id v = v.id == id

-- `ivc_unpublish_channel` up to its call of the hypervisor: the device that it goes on with.
unfoldable pub unpublish_locked : Publications → ℕ → Result ℕ × Publications
unpublish_locked s key = elim (find s.vdevs (has_key key)) [
  | none ↦ (failed enoent, s)
  | some v ↦ if v.active || v.removing then (failed ebusy, s) else (
    done v.id,
    record s { vdevs = update s.vdevs (has_key key) (λ w. record w { removing = true }) },
  )
]

-- The rest of it.
unfoldable pub unpublish_rest : Kernel → Publications → ℕ → ℕ → Code × Publications
unpublish_rest k s key id = elim (k.hvc_unpublish s.trace key) [
  | failed e ↦ (
    failed eio,
    record s {
      vdevs = update s.vdevs (has_id id) (λ w. record w { removing = false });
      trace = refused ∷ s.trace;
    },
  )
  | done _ ↦ (
    success,
    record s {
      vdev_count = s.vdev_count - 1;
      vdevs = delete s.vdevs (has_id id);
      trace = freed ∷ unmapped ∷ deregistered ∷ unpublished (own key) ∷ s.trace;
    },
  )
]

unfoldable pub open_device : Publications → ℕ → Code × Publications
open_device s id = elim (find s.vdevs (has_id id)) [
  | none ↦ (failed enodev, s)
  | some v ↦
      if v.active || v.removing
      then ((if v.removing then failed enodev else failed ebusy), s)
      else (
        success,
        record s { vdevs = update s.vdevs (has_id id) (λ w. record w { active = true }) },
      )
]

unfoldable pub release_device : Publications → ℕ → Publications
release_device s id = record s {
  vdevs = update s.vdevs (has_id id) (λ w. record w { active = false });
}
