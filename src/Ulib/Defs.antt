-- ===== src/Ulib/Defs.antt =====
-- userspace/ivc/ivc_ulib.c and userspace/ivc/ulib.h: the manager of a process, and the calls of the
-- operating system that the library makes. `errno` with a failure return is the error of a Result; what
-- is printed is left out. A pointer that a caller passes is never NULL here.
use axvisor_tools.Common.{
  ℕ, ◌-◌, ◌%◌, ◌^◌, Bool, not, List, [], ◌∷◌, ltb, ◌==◌, if◌then◌else◌, Result, done, failed, Code,
  success, einval, ebusy, enomem,
}

-- What the process has asked of the system, the latest first. A call that failed is `refused`. A
-- channel is named by its key; one that the system refuses to take back is `stranded`. `close` gives the
-- descriptor up even where it answers an error.
pub data Event : Type 0 where
  allocated freed refused transferred : Event
  opened closed : ℕ → Event
  joined left stranded : ℕ → Event

abbrev pub Trace : Type 0
Trace = List Event

-- `ivc_subscribe_arg_t` and `ivc_publish_arg_t`; a device name is its bytes.
pub record SubscribeArg : Type 0 where
  pub target_publisher_id : ℕ
  pub channel_key : ℕ
  pub device_name : List ℕ

pub record PublishArg : Type 0 where
  pub channel_key : ℕ
  pub channel_size : ℕ
  pub device_name : List ℕ

-- The operating system: it may answer by all that happened before. `malloc`, `open`, `close`, `read`
-- and `write`, and the four requests of `ioctl`, which may fill in their argument.
pub record Os : Type 0 where
  pub has_memory : Trace → Bool
  pub open_path : Trace → List ℕ → Result ℕ
  pub close_fd : Trace → ℕ → Code
  pub subscribe_channel : Trace → ℕ → SubscribeArg → Result SubscribeArg
  pub unsubscribe_channel : Trace → ℕ → SubscribeArg → Code
  pub publish_channel : Trace → ℕ → PublishArg → Result PublishArg
  pub unpublish_channel : Trace → ℕ → PublishArg → Code
  pub read_fd : Trace → ℕ → ℕ → Result (List ℕ)
  pub write_fd : Trace → ℕ → List ℕ → Result ℕ

-- The trace after a call with this result.
abbrev pub note {ℓ} : {A : Type ℓ} → Result A → Event → Trace → Trace
note (done a) event trace = event ∷ trace
note (failed e) event trace = refused ∷ trace

-- The channel with this key is given back, or the system refuses to take it.
abbrev pub gives_back : Code → ℕ → Event
gives_back (done _) key = left key
gives_back (failed e) key = stranded key

-- The descriptor is an `int64_t` in two's complement.
pub record Manager : Type 0 where
  pub fd : ℕ
  pub active_endpoints : ℕ

abbrev pub u64 : ℕ → ℕ
u64 n = n % 2 ^ 64

abbrev pub manager_is_valid : Manager → Bool
manager_is_valid manager = ltb manager.fd (2 ^ 63)

unfoldable pub release_endpoint : Manager → Code × Manager
release_endpoint manager =
    if manager.active_endpoints == 0
    then (failed einval, manager)
    else (success, record manager { active_endpoints = manager.active_endpoints - 1 })

-- `IVC_DEV_PATH`, "/dev/axivc".
abbrev pub dev_path : List ℕ
dev_path = 47 ∷ 100 ∷ 101 ∷ 118 ∷ 47 ∷ 97 ∷ 120 ∷ 105 ∷ 118 ∷ 99 ∷ []

unfoldable pub open_manager : Os → Trace → Result Manager × Trace
open_manager os t =
    if not (os.has_memory t)
    then (failed enomem, refused ∷ t)
    else elim (os.open_path (allocated ∷ t) dev_path) [
      | failed e ↦ (failed e, freed ∷ refused ∷ allocated ∷ t)
      | done fd ↦ (done (record { fd = fd; active_endpoints = 0 }), opened fd ∷ allocated ∷ t)
    ]

-- On every result but the two refusals the manager is gone.
unfoldable pub close_manager : Os → Trace → Manager → Code × Trace
close_manager os t manager =
    if not (manager_is_valid manager)
    then (failed einval, t)
    else if not (manager.active_endpoints == 0)
    then (failed ebusy, t)
    else (os.close_fd t manager.fd, freed ∷ closed manager.fd ∷ t)

-- `INT_MAX`.
abbrev pub int_max : ℕ
int_max = 2 ^ 31 - 1

-- `saved_errno`: the error that came first.
abbrev pub first_error : Code → Code → Code
first_error (failed e) later = failed e
first_error (done _) later = later
