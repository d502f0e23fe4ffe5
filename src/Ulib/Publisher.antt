-- ===== src/Ulib/Publisher.antt =====
-- userspace/ivc/ivc_ulib.c: the publisher side. The manager that `publisher->manager` points to is passed
-- beside the publisher; a function that frees the publisher does not return it.
use axvisor_tools.Common.{
  ℕ, ◌+◌, not, List, ◌∷◌, ltb, ◌==◌, if◌then◌else◌, length, take, replicate, Result, done, failed,
  Code, einval, enomem, emsgsize, eopnotsupp, eio,
}
use axvisor_tools.Ulib.Defs.{
  freed, refused, allocated, transferred, opened, closed, joined, gives_back, Trace, PublishArg, Os,
  Manager, u64, manager_is_valid, release_endpoint, int_max, first_error,
}

pub record Publisher : Type 0 where
  pub channel_arg : PublishArg
  pub fd : ℕ
  pub bytes_received : ℕ
  pub bytes_sent : ℕ

-- The publisher at the end of `ivc_publish`.
abbrev pub fresh : PublishArg → ℕ → Publisher
fresh channel_arg fd = record {
  channel_arg = channel_arg;
  fd = fd;
  bytes_received = 0;
  bytes_sent = 0;
}

-- `device_name` after its `memset`.
abbrev pub no_name : List ℕ
no_name = replicate 64 0

unfoldable pub publish : Os → Trace → Manager → ℕ → ℕ → Result Publisher × Manager × Trace
publish os t manager channel_key channel_size =
    if not (manager_is_valid manager)
    then (failed einval, manager, t)
    else if not (os.has_memory t)
    then (failed enomem, manager, refused ∷ t)
    else let channel_arg : PublishArg = record {
      channel_key = channel_key;
      channel_size = channel_size;
      device_name = no_name;
    } in
      elim (os.publish_channel (allocated ∷ t) manager.fd channel_arg) [
        | failed e ↦ (failed e, manager, freed ∷ refused ∷ allocated ∷ t)
        | done filled ↦
            elim (os.open_path (joined filled.channel_key ∷ allocated ∷ t) filled.device_name) [
              | failed e ↦
                  let t1 = refused ∷ joined filled.channel_key ∷ allocated ∷ t in
                  let answer = os.unpublish_channel t1 manager.fd filled in
                  (failed e, manager, freed ∷ gives_back answer filled.channel_key ∷ t1)
              | done fd ↦ (
                done (fresh filled fd),
                record manager { active_endpoints = u64 (manager.active_endpoints + 1) },
                opened fd ∷ joined filled.channel_key ∷ allocated ∷ t,
              )
            ]
      ]

unfoldable pub recv : Os → Trace → Publisher → ℕ → Result (List ℕ) × Publisher × Trace
recv os t publisher count =
    if count == 0
    then (failed einval, publisher, t)
    else if ltb int_max count
    then (failed emsgsize, publisher, t)
    else elim (os.read_fd t publisher.fd count) [
      | failed e ↦ (failed e, publisher, refused ∷ t)
      | done bytes ↦ (
        done bytes,
        record publisher { bytes_received = u64 (publisher.bytes_received + length bytes) },
        transferred ∷ t,
      )
    ]

-- A write of at most INT_MAX bytes answers at most INT_MAX, so `(int)` keeps the number.
unfoldable pub send : Os → Trace → Publisher → List ℕ → ℕ → Result ℕ × Publisher × Trace
send os t publisher buf count =
    if count == 0
    then (failed eopnotsupp, publisher, t)
    else if ltb int_max count
    then (failed emsgsize, publisher, t)
    else elim (os.write_fd t publisher.fd (take count buf)) [
      | failed e ↦ (failed e, publisher, refused ∷ t)
      | done bytes_sent ↦
          if not (bytes_sent == count) then (failed eio, publisher, transferred ∷ t) else (
            done bytes_sent,
            record publisher { bytes_sent = u64 (publisher.bytes_sent + bytes_sent) },
            transferred ∷ t,
          )
    ]

unfoldable pub unpublish : Os → Trace → Manager → Publisher → Code × Manager × Trace
unpublish os t manager publisher =
    let t1 = closed publisher.fd ∷ t in
    let answer = os.unpublish_channel t1 manager.fd publisher.channel_arg in
    let (released, manager') = release_endpoint manager in
    (
      first_error (os.close_fd t publisher.fd) (first_error answer released),
      manager',
      freed ∷ gives_back answer publisher.channel_arg.channel_key ∷ t1,
    )
