-- ===== src/Ulib/Subscriber.antt =====
-- userspace/ivc/ivc_ulib.c: the subscriber side. The manager that `subscriber->manager` points to is passed
-- beside the subscriber; a function that frees the subscriber does not return it.
use axvisor_tools.Common.{
  ℕ, ◌+◌, not, List, ◌∷◌, ltb, ◌==◌, if◌then◌else◌, length, take, replicate, Result, done, failed,
  Code, einval, enomem, emsgsize, eopnotsupp, eio,
}
use axvisor_tools.Ulib.Defs.{
  freed, refused, allocated, transferred, opened, closed, joined, gives_back, Trace, SubscribeArg,
  Os, Manager, u64, manager_is_valid, release_endpoint, int_max, first_error,
}

pub record Subscriber : Type 0 where
  pub channel_arg : SubscribeArg
  pub fd : ℕ
  pub bytes_received : ℕ
  pub bytes_sent : ℕ

-- The subscriber at the end of `ivc_subscribe`.
abbrev pub fresh : SubscribeArg → ℕ → Subscriber
fresh channel_arg fd = record {
  channel_arg = channel_arg;
  fd = fd;
  bytes_received = 0;
  bytes_sent = 0;
}

-- `device_name` after its `memset`.
abbrev pub no_name : List ℕ
no_name = replicate 64 0

unfoldable pub subscribe : Os → Trace → Manager → ℕ → ℕ → Result Subscriber × Manager × Trace
subscribe os t manager publisher_id channel_key =
    if not (manager_is_valid manager)
    then (failed einval, manager, t)
    else if not (os.has_memory t)
    then (failed enomem, manager, refused ∷ t)
    else let channel_arg : SubscribeArg = record {
      target_publisher_id = publisher_id;
      channel_key = channel_key;
      device_name = no_name;
    } in
      elim (os.subscribe_channel (allocated ∷ t) manager.fd channel_arg) [
        | failed e ↦ (failed e, manager, freed ∷ refused ∷ allocated ∷ t)
        | done filled ↦
            elim (os.open_path (joined filled.channel_key ∷ allocated ∷ t) filled.device_name) [
              | failed e ↦
                  let t1 = refused ∷ joined filled.channel_key ∷ allocated ∷ t in
                  let answer = os.unsubscribe_channel t1 manager.fd filled in
                  (failed e, manager, freed ∷ gives_back answer filled.channel_key ∷ t1)
              | done fd ↦ (
                done (fresh filled fd),
                record manager { active_endpoints = u64 (manager.active_endpoints + 1) },
                opened fd ∷ joined filled.channel_key ∷ allocated ∷ t,
              )
            ]
      ]

unfoldable pub recv : Os → Trace → Subscriber → ℕ → Result (List ℕ) × Subscriber × Trace
recv os t subscriber count =
    if count == 0
    then (failed einval, subscriber, t)
    else if ltb int_max count
    then (failed emsgsize, subscriber, t)
    else elim (os.read_fd t subscriber.fd count) [
      | failed e ↦ (failed e, subscriber, refused ∷ t)
      | done bytes ↦ (
        done bytes,
        record subscriber { bytes_received = u64 (subscriber.bytes_received + length bytes) },
        transferred ∷ t,
      )
    ]

-- A write of at most INT_MAX bytes answers at most INT_MAX, so `(int)` keeps the number.
unfoldable pub send : Os → Trace → Subscriber → List ℕ → ℕ → Result ℕ × Subscriber × Trace
send os t subscriber buf count =
    if count == 0
    then (failed eopnotsupp, subscriber, t)
    else if ltb int_max count
    then (failed emsgsize, subscriber, t)
    else elim (os.write_fd t subscriber.fd (take count buf)) [
      | failed e ↦ (failed e, subscriber, refused ∷ t)
      | done bytes_sent ↦
          if not (bytes_sent == count) then (failed eio, subscriber, transferred ∷ t) else (
            done bytes_sent,
            record subscriber { bytes_sent = u64 (subscriber.bytes_sent + bytes_sent) },
            transferred ∷ t,
          )
    ]

unfoldable pub unsubscribe : Os → Trace → Manager → Subscriber → Code × Manager × Trace
unsubscribe os t manager subscriber =
    let t1 = closed subscriber.fd ∷ t in
    let answer = os.unsubscribe_channel t1 manager.fd subscriber.channel_arg in
    let (released, manager') = release_endpoint manager in
    (
      first_error (os.close_fd t subscriber.fd) (first_error answer released),
      manager',
      freed ∷ gives_back answer subscriber.channel_arg.channel_key ∷ t1,
    )
