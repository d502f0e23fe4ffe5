-- ===== src/Ulib/Tests.antt =====
-- A process on a system that refuses its second device.
use axvisor_tools.Common.{
  once, ◌==◌, ◌≡◌, ◌≢◌, ◌+◌, ◌⊎◌, refl, arith, true, List, [], ◌∷◌, length, ltb, if◌then◌else◌,
  done, failed, success, ebusy, enodev, eproto,
}
use axvisor_tools.Ulib.Defs.{
  Os, Trace, allocated, opened, Manager, open_manager, close_manager, release_endpoint,
}
use axvisor_tools.Ulib.Subscriber as Sub
use axvisor_tools.Ulib.Publisher as Pub
use axvisor_tools.Ulib.Balance.{subscriber_fd, subscriber_key, Holds, Entered, subscribe_lem}
use axvisor_tools.Ulib.Counting.{fds, keys, session_balance}
use axvisor_tools.Ulib.Session.{
  Op, subscribes, publishes, unsubscribes, subscriber_sends, publisher_recvs, step, run, live,
  begin,
}

-- Memory never ends, three descriptors can be opened, a write takes all, and unsubscribing fails.
abbrev small_os : Os
small_os = record {
  has_memory = λ t. true;
  open_path = λ t path. if ltb (length t) 8 then done (length t) else failed enodev;
  close_fd = λ t fd. success;
  subscribe_channel = λ t fd channel_arg. done channel_arg;
  unsubscribe_channel = λ t fd channel_arg. failed eproto;
  publish_channel = λ t fd channel_arg. done channel_arg;
  unpublish_channel = λ t fd channel_arg. success;
  read_fd = λ t fd count. done (5 ∷ 6 ∷ []);
  write_fd = λ t fd bytes. done (length bytes);
}

abbrev manager : Manager
manager = record { fd = 1; active_endpoints = 0 }

abbrev opening : Trace
opening = opened 1 ∷ allocated ∷ []

opens : open_manager small_os [] ≡ (done manager, opening)
unfolding open_manager
opens = refl

-- The second endpoint opens its device, the third is rolled back, one is left.
abbrev ops : List Op
ops =
    subscribes 1 10
    ∷ publishes 11 4096
    ∷ publishes 12 4096
    ∷ subscriber_sends 0 (1 ∷ 2 ∷ 3 ∷ []) 3
    ∷ publisher_recvs 0 16
    ∷ unsubscribes 0
    ∷ []

one_left : (run small_os (begin manager opening) ops).manager.active_endpoints ≡ 1
unfolding run step Sub.subscribe Pub.publish Sub.send Pub.recv Sub.unsubscribe release_endpoint
one_left = refl

session_balance_example :
    let s = run small_os (begin manager opening) ops in
    let (code, t') = close_manager small_os s.trace s.manager in
    (s.manager.active_endpoints ≡ live small_os s)
    × (((live small_os s ≢ 0)
          × (code ≡ failed ebusy)
          × (t' ≡ s.trace)
          × Holds 1 10 s.trace
              (live small_os s + 1)
              (fds 1 10 small_os s + once (s.manager.fd == 1))
              (keys 1 10 small_os s))
        ⊎ ((live small_os s ≡ 0) × Holds 1 10 t' 0 0 0))
session_balance_example =
    session_balance 1 10 small_os manager opening ops opens (omega arith) (omega arith)

opening-Holds : Holds 1 10 opening 1 1 0
opening-Holds = record { memory = refl; descriptors = refl; channels = refl }

subscribe_lem_example :
    let (r, manager', t') = Sub.subscribe small_os opening manager 1 10 in
    Entered 1 10 subscriber_fd subscriber_key r manager manager' t' 1 1 0
subscribe_lem_example = subscribe_lem 1 10 small_os opening manager 1 10 1 1 0 opening-Holds
