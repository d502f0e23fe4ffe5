-- ===== src/Ulib/Counting.antt =====
-- A process that uses one manager of userspace/ivc/ivc_ulib.c: the manager counts the endpoints.
use axvisor_tools.Common.{
  once, tally, ℕ, zero, suc, ◌+◌, ◌-◌, ◌^◌, ◌≤◌, ◌<◌, ◌≡◌, ◌≢◌, ◌⊎◌, inl, inr, refl, sym, ap, take,
  set, Bool, ◌==◌, Result-cases, ◌∙◌, arith, true, some, Option-cases, List, [], ◌∷◌, length,
  length-set, Result, done, failed, ebusy,
}
use axvisor_tools.Ulib.Defs.{Trace, Os, Manager, manager_is_valid, open_manager, close_manager}
use axvisor_tools.Ulib.Subscriber as Sub
use axvisor_tools.Ulib.Publisher as Pub
use axvisor_tools.Ulib.Balance.{
  Holds, HoldsWith, Entered, subscriber_fd, subscriber_key, publisher_fd, publisher_key,
  subscribe_lem, publish_lem, unsubscribe_lem, unpublish_lem, open_manager_lem, close_manager_lem,
  recv-Holds_subscriber, recv-Holds_publisher, send-Holds_subscriber, send-Holds_publisher,
}
use axvisor_tools.Ulib.Session.{
  Session, Op, subscribes, publishes, unsubscribes, unpublishes, subscriber_recvs, publisher_recvs,
  subscriber_sends, publisher_sends, nth, remove, keep, begin, step, run, live,
}

module _ {ℓ} {A : Type ℓ} where
  length-remove :
      (xs : List A) (i : ℕ) (x : A) → nth xs i ≡ some x → length (remove xs i) + 1 ≡ length xs
  length-remove [] i x e = cc
  length-remove (y ∷ xs) zero x e = omega arith
  length-remove (y ∷ xs) (suc i) x e = omega (arith, length-remove xs i x e)

  length-keep : (r : Result A) (xs : List A) → length (keep r xs) ≤ length xs + 1
  length-keep (done x) xs = omega arith
  length-keep (failed e) xs = omega arith

module _ {ℓ} {A : Type ℓ} (p : A → Bool) where
  tally-none : (xs : List A) → length xs ≡ 0 → tally p xs ≡ 0
  tally-none [] e = refl
  tally-none (x ∷ xs) e = absurd (omega (arith, e))

  tally-remove :
      (xs : List A) (i : ℕ) (x : A)
      → nth xs i ≡ some x
      → tally p (remove xs i) + once (p x) ≡ tally p xs
  tally-remove [] i x e = cc
  tally-remove (y ∷ xs) zero x e = let same : y ≡ x = cc e in rw same (omega arith)
  tally-remove (y ∷ xs) (suc i) x e = omega (arith, tally-remove xs i x e)

  tally-set :
      (xs : List A) (i : ℕ) (x y : A)
      → nth xs i ≡ some x
      → once (p x) ≡ once (p y)
      → tally p (set xs i y) ≡ tally p xs
  tally-set [] i x y e same = refl
  tally-set (z ∷ xs) zero x y e same = let here : z ≡ x = cc e in rw here (omega (arith, same))
  tally-set (z ∷ xs) (suc i) x y e same = omega (arith, tally-set xs i x y e same)

module _ (descriptor key : ℕ) (os : Os) where
  abbrev subscriber_has_fd : Sub.Subscriber → Bool
  subscriber_has_fd s = s.fd == descriptor

  abbrev subscriber_has_key : Sub.Subscriber → Bool
  subscriber_has_key s = s.channel_arg.channel_key == key

  abbrev publisher_has_fd : Pub.Publisher → Bool
  publisher_has_fd p = p.fd == descriptor

  abbrev publisher_has_key : Pub.Publisher → Bool
  publisher_has_key p = p.channel_arg.channel_key == key

  -- How often the descriptor is that of the manager or of an endpoint, and how many endpoints are on the
  -- channel with the key.
  abbrev pub fds : Session → ℕ
  fds s = tally subscriber_has_fd s.subscribers + tally publisher_has_fd s.publishers

  abbrev pub keys : Session → ℕ
  keys s = tally subscriber_has_key s.subscribers + tally publisher_has_key s.publishers

  -- The manager counts the endpoints, and the process holds one allocation for it and for each endpoint,
  -- their descriptors and the channels of the endpoints.
  pub record Counted (s : Session) (fd : ℕ) : Type 0 where
    pub same_fd : s.manager.fd ≡ fd
    pub endpoints : s.manager.active_endpoints ≡ live os s
    pub holds :
        Holds descriptor key s.trace
          (live os s + 1)
          (fds s + once (s.manager.fd == descriptor))
          (keys s)

  Entered-Counted :
      (s : Session) (fd : ℕ) {A : Type 0} (fd_of key_of : A → ℕ) (r : Result A) (manager : Manager)
      (trace : Trace) (xs : List A) (others d c : ℕ)
      → s.manager.fd ≡ fd
      → s.manager.active_endpoints ≡ length xs + others
      → length xs + others + 1 < 2 ^ 64
      → Entered descriptor key fd_of key_of r s.manager manager trace
          (length xs + others + 1)
          (tally (λ x. fd_of x == descriptor) xs + d + once (s.manager.fd == descriptor))
          (tally (λ x. key_of x == key) xs + c)
      → (manager.fd ≡ fd)
        × (manager.active_endpoints ≡ length (keep r xs) + others)
        × Holds descriptor key trace
            (length (keep r xs) + others + 1)
            (tally (λ x. fd_of x == descriptor) (keep r xs) + d + once (manager.fd == descriptor))
            (tally (λ x. key_of x == key) (keep r xs) + c)
  Entered-Counted s fd fd_of key_of r manager trace xs others d c same count small
        (inl (e, bad, kept, holds)) =
      rw (bad, kept) (same, count, holds)
  Entered-Counted s fd fd_of key_of r manager trace xs others d c same count small
        (inr (x, good, kept, counted, holds)) =
      rw (good, kept) (same, omega arith, ground arith)

  -- A transfer replaces an endpoint by itself.
  moved :
      (s : Session) (fd : ℕ) (subscribers : List Sub.Subscriber) (publishers : List Pub.Publisher)
      (trace : Trace)
      → Counted s fd
      → length subscribers ≡ length s.subscribers
      → length publishers ≡ length s.publishers
      → let s' : Session = record {
        manager = s.manager;
        subscribers = subscribers;
        publishers = publishers;
        trace = trace;
      } in
        Holds descriptor key trace
          (live os s + 1)
          (fds s' + once (s.manager.fd == descriptor))
          (keys s')
        → Counted s' fd × (live os s' ≤ live os s + 1)
  moved s fd subscribers publishers trace inv same_subs same_pubs holds = (
    record {
      same_fd = inv.same_fd;
      endpoints = omega (arith, inv.endpoints);
      holds = ground (arith, holds);
    },
    omega arith,
  )

  subscriber_recv-same :
      (t : Trace) (x : Sub.Subscriber) (count : ℕ)
      → ((Sub.recv os t x count).1.fd ≡ x.fd)
        × ((Sub.recv os t x count).1.channel_arg ≡ x.channel_arg)
  unfolding Sub.recv
  subscriber_recv-same t x count = elim (Result-cases (os.read_fd t x.fd count)) [
    | inl (e, bad) ↦ ground (arith, bad)
    | inr (bytes, good) ↦ ground (arith, good)
  ]

  subscriber_send-same :
      (t : Trace) (x : Sub.Subscriber) (buf : List ℕ) (count : ℕ)
      → ((Sub.send os t x buf count).1.fd ≡ x.fd)
        × ((Sub.send os t x buf count).1.channel_arg ≡ x.channel_arg)
  unfolding Sub.send
  subscriber_send-same t x buf count = elim (Result-cases (os.write_fd t x.fd (take count buf))) [
    | inl (e, bad) ↦ ground (arith, bad)
    | inr (bytes, good) ↦ ground (arith, good)
  ]

  -- The endpoint at a place is replaced by one with the same descriptor and channel.
  subscriber_kept :
      (s : Session) (i : ℕ) (x y : Sub.Subscriber) (t : Trace)
      → nth s.subscribers i ≡ some x
      → Holds descriptor key s.trace
          (live os s + 1)
          (fds s + once (s.manager.fd == descriptor))
          (keys s)
      → ((n d c : ℕ)
          → HoldsWith descriptor key x.fd x.channel_arg.channel_key s.trace n d c
          → HoldsWith descriptor key y.fd y.channel_arg.channel_key t n d c)
      → (y.fd ≡ x.fd) × (y.channel_arg ≡ x.channel_arg)
      → let s' = record s { subscribers = set s.subscribers i y } in
        Holds descriptor key t
          (live os s + 1)
          (fds s' + once (s.manager.fd == descriptor))
          (keys s')
  subscriber_kept s i x y t found holds keeps (same_fd, same_arg) =
      let fewer = tally-remove subscriber_has_fd s.subscribers i x found in
      let less_keys = tally-remove subscriber_has_key s.subscribers i x found in
      let d = fds s + once (s.manager.fd == descriptor) - once (subscriber_has_fd x) in
      let c = keys s - once (subscriber_has_key x) in
      let fd_kept =
        tally-set subscriber_has_fd s.subscribers i x y found
          (ap (λ n. once (n == descriptor)) (sym same_fd)) in
      let key_kept =
        tally-set subscriber_has_key s.subscribers i x y found
          (ap (λ a. once (a.channel_key == key)) (sym same_arg)) in
      let same_fd' : once (y.fd == descriptor) ≡ once (x.fd == descriptor) =
        ap (λ n. once (n == descriptor)) same_fd in
      let same_key' : once (y.channel_arg.channel_key == key)
          ≡ once (x.channel_arg.channel_key == key) =
        ap (λ a. once (a.channel_key == key)) same_arg in
      let h = keeps (live os s + 1) d c (record {
        memory = holds.memory;
        descriptors = omega (arith, holds.descriptors, fewer);
        channels = omega (arith, holds.channels, less_keys);
      }) in
      record {
        memory = h.memory;
        descriptors = omega (arith, h.descriptors, fewer, fd_kept, same_fd');
        channels = omega (arith, h.channels, less_keys, key_kept, same_key');
      }

  publisher_recv-same :
      (t : Trace) (x : Pub.Publisher) (count : ℕ)
      → ((Pub.recv os t x count).1.fd ≡ x.fd)
        × ((Pub.recv os t x count).1.channel_arg ≡ x.channel_arg)
  unfolding Pub.recv
  publisher_recv-same t x count = elim (Result-cases (os.read_fd t x.fd count)) [
    | inl (e, bad) ↦ ground (arith, bad)
    | inr (bytes, good) ↦ ground (arith, good)
  ]

  publisher_send-same :
      (t : Trace) (x : Pub.Publisher) (buf : List ℕ) (count : ℕ)
      → ((Pub.send os t x buf count).1.fd ≡ x.fd)
        × ((Pub.send os t x buf count).1.channel_arg ≡ x.channel_arg)
  unfolding Pub.send
  publisher_send-same t x buf count = elim (Result-cases (os.write_fd t x.fd (take count buf))) [
    | inl (e, bad) ↦ ground (arith, bad)
    | inr (bytes, good) ↦ ground (arith, good)
  ]

  -- The endpoint at a place is replaced by one with the same descriptor and channel.
  publisher_kept :
      (s : Session) (i : ℕ) (x y : Pub.Publisher) (t : Trace)
      → nth s.publishers i ≡ some x
      → Holds descriptor key s.trace
          (live os s + 1)
          (fds s + once (s.manager.fd == descriptor))
          (keys s)
      → ((n d c : ℕ)
          → HoldsWith descriptor key x.fd x.channel_arg.channel_key s.trace n d c
          → HoldsWith descriptor key y.fd y.channel_arg.channel_key t n d c)
      → (y.fd ≡ x.fd) × (y.channel_arg ≡ x.channel_arg)
      → let s' = record s { publishers = set s.publishers i y } in
        Holds descriptor key t
          (live os s + 1)
          (fds s' + once (s.manager.fd == descriptor))
          (keys s')
  publisher_kept s i x y t found holds keeps (same_fd, same_arg) =
      let fewer = tally-remove publisher_has_fd s.publishers i x found in
      let less_keys = tally-remove publisher_has_key s.publishers i x found in
      let d = fds s + once (s.manager.fd == descriptor) - once (publisher_has_fd x) in
      let c = keys s - once (publisher_has_key x) in
      let fd_kept =
        tally-set publisher_has_fd s.publishers i x y found
          (ap (λ n. once (n == descriptor)) (sym same_fd)) in
      let key_kept =
        tally-set publisher_has_key s.publishers i x y found
          (ap (λ a. once (a.channel_key == key)) (sym same_arg)) in
      let same_fd' : once (y.fd == descriptor) ≡ once (x.fd == descriptor) =
        ap (λ n. once (n == descriptor)) same_fd in
      let same_key' : once (y.channel_arg.channel_key == key)
          ≡ once (x.channel_arg.channel_key == key) =
        ap (λ a. once (a.channel_key == key)) same_arg in
      let h = keeps (live os s + 1) d c (record {
        memory = holds.memory;
        descriptors = omega (arith, holds.descriptors, fewer);
        channels = omega (arith, holds.channels, less_keys);
      }) in
      record {
        memory = h.memory;
        descriptors = omega (arith, h.descriptors, fewer, fd_kept, same_fd');
        channels = omega (arith, h.channels, less_keys, key_kept, same_key');
      }

  step-Counted :
      (s : Session) (op : Op) (fd : ℕ)
      → live os s + 1 < 2 ^ 64
      → Counted s fd
      → Counted (step os s op) fd × (live os (step os s op) ≤ live os s + 1)
  unfolding step
  step-Counted s (subscribes publisher_id channel_key) fd small inv =
      let entered =
        Entered-Counted s fd subscriber_fd subscriber_key _ _ _ s.subscribers (length s.publishers)
          (tally publisher_has_fd s.publishers) (tally publisher_has_key s.publishers) inv.same_fd
          inv.endpoints small
          (subscribe_lem descriptor key os s.trace s.manager publisher_id channel_key _ _ _
            inv.holds) in
      (
        record { same_fd = entered.0; endpoints = entered.1; holds = entered.2 },
        omega (
          arith,
          length-keep (Sub.subscribe os s.trace s.manager publisher_id channel_key).0 s.subscribers,
        ),
      )
  step-Counted s (publishes channel_key channel_size) fd small inv =
      let others = length s.subscribers in
      let n = length s.publishers + others in
      let entered =
        Entered-Counted s fd publisher_fd publisher_key _ _ _ s.publishers others
          (tally subscriber_has_fd s.subscribers) (tally subscriber_has_key s.subscribers)
          inv.same_fd (omega (arith, inv.endpoints)) (omega arith)
          (publish_lem descriptor key os s.trace s.manager channel_key channel_size (n + 1) _ _
            (ground (arith, inv.holds))) in
      (
        record {
          same_fd = entered.0;
          endpoints = omega (arith, entered.1);
          holds = ground (arith, entered.2);
        },
        omega (
          arith,
          length-keep (Pub.publish os s.trace s.manager channel_key channel_size).0 s.publishers,
        ),
      )
  step-Counted s (unsubscribes i) fd small inv = elim (Option-cases (nth s.subscribers i)) [
    | inl none_there ↦ rw (none_there, step) (inv, omega arith)
    | inr (subscriber, found) ↦
        let less = length-remove s.subscribers i subscriber found in
        let fewer = tally-remove subscriber_has_fd s.subscribers i subscriber found in
        let less_keys = tally-remove subscriber_has_key s.subscribers i subscriber found in
        let rest = live os s - 1 in
        let departed =
          unsubscribe_lem descriptor key os s.trace s.manager subscriber (rest + 1)
            (fds s + once (s.manager.fd == descriptor) - once (subscriber_has_fd subscriber))
            (keys s - once (subscriber_has_key subscriber)) (omega (arith, inv.endpoints))
            (ground (arith, inv.holds)) in
        rw (found, step)
          (
            record {
              same_fd = departed.1 ∙ inv.same_fd;
              endpoints = omega (arith, departed.2, inv.endpoints);
              holds = ground (arith, departed.3);
            },
            omega arith,
          )
  ]
  step-Counted s (unpublishes i) fd small inv = elim (Option-cases (nth s.publishers i)) [
    | inl none_there ↦ rw (none_there, step) (inv, omega arith)
    | inr (publisher, found) ↦
        let less = length-remove s.publishers i publisher found in
        let fewer = tally-remove publisher_has_fd s.publishers i publisher found in
        let less_keys = tally-remove publisher_has_key s.publishers i publisher found in
        let rest = live os s - 1 in
        let departed =
          unpublish_lem descriptor key os s.trace s.manager publisher (rest + 1)
            (fds s + once (s.manager.fd == descriptor) - once (publisher_has_fd publisher))
            (keys s - once (publisher_has_key publisher)) (omega (arith, inv.endpoints))
            (ground (arith, inv.holds)) in
        rw (found, step)
          (
            record {
              same_fd = departed.1 ∙ inv.same_fd;
              endpoints = omega (arith, departed.2, inv.endpoints);
              holds = ground (arith, departed.3);
            },
            omega arith,
          )
  ]
  step-Counted s (subscriber_recvs i count) fd small inv =
      elim (Option-cases (nth s.subscribers i)) [
        | inl none_there ↦ rw (none_there, step) (inv, omega arith)
        | inr (subscriber, found) ↦
            rw (found, step)
              (moved s fd _ _ _ inv (length-set s.subscribers i _) refl (
                subscriber_kept s i subscriber (Sub.recv os s.trace subscriber count).1 _ found
                  inv.holds
                  (λ n d c h.
                    recv-Holds_subscriber descriptor key os s.trace subscriber count n d c h)
                  (subscriber_recv-same s.trace subscriber count)))
      ]
  step-Counted s (publisher_recvs i count) fd small inv = elim (Option-cases (nth s.publishers i)) [
    | inl none_there ↦ rw (none_there, step) (inv, omega arith)
    | inr (publisher, found) ↦
        rw (found, step)
          (moved s fd _ _ _ inv refl (length-set s.publishers i _) (
            publisher_kept s i publisher (Pub.recv os s.trace publisher count).1 _ found inv.holds
              (λ n d c h. recv-Holds_publisher descriptor key os s.trace publisher count n d c h)
              (publisher_recv-same s.trace publisher count)))
  ]
  step-Counted s (subscriber_sends i buf count) fd small inv =
      elim (Option-cases (nth s.subscribers i)) [
        | inl none_there ↦ rw (none_there, step) (inv, omega arith)
        | inr (subscriber, found) ↦
            rw (found, step)
              (moved s fd _ _ _ inv (length-set s.subscribers i _) refl (
                subscriber_kept s i subscriber (Sub.send os s.trace subscriber buf count).1 _ found
                  inv.holds
                  (λ n d c h.
                    send-Holds_subscriber descriptor key os s.trace subscriber buf count n d c h)
                  (subscriber_send-same s.trace subscriber buf count)))
      ]
  step-Counted s (publisher_sends i buf count) fd small inv =
      elim (Option-cases (nth s.publishers i)) [
        | inl none_there ↦ rw (none_there, step) (inv, omega arith)
        | inr (publisher, found) ↦
            rw (found, step)
              (moved s fd _ _ _ inv refl (length-set s.publishers i _) (
                publisher_kept s i publisher (Pub.send os s.trace publisher buf count).1 _ found
                  inv.holds
                  (λ n d c h.
                    send-Holds_publisher descriptor key os s.trace publisher buf count n d c h)
                  (publisher_send-same s.trace publisher buf count)))
      ]

  run-Counted :
      (s : Session) (ops : List Op) (fd : ℕ)
      → live os s + length ops < 2 ^ 64
      → Counted s fd
      → Counted (run os s ops) fd
  unfolding run
  run-Counted s [] fd small inv = inv
  run-Counted s (op ∷ ops) fd small inv =
      let (now, bound) = step-Counted s op fd (omega arith) inv in
      run-Counted (step os s op) ops fd (omega arith) now

  opened_Counted :
      (manager : Manager) (t : Trace)
      → open_manager os [] ≡ (done manager, t)
      → Counted (begin manager t) manager.fd
  opened_Counted manager t opens = ground (
    arith,
    rw opens at (
        open_manager_lem descriptor key os [] 0 0 0
          (record { memory = refl; descriptors = refl; channels = refl })),
  )

  -- A process that opens a manager and then makes any calls, fewer than 2^64, on a system that answers
  -- them as it likes. The manager counts its endpoints. While some are left, closing the manager is
  -- refused and nothing changes. Once none is left, closing it leaves the process with no allocation, every descriptor
  -- closed as often as it was opened, and every channel, by its key, given back as often as it was got, but for those that the
  -- system was asked to take back and refused.
  pub session_balance :
      (manager : Manager) (t : Trace) (ops : List Op)
      → open_manager os [] ≡ (done manager, t)
      → manager.fd < 2 ^ 63
      → length ops < 2 ^ 64
      → let s = run os (begin manager t) ops in
        let (code, t') = close_manager os s.trace s.manager in
        (s.manager.active_endpoints ≡ live os s)
        × (((live os s ≢ 0)
              × (code ≡ failed ebusy)
              × (t' ≡ s.trace)
              × Holds descriptor key s.trace
                  (live os s + 1)
                  (fds s + once (s.manager.fd == descriptor))
                  (keys s))
            ⊎ ((live os s ≡ 0) × Holds descriptor key t' 0 0 0))
  session_balance manager t ops opens good few =
      let s = run os (begin manager t) ops in
      let inv =
        run-Counted (begin manager t) ops manager.fd (omega arith)
          (opened_Counted manager t opens) in
      let valid : manager_is_valid s.manager ≡ true = ground (arith, inv.same_fd) in
      let closes =
        close_manager_lem descriptor key os s.trace s.manager (live os s) (fds s) (keys s) valid
          inv.holds in
      (
        inv.endpoints,
        elim closes [
          | inl (used, refused, same) ↦
              inl ((λ e. used (inv.endpoints ∙ e)), refused, same, inv.holds)
          | inr (unused, h) ↦
              let nothing : live os s ≡ 0 = sym inv.endpoints ∙ unused in
              let none_subscribed : length s.subscribers ≡ 0 = omega (arith, nothing) in
              let none_published : length s.publishers ≡ 0 = omega (arith, nothing) in
              let no_fds : fds s ≡ 0 = omega (
                arith,
                tally-none subscriber_has_fd s.subscribers none_subscribed,
                tally-none publisher_has_fd s.publishers none_published,
              ) in
              let no_keys : keys s ≡ 0 = omega (
                arith,
                tally-none subscriber_has_key s.subscribers none_subscribed,
                tally-none publisher_has_key s.publishers none_published,
              ) in
              inr (
                nothing,
                record {
                  memory = omega (arith, h.memory, nothing);
                  descriptors = omega (arith, h.descriptors, no_fds);
                  channels = omega (arith, h.channels, no_keys);
                },
              )
        ],
      )
