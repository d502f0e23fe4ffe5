-- ===== src/Ulib/Balance.antt =====
-- userspace/ivc/ivc_ulib.c: what a process holds, by what it asked the system for.
use axvisor_tools.Common.{
  once, ℕ, ◌+◌, ◌<◌, ◌≡◌, ◌≢◌, ◌⊎◌, inl, inr, refl, arith, Bool, true, false, Bool-cases,
  Result-cases, ◌==◌, List, [], ◌∷◌, take, if◌then◌else◌, Errno, Result, done, failed, Code, ebusy,
}
use axvisor_tools.Ulib.Defs.{
  Event, allocated, freed, opened, closed, joined, left, stranded, gives_back, refused, Trace, Os,
  Manager, u64, manager_is_valid, release_endpoint, open_manager, close_manager, first_error,
  dev_path,
}
use axvisor_tools.Ulib.Subscriber as Sub
use axvisor_tools.Ulib.Publisher as Pub

abbrev pub count : (Event → Bool) → Trace → ℕ
count p [] = 0
count p (event ∷ t) = (if p event then 1 else 0) + count p t

abbrev pub is_allocated : Event → Bool
is_allocated allocated = true
is_allocated _ = false

abbrev pub is_freed : Event → Bool
is_freed freed = true
is_freed _ = false

abbrev pub is_opened : ℕ → Event → Bool
is_opened descriptor (opened fd) = fd == descriptor
is_opened descriptor _ = false

abbrev pub is_closed : ℕ → Event → Bool
is_closed descriptor (closed fd) = fd == descriptor
is_closed descriptor _ = false

abbrev pub is_joined : ℕ → Event → Bool
is_joined key (joined k) = k == key
is_joined key _ = false

abbrev pub is_left : ℕ → Event → Bool
is_left key (left k) = k == key
is_left key _ = false

abbrev pub is_stranded : ℕ → Event → Bool
is_stranded key (stranded k) = k == key
is_stranded key _ = false

abbrev pub subscriber_fd : Sub.Subscriber → ℕ
subscriber_fd s = s.fd

abbrev pub subscriber_key : Sub.Subscriber → ℕ
subscriber_key s = s.channel_arg.channel_key

abbrev pub publisher_fd : Pub.Publisher → ℕ
publisher_fd p = p.fd

abbrev pub publisher_key : Pub.Publisher → ℕ
publisher_key p = p.channel_arg.channel_key

module _ (descriptor key : ℕ) where
  -- What was got and not given up: `n` allocations, `d` times the descriptor, and `c` times the channel with the
  -- key, which the system may also have refused to take back.
  pub record Holds (t : Trace) (n d c : ℕ) : Type 0 where
    pub memory : count is_allocated t ≡ count is_freed t + n
    pub descriptors : count (is_opened descriptor) t ≡ count (is_closed descriptor) t + d
    pub channels : count (is_joined key) t ≡ count (is_left key) t + count (is_stranded key) t + c

  -- An endpoint with this descriptor and this channel is held too.
  abbrev pub HoldsWith : ℕ → ℕ → Trace → ℕ → ℕ → ℕ → Type 0
  HoldsWith fd k t n d c = Holds t n (d + once (fd == descriptor)) (c + once (k == key))

  given_back :
      (code : Code) (k : ℕ)
      → once (is_left key (gives_back code k)) + once (is_stranded key (gives_back code k))
        ≡ once (k == key)
  given_back (done u) k = omega arith
  given_back (failed e) k = omega arith

  back_plain :
      (code : Code) (k : ℕ)
      → (is_allocated (gives_back code k) ≡ false)
        × (is_freed (gives_back code k) ≡ false)
        × (is_opened descriptor (gives_back code k) ≡ false)
        × (is_closed descriptor (gives_back code k) ≡ false)
        × (is_joined key (gives_back code k) ≡ false)
  back_plain (done u) k = (refl, refl, refl, refl, refl)
  back_plain (failed e) k = (refl, refl, refl, refl, refl)

  pub open_manager_lem :
      (os : Os) (t : Trace) (n d c : ℕ)
      → Holds t n d c
      → let (r, t') = open_manager os t in
        ((e : Errno) × (r ≡ failed e) × Holds t' n d c)
        ⊎ ((manager : Manager) × (r ≡ done manager)
            × (manager.active_endpoints ≡ 0)
            × Holds t' (n + 1) (d + once (manager.fd == descriptor)) c)
  unfolding open_manager
  open_manager_lem os t n d c h = elim (Bool-cases (os.has_memory t)) [
    | inr none ↦ rw none (inl (_, refl, ground arith))
    | inl some ↦ elim (Result-cases (os.open_path (allocated ∷ t) dev_path)) [
      | inl (e, bad) ↦ rw (some, bad) (inl (_, refl, ground arith))
      | inr (fd, good) ↦ rw (some, good) (inr (_, refl, refl, ground arith))
    ]
  ]

  pub close_manager_lem :
      (os : Os) (t : Trace) (manager : Manager) (n d c : ℕ)
      → manager_is_valid manager ≡ true
      → Holds t (n + 1) (d + once (manager.fd == descriptor)) c
      → let (code, t') = close_manager os t manager in
        ((manager.active_endpoints ≢ 0) × (code ≡ failed ebusy) × (t' ≡ t))
        ⊎ ((manager.active_endpoints ≡ 0) × Holds t' n d c)
  unfolding close_manager
  close_manager_lem os t manager n d c valid h = ground arith

  -- An endpoint was opened and is counted, or the call failed and all it got is given up.
  abbrev pub Entered {ℓ} :
      {A : Type ℓ} → (A → ℕ) → (A → ℕ) → Result A → Manager → Manager → Trace → ℕ → ℕ → ℕ → Type ℓ
  Entered {A = A} fd_of key_of r manager manager' t' n d c =
      ((e : Errno) × (r ≡ failed e) × (manager' ≡ manager) × Holds t' n d c)
      ⊎ ((endpoint : A) × (r ≡ done endpoint)
          × (manager'.fd ≡ manager.fd)
          × (manager'.active_endpoints ≡ u64 (manager.active_endpoints + 1))
          × HoldsWith (fd_of endpoint) (key_of endpoint) t' (n + 1) d c)

  -- `ivc_subscribe` on every path: it returns a subscriber, which the manager counts and for which one
  -- allocation, its descriptor and its channel are held, or it fails, and then the manager is as before and no
  -- more memory or descriptor, by its number, is held than before, and no more channel, by its key, but one that the system
  -- refused to take back in the roll back.
  pub subscribe_lem :
      (os : Os) (t : Trace) (manager : Manager) (publisher_id channel_key : ℕ) (n d c : ℕ)
      → Holds t n d c
      → let (r, manager', t') = Sub.subscribe os t manager publisher_id channel_key in
        Entered subscriber_fd subscriber_key r manager manager' t' n d c
  unfolding Sub.subscribe
  subscribe_lem os t manager publisher_id channel_key n d c h =
      elim (Bool-cases (manager_is_valid manager)) [
        | inr bad ↦ rw bad (inl (_, refl, refl, h))
        | inl valid ↦ elim (Bool-cases (os.has_memory t)) [
          | inr none ↦ rw (valid, none) (inl (_, refl, refl, ground arith))
          | inl some ↦
              elim (Result-cases (
                os.subscribe_channel (allocated ∷ t) manager.fd (record {
                  target_publisher_id = publisher_id;
                  channel_key = channel_key;
                  device_name = Sub.no_name;
                }))) [
                  | inl (e, bad) ↦ rw (valid, some, bad) (inl (_, refl, refl, ground arith))
                  | inr (filled, good) ↦
                      elim (Result-cases (
                        os.open_path (joined filled.channel_key ∷ allocated ∷ t)
                          filled.device_name)) [
                            | inl (e, bad) ↦
                                rw (valid, some, good, bad)
                                  (let t1 = refused ∷ joined filled.channel_key ∷ allocated ∷ t in
                                    let answer = os.unsubscribe_channel t1 manager.fd filled in
                                    (inl (
                                      _,
                                      refl,
                                      refl,
                                      ground (
                                        arith,
                                        h,
                                        given_back answer filled.channel_key,
                                        back_plain answer filled.channel_key,
                                      ),
                                    )))
                            | inr (fd, opens) ↦
                                rw (valid, some, good, opens)
                                  (inr (_, refl, refl, refl, ground arith))
                          ]
                ]
        ]
      ]

  -- The same of `ivc_publish`.
  pub publish_lem :
      (os : Os) (t : Trace) (manager : Manager) (channel_key channel_size : ℕ) (n d c : ℕ)
      → Holds t n d c
      → let (r, manager', t') = Pub.publish os t manager channel_key channel_size in
        Entered publisher_fd publisher_key r manager manager' t' n d c
  unfolding Pub.publish
  publish_lem os t manager channel_key channel_size n d c h =
      elim (Bool-cases (manager_is_valid manager)) [
        | inr bad ↦ rw bad (inl (_, refl, refl, h))
        | inl valid ↦ elim (Bool-cases (os.has_memory t)) [
          | inr none ↦ rw (valid, none) (inl (_, refl, refl, ground arith))
          | inl some ↦
              elim (Result-cases (
                os.publish_channel (allocated ∷ t) manager.fd (record {
                  channel_key = channel_key;
                  channel_size = channel_size;
                  device_name = Pub.no_name;
                }))) [
                  | inl (e, bad) ↦ rw (valid, some, bad) (inl (_, refl, refl, ground arith))
                  | inr (filled, good) ↦
                      elim (Result-cases (
                        os.open_path (joined filled.channel_key ∷ allocated ∷ t)
                          filled.device_name)) [
                            | inl (e, bad) ↦
                                rw (valid, some, good, bad)
                                  (let t1 = refused ∷ joined filled.channel_key ∷ allocated ∷ t in
                                    let answer = os.unpublish_channel t1 manager.fd filled in
                                    (inl (
                                      _,
                                      refl,
                                      refl,
                                      ground (
                                        arith,
                                        h,
                                        given_back answer filled.channel_key,
                                        back_plain answer filled.channel_key,
                                      ),
                                    )))
                            | inr (fd, opens) ↦
                                rw (valid, some, good, opens)
                                  (inr (_, refl, refl, refl, ground arith))
                          ]
                ]
        ]
      ]

  -- An endpoint is gone, and the result is the first error.
  abbrev pub Departed : Code → Code → Code → Manager → Manager → Trace → ℕ → ℕ → ℕ → Type 0
  Departed code close_code leave_code manager manager' t' n d c =
      (code ≡ first_error close_code leave_code)
      × (manager'.fd ≡ manager.fd)
      × (manager'.active_endpoints + 1 ≡ manager.active_endpoints)
      × Holds t' n d c

  -- `ivc_unsubscribe` of a counted subscriber gives up its allocation and descriptor, and its channel unless the
  -- system refuses it, and is
  -- counted, whatever its two calls of the system answer; the first error of the two is the result.
  pub unsubscribe_lem :
      (os : Os) (t : Trace) (manager : Manager) (subscriber : Sub.Subscriber) (n d c : ℕ)
      → 0 < manager.active_endpoints
      → HoldsWith subscriber.fd subscriber.channel_arg.channel_key t (n + 1) d c
      → let (code, manager', t') = Sub.unsubscribe os t manager subscriber in
        Departed code
          (os.close_fd t subscriber.fd)
          (os.unsubscribe_channel (closed subscriber.fd ∷ t) manager.fd subscriber.channel_arg)
          manager
          manager'
          t'
          n
          d
          c
  unfolding Sub.unsubscribe release_endpoint
  unsubscribe_lem os t manager subscriber n d c some h =
      let answer =
        os.unsubscribe_channel (closed subscriber.fd ∷ t) manager.fd subscriber.channel_arg in
      let k = subscriber.channel_arg.channel_key in
      ground (arith, some, h, given_back answer k, back_plain answer k)

  -- `ivc_unpublish` of a counted publisher gives up its allocation and descriptor, and its channel unless
  -- the system refuses it, and is
  -- counted, whatever its two calls of the system answer; the first error of the two is the result.
  pub unpublish_lem :
      (os : Os) (t : Trace) (manager : Manager) (publisher : Pub.Publisher) (n d c : ℕ)
      → 0 < manager.active_endpoints
      → HoldsWith publisher.fd publisher.channel_arg.channel_key t (n + 1) d c
      → let (code, manager', t') = Pub.unpublish os t manager publisher in
        Departed code
          (os.close_fd t publisher.fd)
          (os.unpublish_channel (closed publisher.fd ∷ t) manager.fd publisher.channel_arg)
          manager
          manager'
          t'
          n
          d
          c
  unfolding Pub.unpublish release_endpoint
  unpublish_lem os t manager publisher n d c some h =
      let answer =
        os.unpublish_channel (closed publisher.fd ∷ t) manager.fd publisher.channel_arg in
      let k = publisher.channel_arg.channel_key in
      ground (arith, some, h, given_back answer k, back_plain answer k)

  pub recv-Holds_subscriber :
      (os : Os) (t : Trace) (subscriber : Sub.Subscriber) (count n d c : ℕ)
      → HoldsWith subscriber.fd subscriber.channel_arg.channel_key t n d c
      → let (r, subscriber', t') = Sub.recv os t subscriber count in
        HoldsWith subscriber'.fd subscriber'.channel_arg.channel_key t' n d c
  unfolding Sub.recv
  recv-Holds_subscriber os t subscriber count n d c h =
      elim (Result-cases (os.read_fd t subscriber.fd count)) [
        | inl (e, bad) ↦ ground (arith, bad)
        | inr (bytes, good) ↦ ground (arith, good)
      ]

  pub recv-Holds_publisher :
      (os : Os) (t : Trace) (publisher : Pub.Publisher) (count n d c : ℕ)
      → HoldsWith publisher.fd publisher.channel_arg.channel_key t n d c
      → let (r, publisher', t') = Pub.recv os t publisher count in
        HoldsWith publisher'.fd publisher'.channel_arg.channel_key t' n d c
  unfolding Pub.recv
  recv-Holds_publisher os t publisher count n d c h =
      elim (Result-cases (os.read_fd t publisher.fd count)) [
        | inl (e, bad) ↦ ground (arith, bad)
        | inr (bytes, good) ↦ ground (arith, good)
      ]

  pub send-Holds_subscriber :
      (os : Os) (t : Trace) (subscriber : Sub.Subscriber) (buf : List ℕ) (count n d c : ℕ)
      → HoldsWith subscriber.fd subscriber.channel_arg.channel_key t n d c
      → let (r, subscriber', t') = Sub.send os t subscriber buf count in
        HoldsWith subscriber'.fd subscriber'.channel_arg.channel_key t' n d c
  unfolding Sub.send
  send-Holds_subscriber os t subscriber buf count n d c h =
      elim (Result-cases (os.write_fd t subscriber.fd (take count buf))) [
        | inl (e, bad) ↦ ground (arith, bad)
        | inr (sent, good) ↦ ground (arith, good)
      ]

  pub send-Holds_publisher :
      (os : Os) (t : Trace) (publisher : Pub.Publisher) (buf : List ℕ) (count n d c : ℕ)
      → HoldsWith publisher.fd publisher.channel_arg.channel_key t n d c
      → let (r, publisher', t') = Pub.send os t publisher buf count in
        HoldsWith publisher'.fd publisher'.channel_arg.channel_key t' n d c
  unfolding Pub.send
  send-Holds_publisher os t publisher buf count n d c h =
      elim (Result-cases (os.write_fd t publisher.fd (take count buf))) [
        | inl (e, bad) ↦ ground (arith, bad)
        | inr (sent, good) ↦ ground (arith, good)
      ]
