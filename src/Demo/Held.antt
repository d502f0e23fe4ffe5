-- ===== src/Demo/Held.antt =====
-- demo/publish.c: what the publisher's program leaves behind.
use axvisor_tools.Common.{
  once, subst, sym, ℕ, zero, suc, ◌+◌, ◌^◌, ◌<◌, ◌≡◌, ◌≢◌, ◌⊎◌, inl, inr, refl, arith, true, ◌||◌,
  some, Option-cases, Bool-cases, Result-cases, List, [], ◌∷◌, ◌++◌, ltb, ◌==◌, if◌then◌else◌,
  length, done, failed, Code,
}
use axvisor_tools.AppProto.Defs.{
  AppMessage, max_message_len, request_count, kind_request, encode_pattern, decode, request_lengths,
}
use axvisor_tools.Ulib.Defs.{
  Trace, Os, Manager, manager_is_valid, open_manager, close_manager, dev_path, allocated,
}
use axvisor_tools.Ulib.Publisher.{Publisher, publish, unpublish, send, recv}
use axvisor_tools.Ulib.Balance.{
  Holds, HoldsWith, open_manager_lem, close_manager_lem, publish_lem, unpublish_lem,
}
use axvisor_tools.Demo.Publish.{
  max_empty_polls, default_channel_size, send_requests_from, send_requests, Replies, handle_reply,
  receive_rounds, receive_replies, enough_rounds,
}
use axvisor_tools.Demo.Replies.{IsComplete, receive_replies-Receives, receive_replies_terminates}
use axvisor_tools.Demo.Main.{Exit, or_else, close_with, unpublish_with, finish, publish_main}

-- `open` answers a descriptor that an `int` holds.
abbrev pub AreDescriptors : Os → Type 0
AreDescriptors os =
    (t : Trace) (path : List ℕ) (fd : ℕ) → os.open_path t path ≡ done fd → fd < 2 ^ 63

-- A later error replaces the exit code.
pub kept_code :
    (code : Code) (bad ret : ℕ) (P : Type 0)
    → bad ≢ 0
    → (ret ≢ 0) ⊎ P
    → (or_else code bad ret ≢ 0) ⊎ P
kept_code (failed e) bad ret P not_zero why = inl not_zero
kept_code (done _) bad ret P not_zero why = why

pub opened_valid :
    (os : Os) (t : Trace) (manager : Manager)
    → AreDescriptors os
    → (open_manager os t).0 ≡ done manager
    → manager_is_valid manager ≡ true
unfolding open_manager
opened_valid os t manager descriptors opens = elim (Bool-cases (os.has_memory t)) [
  | inr none_left ↦ absurd (ground (arith, opens, none_left))
  | inl some_left ↦ elim (Result-cases (os.open_path (allocated ∷ t) dev_path)) [
    | inl (e, bad) ↦ absurd (ground (arith, opens, some_left, bad))
    | inr (fd, good) ↦
        ground (arith, opens, some_left, good, descriptors (allocated ∷ t) dev_path fd good)
  ]
]

module _ (descriptor key : ℕ) where
  -- What is held with an endpoint.
  abbrev pub With : Publisher → Trace → ℕ → ℕ → ℕ → Type 0
  With publisher = HoldsWith descriptor key publisher.fd publisher.channel_arg.channel_key

  send-Holds :
      (os : Os) (t : Trace) (publisher : Publisher) (buf : List ℕ) (size n d c : ℕ)
      → With publisher t n d c
      → With (send os t publisher buf size).1 (send os t publisher buf size).2 n d c
  unfolding send
  send-Holds os t publisher buf size n d c h = ground arith

  recv-Holds :
      (os : Os) (t : Trace) (publisher : Publisher) (size n d c : ℕ)
      → With publisher t n d c
      → With (recv os t publisher size).1 (recv os t publisher size).2 n d c
  unfolding recv
  recv-Holds os t publisher size n d c h = ground arith

  send_requests-Holds :
      (lengths : List ℕ) (index : ℕ) (os : Os) (t : Trace) (publisher : Publisher)
      (payload : List ℕ) (n d c : ℕ)
      → With publisher t n d c
      → With
          (send_requests_from lengths index os t publisher payload).1
          (send_requests_from lengths index os t publisher payload).2
          n
          d
          c
  unfolding send_requests_from
  send_requests-Holds [] index os t publisher payload n d c h = h
  send_requests-Holds (message_len ∷ lengths) index os t publisher payload n d c h =
      let (encoded, payload') = encode_pattern payload message_len kind_request (index + 1) in
      let (sent, publisher', t') = send os t publisher payload' message_len in
      let h' = send-Holds os t publisher payload' message_len n d c h in
      let more = send_requests-Holds lengths (index + 1) os t' publisher' payload' n d c h' in
      elim (Bool-cases encoded) [
        | inr refused ↦ rw (send_requests_from, refused) h
        | inl good ↦ elim (Result-cases sent) [
          | inl (e, bad) ↦ rw (send_requests_from, good, bad) h'
          | inr (k, all) ↦ elim (Bool-cases (k == message_len)) [
            | inl same ↦ rw (send_requests_from, good, all, same) more
            | inr short ↦ rw (send_requests_from, good, all, short) h'
          ]
        ]
      ]

  receive_rounds-Holds :
      (rounds : ℕ) (os : Os) (t : Trace) (publisher : Publisher) (r : Replies) (empty_polls : ℕ)
      (accepted : List AppMessage) (n d c : ℕ)
      → With publisher t n d c
      → With
          (receive_rounds rounds os t publisher r empty_polls accepted).publisher
          (receive_rounds rounds os t publisher r empty_polls accepted).trace
          n
          d
          c
  unfolding receive_rounds
  receive_rounds-Holds zero os t publisher r empty_polls accepted n d c h = h
  receive_rounds-Holds (suc rounds) os t publisher r empty_polls accepted n d c h =
      let (answer, publisher', t') = recv os t publisher max_message_len in
      let h' = recv-Holds os t publisher max_message_len n d c h in
      elim (Bool-cases (ltb request_count r.expected_ack_sequence)) [
        | inl over ↦ rw (receive_rounds, over) h
        | inr open_still ↦ elim (Result-cases answer) [
          | inl (e, bad) ↦ rw (receive_rounds, open_still, bad) h'
          | inr (bytes, good) ↦ elim (Bool-cases (length bytes == 0)) [
            | inl empty ↦ elim (Bool-cases (ltb max_empty_polls (empty_polls + 1))) [
              | inl late ↦ rw (receive_rounds, open_still, good, empty, late) h'
              | inr early ↦
                  rw (receive_rounds, open_still, good, empty, early)
                    (receive_rounds-Holds rounds os t' publisher' r (empty_polls + 1) accepted n d c
                      h')
            ]
            | inr some_bytes ↦ elim (Option-cases (decode bytes (length bytes))) [
              | inl malformed ↦ rw (receive_rounds, open_still, good, some_bytes, malformed) h'
              | inr (message, decoded) ↦ elim (Option-cases (handle_reply r message)) [
                | inl refused ↦
                    rw (receive_rounds, open_still, good, some_bytes, decoded, refused) h'
                | inr (r', handled) ↦
                    rw (receive_rounds, open_still, good, some_bytes, decoded, handled)
                      (receive_rounds-Holds rounds os t' publisher' r' 0
                        (accepted ++ (message ∷ [])) n d c h')
              ]
            ]
          ]
        ]
      ]

  -- The program has ended and holds what it held before, and exit code 0 says that all replies came.
  abbrev pub Leaves : Exit → ℕ → ℕ → ℕ → Type 0
  Leaves o n d c =
      (ret : ℕ) × (o.ret ≡ some ret)
      × Holds descriptor key o.trace n d c
      × ((ret ≢ 0) ⊎ IsComplete o.accepted)

  close_with-Leaves :
      (os : Os) (t : Trace) (manager : Manager) (accepted : List AppMessage) (ret n d c : ℕ)
      → manager_is_valid manager ≡ true
      → manager.active_endpoints ≡ 0
      → Holds descriptor key t (n + 1) (d + once (manager.fd == descriptor)) c
      → (ret ≢ 0) ⊎ IsComplete accepted
      → Leaves (close_with os t manager accepted ret) n d c
  close_with-Leaves os t manager accepted ret n d c valid unused h why =
      elim (close_manager_lem descriptor key os t manager n d c valid h) [
        | inl (used, _, _) ↦ absurd (used unused)
        | inr (_, h') ↦ (
          _,
          refl,
          h',
          kept_code (close_manager os t manager).0 5 ret (IsComplete accepted) (λ e. omega arith)
              why,
        )
      ]

  unpublish_with-Leaves :
      (os : Os) (t : Trace) (manager : Manager) (publisher : Publisher) (accepted : List AppMessage)
      (ret n d c : ℕ)
      → manager_is_valid manager ≡ true
      → manager.active_endpoints ≡ 1
      → With publisher t (n + 1 + 1) (d + once (manager.fd == descriptor)) c
      → (ret ≢ 0) ⊎ IsComplete accepted
      → Leaves (unpublish_with os t manager publisher accepted ret) n d c
  unpublish_with-Leaves os t manager publisher accepted ret n d c valid one h why =
      let (code, fd, endpoints, h') =
        unpublish_lem descriptor key os t manager publisher (n + 1)
          (d + once (manager.fd == descriptor)) c (omega arith) h in
      close_with-Leaves os _ _ accepted _ n d c (ground (arith, fd, valid)) (omega arith)
        (subst
          (λ x.
            Holds descriptor key (unpublish os t manager publisher).2 (n + 1)
              (d + once (x == descriptor)) c)
          (sym fd) h')
        (kept_code (unpublish os t manager publisher).0 4 ret (IsComplete accepted)
          (λ e. omega arith) why)

  finish-Leaves :
      (os : Os) (t : Trace) (manager : Manager) (publisher : Publisher) (n d c : ℕ)
      → manager_is_valid manager ≡ true
      → manager.active_endpoints ≡ 1
      → With publisher t (n + 1 + 1) (d + once (manager.fd == descriptor)) c
      → Leaves (finish os manager (receive_replies os t publisher)) n d c
  finish-Leaves os t manager publisher n d c valid one h =
      let replied = receive_replies os t publisher in
      let h' : With replied.publisher replied.trace (n + 1 + 1)
          (d + once (manager.fd == descriptor)) c =
        receive_rounds-Holds enough_rounds os t publisher _ 0 [] (n + 1 + 1)
          (d + once (manager.fd == descriptor)) c h in
      let leaves = λ (ret : ℕ) (why : (ret ≢ 0) ⊎ IsComplete replied.accepted).
        unpublish_with-Leaves os replied.trace manager replied.publisher replied.accepted ret n d c
          valid one h' why in
      elim (receive_replies-Receives os t publisher).1 [
        | inl waits ↦ absurd (receive_replies_terminates os t publisher waits)
        | inr (inl failed_wait) ↦ rw (failed_wait) (leaves 3 (inl (λ e. omega arith)))
        | inr (inr (passed, complete)) ↦ rw passed (leaves 0 (inr complete))
      ]

  -- The publisher's program ends, for every command line and whatever the system answers, and holds the memory
  -- that it held before; every descriptor, by its number, has been closed as often as opened, and every channel, by
  -- its key, given back as often as got, but for those that the system was asked to take back and refused. If its exit code is 0, the acknowledgements 1 to 5 and the
  -- data messages 1 to 3 have been accepted, each kind in its order, and nothing else. The system hands out
  -- descriptors that an `int` holds.
  pub publish_main-Leaves :
      (os : Os) (t : Trace) (argc channel_key argv_size : ℕ) (payload : List ℕ) (n d c : ℕ)
      → AreDescriptors os
      → Holds descriptor key t n d c
      → Leaves (publish_main os t argc channel_key argv_size payload) n d c
  unfolding publish_main
  publish_main-Leaves os t argc channel_key argv_size payload n d c descriptors h =
      let channel_size = if argc == 3 then argv_size else default_channel_size in
      elim (Bool-cases (ltb argc 2 || ltb 3 argc)) [
        | inl usage ↦ rw usage (1, refl, h, inl (λ e. omega arith))
        | inr good ↦ elim (open_manager_lem descriptor key os t n d c h) [
          | inl (e, bad, h1) ↦ rw (good, bad) (1, refl, h1, inl (λ e. omega arith))
          | inr (manager, opens, unused, h1) ↦
              let valid = opened_valid os t manager descriptors opens in
              let t1 = (open_manager os t).1 in
              let (published, manager', t2) = publish os t1 manager channel_key channel_size in
              elim (publish_lem descriptor key os t1 manager channel_key channel_size (n + 1)
                (d + once (manager.fd == descriptor)) c h1) [
                  | inl (e, bad, same, h2) ↦
                      rw (good, opens, bad)
                        (close_with-Leaves os t2 manager' [] 2 n d c (rw same valid)
                          (rw same unused) (rw same h2) (inl (λ e. omega arith)))
                  | inr (publisher, good_channel, fd, one, h2) ↦
                      let (sent, publisher', t3) = send_requests os t2 publisher payload in
                      let h3 =
                        send_requests-Holds request_lengths 0 os t2 publisher payload (n + 1 + 1)
                          (d + once (manager.fd == descriptor)) c h2 in
                      let valid' : manager_is_valid manager' ≡ true = ground (arith, fd, valid) in
                      let h3' =
                        subst (λ x. With publisher' t3 (n + 1 + 1) (d + once (x == descriptor)) c)
                          (sym fd) h3 in
                      let counted : manager'.active_endpoints ≡ 1 = omega (arith, one, unused) in
                      elim (Bool-cases sent) [
                        | inr lost ↦
                            rw (good, opens, good_channel, lost)
                              (unpublish_with-Leaves os t3 manager' publisher' [] 3 n d c valid'
                                counted h3' (inl (λ e. omega arith)))
                        | inl all ↦
                            rw (good, opens, good_channel, all)
                              (finish-Leaves os t3 manager' publisher' n d c valid' counted h3')
                      ]
                ]
        ]
      ]
