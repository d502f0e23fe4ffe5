-- ===== src/Demo/Replies.antt =====
-- demo/publish.c: the replies that the publisher accepts, and that it stops waiting for them.
use axvisor_tools.Common.{
  ℕ, zero, suc, ◌+◌, ◌-◌, ◌*◌, ◌≤◌, ◌<◌, ◌≡◌, ◌≢◌, ◌⊎◌, inl, inr, refl, ◌∙◌, ap, arith, true, false,
  none, some, Option-cases, Bool-cases, Result-cases, List, [], ◌∷◌, ◌++◌, ltb, ◌==◌, length, All,
}
use axvisor_tools.AppProto.Defs.{
  AppMessage, max_message_len, request_count, data_count, kind_ack, kind_data, decode,
}
use axvisor_tools.Ulib.Defs.{Trace, Os}
use axvisor_tools.Ulib.Publisher.{Publisher, recv}
use axvisor_tools.Demo.Publish.{
  max_empty_polls, Replies, handle_ack, handle_data, handle_reply, Replied, receive_rounds,
  receive_replies, enough_rounds,
}
use axvisor_tools.Demo.Accepted.{sequences, up_to, IsReply, Accepted, handle_reply-Accepted}

-- All is there when the loop returns 0.
abbrev pub IsComplete : List AppMessage → Type 0
IsComplete accepted =
    (sequences kind_ack accepted ≡ 1 ∷ 2 ∷ 3 ∷ 4 ∷ 5 ∷ [])
    × (sequences kind_data accepted ≡ 1 ∷ 2 ∷ 3 ∷ [])
    × All IsReply accepted

-- Acknowledgements 1 to `acks` and data messages 1 to `data_messages`, and nothing else.
abbrev pub IsInOrder : List AppMessage → Type 0
IsInOrder accepted =
    (acks : ℕ) × (data_messages : ℕ) × (acks ≤ request_count)
    × (data_messages ≤ data_count)
    × (sequences kind_ack accepted ≡ up_to acks)
    × (sequences kind_data accepted ≡ up_to data_messages)
    × All IsReply accepted

in_order : (r : Replies) (accepted : List AppMessage) → Accepted r accepted → IsInOrder accepted
in_order r accepted a = (
  a.acks,
  a.data_messages,
  ground (arith, a.in_time),
  a.data_bound,
  a.ack_sequences,
  a.data_sequences,
  a.replies,
)

-- What has been accepted, on every return and while the loop runs, and what a return of 0 says.
abbrev pub Receives : Replied → Type 0
Receives replied =
    IsInOrder replied.accepted
    × ((replied.passed ≡ none)
        ⊎ ((replied.passed ≡ some false)
            ⊎ ((replied.passed ≡ some true) × IsComplete replied.accepted)))

receive_rounds-Receives :
    (rounds : ℕ) (os : Os) (t : Trace) (publisher : Publisher) (r : Replies) (empty_polls : ℕ)
    (accepted : List AppMessage)
    → Accepted r accepted
    → Receives (receive_rounds rounds os t publisher r empty_polls accepted)
unfolding receive_rounds
receive_rounds-Receives zero os t publisher r empty_polls accepted a =
    (in_order r accepted a, inl refl)
receive_rounds-Receives (suc rounds) os t publisher r empty_polls accepted a =
    let (answer, publisher', t') = recv os t publisher max_message_len in
    elim (Bool-cases (ltb request_count r.expected_ack_sequence)) [
      | inl over ↦
          let all : (a.acks ≡ 5) × (a.data_messages ≡ 3) =
            ground (arith, over, a.ack_counter, a.in_time) in
          rw (receive_rounds, over)
            (
              in_order r accepted a,
              inr (
                  inr (
                    refl,
                    (
                      a.ack_sequences ∙ ap up_to (all.0),
                      a.data_sequences ∙ ap up_to (all.1),
                      a.replies,
                    ),
                  )),
            )
      | inr open_still ↦ elim (Result-cases answer) [
        | inl (e, bad) ↦
            rw (receive_rounds, open_still, bad) (in_order r accepted a, inr (inl refl))
        | inr (bytes, good) ↦ elim (Bool-cases (length bytes == 0)) [
          | inl empty ↦ elim (Bool-cases (ltb max_empty_polls (empty_polls + 1))) [
            | inl late ↦
                rw (receive_rounds, open_still, good, empty, late)
                  (in_order r accepted a, inr (inl refl))
            | inr early ↦
                rw (receive_rounds, open_still, good, empty, early)
                  (receive_rounds-Receives rounds os t' publisher' r (empty_polls + 1) accepted a)
          ]
          | inr some_bytes ↦ elim (Option-cases (decode bytes (length bytes))) [
            | inl malformed ↦
                rw (receive_rounds, open_still, good, some_bytes, malformed)
                  (in_order r accepted a, inr (inl refl))
            | inr (message, decoded) ↦ elim (Option-cases (handle_reply r message)) [
              | inl refused ↦
                  rw (receive_rounds, open_still, good, some_bytes, decoded, refused)
                    (in_order r accepted a, inr (inl refl))
              | inr (r', handled) ↦
                  rw (receive_rounds, open_still, good, some_bytes, decoded, handled)
                    (receive_rounds-Receives rounds os t' publisher' r' 0
                      (accepted ++ (message ∷ []))
                      (handle_reply-Accepted r r' accepted message (ground (arith, open_still))
                        handled a))
            ]
          ]
        ]
      ]
    ]

-- Whatever the system answers, and however the wait for replies ends: what the publisher's program has
-- accepted are acknowledgements 1, 2, … up to at most 5 and data messages 1, 2, … up to at most 3, each kind in
-- its order, every acknowledgement with one of the two texts, every data message with the pattern and the
-- length of its number, and nothing else. If the wait ends with success, all five and all three are there.
pub receive_replies-Receives :
    (os : Os) (t : Trace) (publisher : Publisher) → Receives (receive_replies os t publisher)
receive_replies-Receives os t publisher =
    receive_rounds-Receives enough_rounds os t publisher _ 0 [] (record {
      acks = 0;
      data_messages = 0;
      ack_counter = refl;
      data_counter = refl;
      in_time = inl (omega arith);
      data_bound = omega arith;
      ack_sequences = refl;
      data_sequences = refl;
      replies = tt;
    })

-- The replies that are still missing.
abbrev missing : Replies → ℕ
missing r = (6 - r.expected_ack_sequence) + (4 - r.expected_data_sequence)

handle_reply-missing :
    (r r' : Replies) (message : AppMessage)
    → r.expected_ack_sequence ≤ request_count
    → handle_reply r message ≡ some r'
    → missing r' + 1 ≡ missing r
unfolding handle_reply handle_ack handle_data
handle_reply-missing r r' message open_still h = ground arith

receive_rounds_terminates :
    (rounds : ℕ) (os : Os) (t : Trace) (publisher : Publisher) (r : Replies) (empty_polls : ℕ)
    (accepted : List AppMessage)
    → empty_polls ≤ max_empty_polls
    → missing r * 3001 + (max_empty_polls - empty_polls) < rounds
    → (receive_rounds rounds os t publisher r empty_polls accepted).passed ≢ none
unfolding receive_rounds
receive_rounds_terminates zero os t publisher r empty_polls accepted few enough =
    absurd (omega arith)
receive_rounds_terminates (suc rounds) os t publisher r empty_polls accepted few enough =
    let (answer, publisher', t') = recv os t publisher max_message_len in
    elim (Bool-cases (ltb request_count r.expected_ack_sequence)) [
      | inl over ↦ rw (receive_rounds, over) (λ e. cc e)
      | inr open_still ↦ elim (Result-cases answer) [
        | inl (e, bad) ↦ rw (receive_rounds, open_still, bad) (λ e. cc e)
        | inr (bytes, good) ↦ elim (Bool-cases (length bytes == 0)) [
          | inl empty ↦ elim (Bool-cases (ltb max_empty_polls (empty_polls + 1))) [
            | inl late ↦ rw (receive_rounds, open_still, good, empty, late) (λ e. cc e)
            | inr early ↦
                rw (receive_rounds, open_still, good, empty, early)
                  (receive_rounds_terminates rounds os t' publisher' r (empty_polls + 1) accepted
                    (ground (arith, early)) (ground (arith, early, enough)))
          ]
          | inr some_bytes ↦ elim (Option-cases (decode bytes (length bytes))) [
            | inl malformed ↦
                rw (receive_rounds, open_still, good, some_bytes, malformed) (λ e. cc e)
            | inr (message, decoded) ↦ elim (Option-cases (handle_reply r message)) [
              | inl refused ↦
                  rw (receive_rounds, open_still, good, some_bytes, decoded, refused) (λ e. cc e)
              | inr (r', handled) ↦
                  let fewer =
                    handle_reply-missing r r' message (ground (arith, open_still)) handled in
                  rw (receive_rounds, open_still, good, some_bytes, decoded, handled)
                    (receive_rounds_terminates rounds os t' publisher' r' 0
                      (accepted ++ (message ∷ [])) (omega arith) (omega (arith, fewer, enough)))
            ]
          ]
        ]
      ]
    ]

-- The publisher's program never waits for replies for ever: at most eight are accepted, and each is waited
-- for with at most 3001 reads, so the rounds of the model are enough, whatever the system answers.
pub receive_replies_terminates :
    (os : Os) (t : Trace) (publisher : Publisher) → (receive_replies os t publisher).passed ≢ none
receive_replies_terminates os t publisher =
    receive_rounds_terminates enough_rounds os t publisher
      (record { expected_ack_sequence = 1; expected_data_sequence = 1 }) 0 [] (omega arith)
      (omega arith)
