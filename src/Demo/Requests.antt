-- ===== src/Demo/Requests.antt =====
-- demo/subscribe.c: the requests that the subscriber acknowledges, and that it stops waiting for them.
use axvisor_tools.Common.{
  All-append, ℕ, zero, suc, ◌+◌, ◌-◌, ◌*◌, ◌≤◌, ◌<◌, ◌≡◌, ◌≢◌, ◌⊎◌, inl, inr, refl, sym, ◌∙◌, ap,
  ap₂, subst, arith, true, false, none, some, Option-cases, Bool-cases, Result-cases, List, [], ◌∷◌,
  ◌++◌, ltb, ◌==◌, length, get_or, All,
}
use axvisor_tools.AppProto.Defs.{
  AppMessage, max_message_len, request_count, request_lengths, kind_request, decode,
  validate_pattern,
}
use axvisor_tools.Ulib.Defs.{Trace, Os}
use axvisor_tools.Ulib.Subscriber.{Subscriber, recv}
use axvisor_tools.Demo.Publish.{max_empty_polls}
use axvisor_tools.Demo.Accepted.{sequences, sequences-same, up_to, validated}
use axvisor_tools.Demo.Subscribe.{
  send_ack, Requested, request_rounds, receive_requests, enough_request_rounds,
}

-- A request with the pattern and the length of its number.
abbrev pub IsRequest : AppMessage → Type 0
IsRequest message =
    (message.kind ≡ kind_request)
    × (validate_pattern message kind_request message.sequence
          (get_or request_lengths (message.sequence - 1) 0)
        ≡ true)

-- What has been acknowledged when the counter stands like this.
abbrev Acknowledged : ℕ → List AppMessage → Type 0
Acknowledged received acknowledged =
    (received ≤ request_count)
    × (sequences kind_request acknowledged ≡ up_to received)
    × All IsRequest acknowledged

abbrev pub Answers : Requested → Type 0
Answers r =
    (r.passed ≡ none)
    ⊎ ((r.passed ≡ some false)
        ⊎ ((r.passed ≡ some true)
            × (sequences kind_request r.acknowledged ≡ 1 ∷ 2 ∷ 3 ∷ 4 ∷ 5 ∷ [])
            × All IsRequest r.acknowledged))

pub kind_of :
    (message : AppMessage) (kind sequence expected_len : ℕ)
    → validate_pattern message kind sequence expected_len ≡ true
    → message.kind ≡ kind
unfolding validate_pattern
kind_of message kind sequence expected_len h = ground arith

next_up_to : (n : ℕ) → up_to (n + 1) ≡ up_to n ++ ((n + 1) ∷ [])
next_up_to n =
    let e : n + 1 ≡ suc n = omega arith in ap up_to e ∙ ap (λ m. up_to n ++ (m ∷ [])) (sym e)

next-Acknowledged :
    (received : ℕ) (acknowledged : List AppMessage) (message : AppMessage)
    → received < request_count
    → validate_pattern message kind_request (received + 1) (get_or request_lengths received 0)
      ≡ true
    → Acknowledged received acknowledged
    → Acknowledged (received + 1) (acknowledged ++ (message ∷ []))
next-Acknowledged received acknowledged message more h (bound, numbers, good) =
    let expected_len = get_or request_lengths received 0 in
    let kind = kind_of message kind_request (received + 1) expected_len h in
    let number = validated message kind_request (received + 1) expected_len h in
    let back : received ≡ received + 1 - 1 = omega arith in
    let valid =
      subst (λ n. validate_pattern message kind_request n (get_or request_lengths (n - 1) 0) ≡ true)
        (sym number)
        (subst
          (λ i.
            validate_pattern message kind_request (received + 1) (get_or request_lengths i 0)
            ≡ true)
          back h) in
    (
      omega arith,
      sequences-same kind_request acknowledged message kind
          ∙ ap₂ (λ s n. s ++ (n ∷ [])) numbers number
          ∙ sym (next_up_to received),
      All-append IsRequest acknowledged message good (kind, valid),
    )

request_rounds-Answers :
    (rounds : ℕ) (os : Os) (t : Trace) (subscriber : Subscriber) (stack : List ℕ)
    (received empty_polls : ℕ) (acknowledged : List AppMessage)
    → Acknowledged received acknowledged
    → Answers (request_rounds rounds os t subscriber stack received empty_polls acknowledged)
unfolding request_rounds
request_rounds-Answers zero os t subscriber stack received empty_polls acknowledged a = inl refl
request_rounds-Answers (suc rounds) os t subscriber stack received empty_polls acknowledged a =
    let (answer, subscriber', t') = recv os t subscriber max_message_len in
    elim (Bool-cases (ltb received request_count)) [
      | inr over ↦
          let all : received ≡ 5 = ground (arith, over, a.0) in
          rw (request_rounds, over) (inr (inr (refl, a.1 ∙ ap up_to all, a.2)))
      | inl open_still ↦ elim (Result-cases answer) [
        | inl (e, bad) ↦ rw (request_rounds, open_still, bad) (inr (inl refl))
        | inr (bytes, good) ↦ elim (Bool-cases (length bytes == 0)) [
          | inl empty ↦ elim (Bool-cases (ltb max_empty_polls (empty_polls + 1))) [
            | inl late ↦ rw (request_rounds, open_still, good, empty, late) (inr (inl refl))
            | inr early ↦
                rw (request_rounds, open_still, good, empty, early)
                  (request_rounds-Answers rounds os t' subscriber' stack received (empty_polls + 1)
                    acknowledged a)
          ]
          | inr some_bytes ↦ elim (Option-cases (decode bytes (length bytes))) [
            | inl malformed ↦
                rw (request_rounds, open_still, good, some_bytes, malformed) (inr (inl refl))
            | inr (message, decoded) ↦
                let (acked, subscriber'', t'') =
                  send_ack os t' subscriber' stack message.sequence in
                elim (Bool-cases (
                  validate_pattern message kind_request (received + 1)
                    (get_or request_lengths received 0))) [
                      | inr refused ↦
                          rw (request_rounds, open_still, good, some_bytes, decoded, refused)
                            (inr (inl refl))
                      | inl valid ↦ elim (Bool-cases acked) [
                        | inr lost ↦
                            rw (request_rounds, open_still, good, some_bytes, decoded, valid, lost)
                              (inr (inl refl))
                        | inl sent ↦
                            rw (request_rounds, open_still, good, some_bytes, decoded, valid, sent)
                              (request_rounds-Answers rounds os t'' subscriber'' stack
                                (received + 1) 0 (acknowledged ++ (message ∷ []))
                                (next-Acknowledged received acknowledged message
                                  (ground (arith, open_still)) valid a))
                      ]
                    ]
          ]
        ]
      ]
    ]

-- Whatever the system answers, if the subscriber's program ends its wait for requests with success, it has
-- acknowledged the requests 1 to 5 in their order, each with the pattern and the length of its number, and
-- nothing else.
pub receive_requests-Answers :
    (os : Os) (t : Trace) (subscriber : Subscriber) (stack : List ℕ)
    → Answers (receive_requests os t subscriber stack)
receive_requests-Answers os t subscriber stack =
    request_rounds-Answers enough_request_rounds os t subscriber stack 0 0 []
      (omega arith, refl, tt)

request_rounds_terminates :
    (rounds : ℕ) (os : Os) (t : Trace) (subscriber : Subscriber) (stack : List ℕ)
    (received empty_polls : ℕ) (acknowledged : List AppMessage)
    → empty_polls ≤ max_empty_polls
    → (request_count - received) * 3001 + (max_empty_polls - empty_polls) < rounds
    → (request_rounds rounds os t subscriber stack received empty_polls acknowledged).passed ≢ none
unfolding request_rounds
request_rounds_terminates zero os t subscriber stack received empty_polls acknowledged few enough =
    absurd (omega arith)
request_rounds_terminates (suc rounds) os t subscriber stack received empty_polls acknowledged few
      enough =
    let (answer, subscriber', t') = recv os t subscriber max_message_len in
    elim (Bool-cases (ltb received request_count)) [
      | inr over ↦ rw (request_rounds, over) (λ e. cc e)
      | inl open_still ↦ elim (Result-cases answer) [
        | inl (e, bad) ↦ rw (request_rounds, open_still, bad) (λ e. cc e)
        | inr (bytes, good) ↦ elim (Bool-cases (length bytes == 0)) [
          | inl empty ↦ elim (Bool-cases (ltb max_empty_polls (empty_polls + 1))) [
            | inl late ↦ rw (request_rounds, open_still, good, empty, late) (λ e. cc e)
            | inr early ↦
                rw (request_rounds, open_still, good, empty, early)
                  (request_rounds_terminates rounds os t' subscriber' stack received
                    (empty_polls + 1) acknowledged (ground (arith, early))
                    (ground (arith, early, enough)))
          ]
          | inr some_bytes ↦ elim (Option-cases (decode bytes (length bytes))) [
            | inl malformed ↦
                rw (request_rounds, open_still, good, some_bytes, malformed) (λ e. cc e)
            | inr (message, decoded) ↦
                let (acked, subscriber'', t'') =
                  send_ack os t' subscriber' stack message.sequence in
                elim (Bool-cases (
                  validate_pattern message kind_request (received + 1)
                    (get_or request_lengths received 0))) [
                      | inr refused ↦
                          rw (request_rounds, open_still, good, some_bytes, decoded, refused)
                            (λ e. cc e)
                      | inl valid ↦ elim (Bool-cases acked) [
                        | inr lost ↦
                            rw (request_rounds, open_still, good, some_bytes, decoded, valid, lost)
                              (λ e. cc e)
                        | inl sent ↦
                            rw (request_rounds, open_still, good, some_bytes, decoded, valid, sent)
                              (request_rounds_terminates rounds os t'' subscriber'' stack
                                (received + 1) 0 (acknowledged ++ (message ∷ [])) (omega arith)
                                (ground (arith, open_still, enough)))
                      ]
                    ]
          ]
        ]
      ]
    ]

-- The subscriber's program never waits for requests for ever, whatever the system answers: five are
-- accepted, and each is waited for with at most 3001 reads, so the rounds of the model are enough.
pub receive_requests_terminates :
    (os : Os) (t : Trace) (subscriber : Subscriber) (stack : List ℕ)
    → (receive_requests os t subscriber stack).passed ≢ none
receive_requests_terminates os t subscriber stack =
    request_rounds_terminates enough_request_rounds os t subscriber stack 0 0 [] (omega arith)
      (omega arith)
