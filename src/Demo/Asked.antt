-- ===== src/Demo/Asked.antt =====
-- demo/subscribe.c: what the subscriber's program holds while it answers the requests.
use axvisor_tools.Common.{
  ℕ, zero, suc, ◌+◌, inl, inr, arith, Option-cases, Bool-cases, Result-cases, List, [], ◌∷◌, ◌++◌,
  ltb, ◌==◌, length, get_or,
}
use axvisor_tools.AppProto.Defs.{
  AppMessage, max_message_len, app_header_len, request_count, request_lengths, kind_request,
  kind_ack, kind_data, encode_pattern, encode_text, decode, validate_pattern,
}
use axvisor_tools.Ulib.Defs.{Trace, Os}
use axvisor_tools.Ulib.Subscriber.{Subscriber, send, recv}
use axvisor_tools.Ulib.Balance.{HoldsWith}
use axvisor_tools.Demo.Publish.{max_empty_polls}
use axvisor_tools.Demo.Subscribe.{ack_body, send_data_from, send_ack, request_rounds}

module _ (descriptor key : ℕ) where
  -- What is held with an endpoint.
  abbrev pub With : Subscriber → Trace → ℕ → ℕ → ℕ → Type 0
  With subscriber = HoldsWith descriptor key subscriber.fd subscriber.channel_arg.channel_key

  pub send-Holds :
      (os : Os) (t : Trace) (subscriber : Subscriber) (buf : List ℕ) (size n d c : ℕ)
      → With subscriber t n d c
      → With (send os t subscriber buf size).1 (send os t subscriber buf size).2 n d c
  unfolding send
  send-Holds os t subscriber buf size n d c h = ground arith

  pub recv-Holds :
      (os : Os) (t : Trace) (subscriber : Subscriber) (size n d c : ℕ)
      → With subscriber t n d c
      → With (recv os t subscriber size).1 (recv os t subscriber size).2 n d c
  unfolding recv
  recv-Holds os t subscriber size n d c h = ground arith

  pub send_data-Holds :
      (lengths : List ℕ) (index : ℕ) (os : Os) (t : Trace) (subscriber : Subscriber)
      (payload : List ℕ) (n d c : ℕ)
      → With subscriber t n d c
      → With
          (send_data_from lengths index os t subscriber payload).1
          (send_data_from lengths index os t subscriber payload).2
          n
          d
          c
  unfolding send_data_from
  send_data-Holds [] index os t subscriber payload n d c h = h
  send_data-Holds (message_len ∷ lengths) index os t subscriber payload n d c h =
      let (encoded, payload') = encode_pattern payload message_len kind_data (index + 1) in
      let (sent, subscriber', t') = send os t subscriber payload' message_len in
      let h' = send-Holds os t subscriber payload' message_len n d c h in
      let more = send_data-Holds lengths (index + 1) os t' subscriber' payload' n d c h' in
      elim (Bool-cases encoded) [
        | inr refused ↦ rw (send_data_from, refused) h
        | inl good ↦ elim (Result-cases sent) [
          | inl (e, bad) ↦ rw (send_data_from, good, bad) h'
          | inr (k, all) ↦ elim (Bool-cases (k == message_len)) [
            | inl same ↦ rw (send_data_from, good, all, same) more
            | inr short ↦ rw (send_data_from, good, all, short) h'
          ]
        ]
      ]

  pub send_ack-Holds :
      (os : Os) (t : Trace) (subscriber : Subscriber) (payload : List ℕ) (sequence n d c : ℕ)
      → With subscriber t n d c
      → With
          (send_ack os t subscriber payload sequence).1
          (send_ack os t subscriber payload sequence).2
          n
          d
          c
  unfolding send_ack
  send_ack-Holds os t subscriber payload sequence n d c h =
      let (message_len, payload') =
        encode_text payload (app_header_len + length ack_body) kind_ack sequence ack_body
          (length ack_body) in
      elim (Option-cases message_len) [
        | inl refused ↦ rw (send_ack, refused) h
        | inr (len, encoded) ↦
            let h' = send-Holds os t subscriber payload' len n d c h in
            elim (Result-cases (send os t subscriber payload' len).0) [
              | inl (e, bad) ↦ rw (send_ack, encoded, bad) h'
              | inr (k, good) ↦ rw (send_ack, encoded, good) h'
            ]
      ]

  pub request_rounds-Holds :
      (rounds : ℕ) (os : Os) (t : Trace) (subscriber : Subscriber) (stack : List ℕ)
      (received empty_polls : ℕ) (acknowledged : List AppMessage) (n d c : ℕ)
      → With subscriber t n d c
      → With
          (request_rounds rounds os t subscriber stack received empty_polls acknowledged).subscriber
          (request_rounds rounds os t subscriber stack received empty_polls acknowledged).trace
          n
          d
          c
  unfolding request_rounds
  request_rounds-Holds zero os t subscriber stack received empty_polls acknowledged n d c h = h
  request_rounds-Holds (suc rounds) os t subscriber stack received empty_polls acknowledged n d c
        h =
      let (answer, subscriber', t') = recv os t subscriber max_message_len in
      let h' = recv-Holds os t subscriber max_message_len n d c h in
      elim (Bool-cases (ltb received request_count)) [
        | inr over ↦ rw (request_rounds, over) h
        | inl open_still ↦ elim (Result-cases answer) [
          | inl (e, bad) ↦ rw (request_rounds, open_still, bad) h'
          | inr (bytes, good) ↦ elim (Bool-cases (length bytes == 0)) [
            | inl empty ↦ elim (Bool-cases (ltb max_empty_polls (empty_polls + 1))) [
              | inl late ↦ rw (request_rounds, open_still, good, empty, late) h'
              | inr early ↦
                  rw (request_rounds, open_still, good, empty, early)
                    (request_rounds-Holds rounds os t' subscriber' stack received (empty_polls + 1)
                      acknowledged n d c h')
            ]
            | inr some_bytes ↦ elim (Option-cases (decode bytes (length bytes))) [
              | inl malformed ↦ rw (request_rounds, open_still, good, some_bytes, malformed) h'
              | inr (message, decoded) ↦
                  let (acked, subscriber'', t'') =
                    send_ack os t' subscriber' stack message.sequence in
                  let h'' = send_ack-Holds os t' subscriber' stack message.sequence n d c h' in
                  elim (Bool-cases (
                    validate_pattern message kind_request (received + 1)
                      (get_or request_lengths received 0))) [
                        | inr refused ↦
                            rw (request_rounds, open_still, good, some_bytes, decoded, refused) h'
                        | inl valid ↦ elim (Bool-cases acked) [
                          | inr lost ↦
                              rw
                                (request_rounds, open_still, good, some_bytes, decoded, valid, lost)
                                h''
                          | inl sent ↦
                              rw
                                (request_rounds, open_still, good, some_bytes, decoded, valid, sent)
                                (request_rounds-Holds rounds os t'' subscriber'' stack
                                  (received + 1) 0 (acknowledged ++ (message ∷ [])) n d c h'')
                        ]
                      ]
            ]
          ]
        ]
      ]
