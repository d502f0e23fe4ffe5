-- ===== src/Demo/Subscribe.antt =====
-- demo/subscribe.c over the user library and the application messages. The numbers of the
-- acknowledgements in the log are kept; other prints, and the sleeps, are left out. The stack buffers are
-- a parameter; one that a read has filled is cut to the bytes that it read.
use axvisor_tools.Common.{
  ℕ, zero, suc, ◌+◌, Bool, true, false, ◌&&◌, not, Option, none, some, List, [], ◌∷◌, ◌++◌, ltb,
  ◌==◌, if◌then◌else◌, length, get_or, done, failed,
}
use axvisor_tools.AppProto.Defs.{
  AppMessage, max_message_len, app_header_len, request_count, request_lengths, data_lengths,
  kind_request, kind_ack, kind_data, encode_pattern, encode_text, decode, validate_pattern,
}
use axvisor_tools.AppProto.Ack.{linux_ack}
use axvisor_tools.Ulib.Defs.{Trace, Os, Manager, open_manager, close_manager}
use axvisor_tools.Ulib.Subscriber.{Subscriber, subscribe, unsubscribe, send, recv}
use axvisor_tools.Demo.Publish.{max_empty_polls}
use axvisor_tools.Demo.Main.{or_else}

-- `ACK_BODY` without its last byte, which is 0.
abbrev pub ack_body : List ℕ
ack_body = linux_ack

-- The loop of `send_data_messages`, with the lengths that are left.
unfoldable pub send_data_from :
    List ℕ → ℕ → Os → Trace → Subscriber → List ℕ → Bool × Subscriber × Trace
send_data_from [] index os t subscriber payload = (true, subscriber, t)
send_data_from (message_len ∷ lengths) index os t subscriber payload =
    let sequence = index + 1 in
    let (encoded, payload') = encode_pattern payload message_len kind_data sequence in
    let (sent, subscriber', t') = send os t subscriber payload' message_len in
    let more = send_data_from lengths (index + 1) os t' subscriber' payload' in
    if not encoded then (false, subscriber, t) else elim sent [
      | failed e ↦ (false, subscriber', t')
      | done n ↦ if not (n == message_len) then (false, subscriber', t') else more
    ]

abbrev pub send_data_messages : Os → Trace → Subscriber → List ℕ → Bool × Subscriber × Trace
send_data_messages os t subscriber payload = send_data_from data_lengths 0 os t subscriber payload

unfoldable pub send_ack : Os → Trace → Subscriber → List ℕ → ℕ → Bool × Subscriber × Trace
send_ack os t subscriber payload sequence =
    let (message_len, payload') =
      encode_text payload (app_header_len + length ack_body) kind_ack sequence ack_body
        (length ack_body) in
    elim message_len [
      | none ↦ (false, subscriber, t)
      | some len ↦
          let (sent, subscriber', t') = send os t subscriber payload' len in
          elim sent [ failed e ↦ (false, subscriber', t') | done n ↦ (n == len, subscriber', t') ]
    ]

-- What `receive_requests` leaves: whether it returned 0, if it has returned; and the requests it
-- acknowledged.
pub record Requested : Type 0 where
  pub passed : Option Bool
  pub subscriber : Subscriber
  pub trace : Trace
  pub acknowledged : List AppMessage

-- A return of -1.
abbrev pub stop_requests : Subscriber → Trace → List AppMessage → Requested
stop_requests subscriber t acknowledged = record {
  passed = some false;
  subscriber = subscriber;
  trace = t;
  acknowledged = acknowledged;
}

-- The loop of `receive_requests`, with the rounds that are left; `stack` is the buffer of `send_ack`.
unfoldable pub request_rounds :
    ℕ → Os → Trace → Subscriber → List ℕ → ℕ → ℕ → List AppMessage → Requested
request_rounds zero os t subscriber stack received empty_polls acknowledged = record {
  passed = none;
  subscriber = subscriber;
  trace = t;
  acknowledged = acknowledged;
}
request_rounds (suc rounds) os t subscriber stack received empty_polls acknowledged =
    let expected_sequence = received + 1 in
    let expected_len = get_or request_lengths received 0 in
    let (answer, subscriber', t') = recv os t subscriber max_message_len in
    let again =
      request_rounds rounds os t' subscriber' stack received (empty_polls + 1) acknowledged in
    if not (ltb received request_count)
    then record {
      passed = some true;
      subscriber = subscriber;
      trace = t;
      acknowledged = acknowledged;
    }
    else elim answer [
      | failed e ↦ stop_requests subscriber' t' acknowledged
      | done bytes ↦
          if length bytes == 0
          then if ltb max_empty_polls (empty_polls + 1)
            then stop_requests subscriber' t' acknowledged
            else again
          else elim (decode bytes (length bytes)) [
            | none ↦ stop_requests subscriber' t' acknowledged
            | some message ↦
                let (acked, subscriber'', t'') =
                  send_ack os t' subscriber' stack message.sequence in
                let more =
                  request_rounds rounds os t'' subscriber'' stack (received + 1) 0
                    (acknowledged ++ (message ∷ [])) in
                if not (validate_pattern message kind_request expected_sequence expected_len)
                then stop_requests subscriber' t' acknowledged
                else if not acked
                then stop_requests subscriber'' t'' acknowledged
                else more
          ]
    ]

-- Each of the five requests is waited for with at most 3001 reads.
abbrev pub enough_request_rounds : ℕ
enough_request_rounds = 18010

abbrev pub receive_requests : Os → Trace → Subscriber → List ℕ → Requested
receive_requests os t subscriber stack =
    request_rounds enough_request_rounds os t subscriber stack 0 0 []

-- The exit code, if the program has ended; the calls of the system; and the requests acknowledged.
pub record SubscribeExit : Type 0 where
  pub ret : Option ℕ
  pub trace : Trace
  pub acknowledged : List AppMessage

-- From the label `close_manager` on.
abbrev pub leave_with : Os → Trace → Manager → List AppMessage → ℕ → SubscribeExit
leave_with os t manager acknowledged ret =
    let (code, t') = close_manager os t manager in
    record { ret = some (or_else code 5 ret); trace = t'; acknowledged = acknowledged }

-- From the call of `ivc_unsubscribe` on.
abbrev pub unsubscribe_with :
    Os → Trace → Manager → Subscriber → List AppMessage → ℕ → SubscribeExit
unsubscribe_with os t manager subscriber acknowledged ret =
    let (code, manager', t') = unsubscribe os t manager subscriber in
    leave_with os t' manager' acknowledged (or_else code 4 ret)

abbrev pub finish_requests : Os → Manager → Requested → SubscribeExit
finish_requests os manager r = elim r.passed [
  | none ↦ record { ret = none; trace = r.trace; acknowledged = r.acknowledged }
  | some ok ↦ unsubscribe_with os r.trace manager r.subscriber r.acknowledged (if ok then 0 else 3)
]

-- `main`. The command line is parsed already; `argv_count` stands only where argc is 4. `payload` and
-- `stack` are the buffers of `send_data_messages` and `send_ack`.
unfoldable pub subscribe_main : Os → Trace → ℕ → ℕ → ℕ → ℕ → List ℕ → List ℕ → SubscribeExit
subscribe_main os t argc target_publisher_id channel_key argv_count payload stack =
    let target_count = if argc == 4 then argv_count else request_count in
    if not (argc == 3) && not (argc == 4)
    then record { ret = some 1; trace = t; acknowledged = [] }
    else if not (target_count == request_count)
    then record { ret = some 1; trace = t; acknowledged = [] }
    else let (manager, t1) = open_manager os t in
      elim manager [
        | failed e ↦ record { ret = some 1; trace = t1; acknowledged = [] }
        | done manager ↦
            let (subscriber, manager', t2) =
              subscribe os t1 manager target_publisher_id channel_key in
            elim subscriber [
              | failed e ↦ leave_with os t2 manager' [] 2
              | done subscriber ↦
                  let (sent, subscriber', t3) = send_data_messages os t2 subscriber payload in
                  if not sent
                  then unsubscribe_with os t3 manager' subscriber' [] 3
                  else finish_requests os manager' (receive_requests os t3 subscriber' stack)
            ]
      ]
