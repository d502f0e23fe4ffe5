-- ===== src/Demo/Publish.antt =====
-- demo/publish.c over the user library and the application messages. The log lines of accepted replies are
-- kept; other prints, and the sleeps, are left out. The stack buffers are a parameter. A buffer that a
-- read has filled is cut to the bytes that it read, behind which nothing is looked at.
use axvisor_tools.Common.{
  ℕ, zero, suc, ◌+◌, ◌-◌, Bool, true, false, ◌&&◌, ◌||◌, not, Option, none, some, List, [], ◌∷◌,
  ◌++◌, ltb, ◌==◌, if◌then◌else◌, length, get_or, done, failed,
}
use axvisor_tools.AppProto.Defs.{
  AppMessage, max_message_len, request_count, data_count, request_lengths, data_lengths,
  kind_request, kind_ack, kind_data, encode_pattern, decode, validate_pattern,
}
use axvisor_tools.AppProto.Ack.{ack_body_is_valid}
use axvisor_tools.Ulib.Defs.{Trace, Os}
use axvisor_tools.Ulib.Publisher.{Publisher, send, recv}

abbrev pub default_channel_size : ℕ
default_channel_size = 0x10000

abbrev pub max_empty_polls : ℕ
max_empty_polls = 3000

-- The loop of `send_requests`, with the lengths that are left.
unfoldable pub send_requests_from :
    List ℕ → ℕ → Os → Trace → Publisher → List ℕ → Bool × Publisher × Trace
send_requests_from [] index os t publisher payload = (true, publisher, t)
send_requests_from (message_len ∷ lengths) index os t publisher payload =
    let sequence = index + 1 in
    let (encoded, payload') = encode_pattern payload message_len kind_request sequence in
    let (sent, publisher', t') = send os t publisher payload' message_len in
    let more = send_requests_from lengths (index + 1) os t' publisher' payload' in
    if not encoded then (false, publisher, t) else elim sent [
      | failed e ↦ (false, publisher', t')
      | done n ↦ if not (n == message_len) then (false, publisher', t') else more
    ]

abbrev pub send_requests : Os → Trace → Publisher → List ℕ → Bool × Publisher × Trace
send_requests os t publisher payload = send_requests_from request_lengths 0 os t publisher payload

-- The two counters of `receive_replies`.
pub record Replies : Type 0 where
  pub expected_ack_sequence : ℕ
  pub expected_data_sequence : ℕ

-- The `case IVC_APP_MESSAGE_ACK`; `none` where the function returns -1.
unfoldable pub handle_ack : Replies → AppMessage → Option Replies
handle_ack r message =
    if not (message.sequence == r.expected_ack_sequence)
      || not (ack_body_is_valid message.body message.body_len)
    then none
    else if r.expected_ack_sequence == request_count
        && not (r.expected_data_sequence == data_count + 1)
    then none
    else some (record r { expected_ack_sequence = r.expected_ack_sequence + 1 })

-- The `case IVC_APP_MESSAGE_DATA`.
unfoldable pub handle_data : Replies → AppMessage → Option Replies
handle_data r message =
    if ltb data_count r.expected_data_sequence
    then none
    else let expected_len = get_or data_lengths (r.expected_data_sequence - 1) 0 in
      if not (validate_pattern message kind_data r.expected_data_sequence expected_len)
      then none
      else some (record r { expected_data_sequence = r.expected_data_sequence + 1 })

-- The `switch`.
unfoldable pub handle_reply : Replies → AppMessage → Option Replies
handle_reply r message =
    if message.kind == kind_ack
    then handle_ack r message
    else if message.kind == kind_data
    then handle_data r message
    else none

-- What `receive_replies` leaves: whether it returned 0, if it has returned; and what it accepted.
pub record Replied : Type 0 where
  pub passed : Option Bool
  pub publisher : Publisher
  pub trace : Trace
  pub accepted : List AppMessage

-- A return of -1.
abbrev pub stop_receiving : Publisher → Trace → List AppMessage → Replied
stop_receiving publisher t accepted = record {
  passed = some false;
  publisher = publisher;
  trace = t;
  accepted = accepted;
}

-- The loop of `receive_replies`, with the rounds that are left.
unfoldable pub receive_rounds : ℕ → Os → Trace → Publisher → Replies → ℕ → List AppMessage → Replied
receive_rounds zero os t publisher r empty_polls accepted = record {
  passed = none;
  publisher = publisher;
  trace = t;
  accepted = accepted;
}
receive_rounds (suc rounds) os t publisher r empty_polls accepted =
    let (answer, publisher', t') = recv os t publisher max_message_len in
    let again = receive_rounds rounds os t' publisher' r (empty_polls + 1) accepted in
    if ltb request_count r.expected_ack_sequence
    then record { passed = some true; publisher = publisher; trace = t; accepted = accepted }
    else elim answer [
      | failed e ↦ stop_receiving publisher' t' accepted
      | done bytes ↦
          if length bytes == 0
          then if ltb max_empty_polls (empty_polls + 1)
            then stop_receiving publisher' t' accepted
            else again
          else elim (decode bytes (length bytes)) [
            | none ↦ stop_receiving publisher' t' accepted
            | some message ↦ elim (handle_reply r message) [
              | none ↦ stop_receiving publisher' t' accepted
              | some r' ↦ receive_rounds rounds os t' publisher' r' 0 (accepted ++ (message ∷ []))
            ]
          ]
    ]

-- Each of the eight replies is waited for with at most 3001 reads.
abbrev pub enough_rounds : ℕ
enough_rounds = 27010

abbrev pub receive_replies : Os → Trace → Publisher → Replied
receive_replies os t publisher =
    receive_rounds enough_rounds os t publisher
      (record { expected_ack_sequence = 1; expected_data_sequence = 1 }) 0 []
