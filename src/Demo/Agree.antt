-- ===== src/Demo/Agree.antt =====
-- demo/publish.c and demo/subscribe.c: what the subscriber's program sends is what the publisher's waits
-- for.
use axvisor_tools.Common.{
  ℕ, zero, suc, subst, ◌+◌, ◌-◌, ◌^◌, ◌≤◌, ◌<◌, ◌≡◌, ◌≢◌, ◌⊎◌, inl, inr, refl, Bool, false, ◌==◌,
  Result, done, failed, Result-cases, ◌∙◌, ap, sym, arith, true, some, List, length, length-take,
  get_or, take,
}
use axvisor_tools.AppProto.Defs.{
  AppMessage, app_header_len, max_message_len, request_count, data_count, data_lengths, kind_ack,
  kind_data, encode_text, encode_pattern, decode, validate_pattern,
}
use axvisor_tools.AppProto.Ack.{linux_ack, ack_body_is_valid, ack_body_is_valid_iff}
use axvisor_tools.AppProto.Text.{encode_text_lem}
use axvisor_tools.AppProto.Pattern.{encode_pattern_lem}
use axvisor_tools.Demo.Publish.{Replies, handle_reply, handle_ack, handle_data}
use axvisor_tools.Demo.Requests.{kind_of}
use axvisor_tools.Demo.Subscribe.{ack_body, send_ack}
use axvisor_tools.Ulib.Defs.{Trace, Os}
use axvisor_tools.Ulib.Subscriber.{Subscriber, send}

-- The frame that `send_ack` encodes.
encoded_ack :
    (stack : List ℕ) (r : Replies) (sequence : ℕ)
    → sequence < 2 ^ 64
    → app_header_len + length ack_body ≤ length stack
    → r.expected_ack_sequence ≡ sequence
    → (sequence ≢ request_count) ⊎ (r.expected_data_sequence ≡ data_count + 1)
    → let len = app_header_len + length ack_body in
      let (message_len, out) = encode_text stack len kind_ack sequence ack_body (length ack_body) in
      (message_len ≡ some len)
      × (message : AppMessage) × (decode out len ≡ some message)
      × (handle_reply r message ≡ some (record r { expected_ack_sequence = sequence + 1 }))
unfolding handle_reply handle_ack
encoded_ack stack r sequence small room due last =
    let len = app_header_len + length ack_body in
    elim (encode_text_lem stack len kind_ack sequence ack_body (length ack_body) small (omega arith)
      room) [
        | inl (bad, _) ↦ absurd (ground (arith, bad))
        | inr (inl (_, inl long, _)) ↦ absurd (ground (arith, long))
        | inr (inl (_, inr long, _)) ↦ absurd (ground (arith, long))
        | inr (inr (_, (written, _, message, decoded, kind, number, body_len, body))) ↦
            let text : take 25 message.body ≡ linux_ack = body in
            let stored : 25 ≤ length message.body =
              omega (arith, length-take {0} 25 message.body, ap length text) in
            let good : ack_body_is_valid message.body 25 ≡ true =
              (ack_body_is_valid_iff message.body 25 stored).1 (inr text) in
            let valid : ack_body_is_valid message.body message.body_len ≡ true =
              ap (λ n. ack_body_is_valid message.body n) body_len ∙ good in
            (written, message, decoded, ground (arith, kind, number, valid, due, last))
      ]

-- What `send_ack` does with an answer of the system to its write of `len` bytes.
abbrev pub answered : ℕ → Result ℕ × Subscriber × Trace → Bool × Subscriber × Trace
answered len (failed e, subscriber, t) = (false, subscriber, t)
answered len (done n, subscriber, t) = (n == len, subscriber, t)

-- `send_ack` with a buffer that is large enough sends one message of 36 bytes, the same on every system and for
-- every subscriber, and succeeds exactly if the system takes all of it. These bytes are decoded and
-- accepted by the publisher's program if the acknowledgement is the one that is due; the last one is, if
-- all data messages have come.
pub ack_is_accepted :
    (stack : List ℕ) (r : Replies) (sequence : ℕ)
    → sequence < 2 ^ 64
    → app_header_len + length ack_body ≤ length stack
    → r.expected_ack_sequence ≡ sequence
    → (sequence ≢ request_count) ⊎ (r.expected_data_sequence ≡ data_count + 1)
    → let len = app_header_len + length ack_body in
      (out : List ℕ) × (message : AppMessage) × ((os : Os) (t : Trace) (subscriber : Subscriber)
        → send_ack os t subscriber stack sequence ≡ answered len (send os t subscriber out len))
      × (decode out len ≡ some message)
      × (handle_reply r message ≡ some (record r { expected_ack_sequence = sequence + 1 }))
unfolding send_ack
ack_is_accepted stack r sequence small room due last =
    let len = app_header_len + length ack_body in
    let out = (encode_text stack len kind_ack sequence ack_body (length ack_body)).1 in
    let (written, message, decoded, accepted) = encoded_ack stack r sequence small room due last in
    (
      out,
      message,
      (λ os t subscriber. elim (Result-cases (send os t subscriber out len).0) [
        | inl (e, bad) ↦ rw (written, send_ack, bad) refl
        | inr (n, good) ↦ rw (written, send_ack, good) refl
      ]),
      decoded,
      accepted,
    )

data_lengths_bounds :
    (index : ℕ)
    → index < data_count
    → (app_header_len ≤ get_or data_lengths index 0)
      × (get_or data_lengths index 0 ≤ max_message_len)
data_lengths_bounds zero more = (omega arith, omega arith)
data_lengths_bounds (suc zero) more = (omega arith, omega arith)
data_lengths_bounds (suc (suc zero)) more = (omega arith, omega arith)
data_lengths_bounds (suc (suc (suc index))) more = absurd (omega arith)

-- A data message, as `send_data_messages` encodes it, is decoded and accepted by the publisher's program
-- if it is the one that is due.
pub data_is_accepted :
    (payload : List ℕ) (r : Replies) (index : ℕ)
    → index < data_count
    → max_message_len ≤ length payload
    → r.expected_data_sequence ≡ index + 1
    → let len = get_or data_lengths index 0 in
      let (encoded, out) = encode_pattern payload len kind_data (index + 1) in
      (encoded ≡ true)
      × (message : AppMessage) × (decode out len ≡ some message)
      × (handle_reply r message ≡ some (record r { expected_data_sequence = index + 1 + 1 }))
unfolding handle_reply handle_data
data_is_accepted payload r index more room due =
    let len = get_or data_lengths index 0 in
    let bounds : (app_header_len ≤ len) × (len ≤ max_message_len) =
      data_lengths_bounds index more in
    elim (encode_pattern_lem payload len kind_data (index + 1) (omega arith)
      (omega (arith, bounds))) [
        | inl (why, _) ↦ absurd (ground (arith, why, bounds))
        | inr (_, _, _, (encoded, message, decoded, valid)) ↦
            let kind = kind_of message kind_data (index + 1) len valid in
            let back : index ≡ r.expected_data_sequence - 1 = omega (arith, due) in
            let valid' : validate_pattern message kind_data r.expected_data_sequence
                  (get_or data_lengths (r.expected_data_sequence - 1) 0)
                ≡ true =
              subst
                (λ n.
                  validate_pattern message kind_data n
                    (get_or data_lengths (r.expected_data_sequence - 1) 0)
                  ≡ true)
                (sym due)
                (subst
                  (λ i.
                    validate_pattern message kind_data (index + 1) (get_or data_lengths i 0) ≡ true)
                  back valid) in
            (encoded, message, decoded, ground (arith, kind, valid', due))
      ]
