-- ===== src/Demo/Accepted.antt =====
-- demo/publish.c: what the two counters of the publisher's program say of the replies accepted.
use axvisor_tools.Common.{
  ℕ, zero, suc, ◌+◌, ◌-◌, ◌≤◌, ◌<◌, ◌≡◌, ◌≢◌, ◌⊎◌, inl, inr, refl, sym, ◌∙◌, subst, ap, arith, true,
  false, some, Bool-cases, List, [], ◌∷◌, ◌++◌, ◌==◌, if◌then◌else◌, get_or, All-append, ==_iff,
  ap₂, All,
}
use axvisor_tools.AppProto.Defs.{
  AppMessage, request_count, data_count, data_lengths, kind_ack, kind_data, validate_pattern,
}
use axvisor_tools.AppProto.Ack.{ack_body_is_valid}
use axvisor_tools.Demo.Publish.{Replies, handle_ack, handle_data, handle_reply}

-- The sequence numbers of the messages of a kind, in order.
abbrev pub sequences : ℕ → List AppMessage → List ℕ
sequences kind [] = []
sequences kind (message ∷ messages) =
    if message.kind == kind
    then message.sequence ∷ sequences kind messages
    else sequences kind messages

-- 1, 2, …, n.
abbrev pub up_to : ℕ → List ℕ
up_to zero = []
up_to (suc n) = up_to n ++ (suc n ∷ [])

-- An acknowledgement with one of the two texts, or a data message with the pattern and the length of
-- its number.
abbrev pub IsReply : AppMessage → Type 0
IsReply message =
    ((message.kind ≡ kind_ack) × (ack_body_is_valid message.body message.body_len ≡ true))
    ⊎ ((message.kind ≡ kind_data)
        × (validate_pattern message kind_data message.sequence
              (get_or data_lengths (message.sequence - 1) 0)
            ≡ true))

-- What has been accepted when the counters stand like this.
pub record Accepted (r : Replies) (accepted : List AppMessage) : Type 0 where
  pub acks : ℕ
  pub data_messages : ℕ
  pub ack_counter : r.expected_ack_sequence ≡ acks + 1
  pub data_counter : r.expected_data_sequence ≡ data_messages + 1
  pub in_time : (acks < request_count) ⊎ ((acks ≡ request_count) × (data_messages ≡ data_count))
  pub data_bound : data_messages ≤ data_count
  pub ack_sequences : sequences kind_ack accepted ≡ up_to acks
  pub data_sequences : sequences kind_data accepted ≡ up_to data_messages
  pub replies : All IsReply accepted

pub sequences-same :
    (kind : ℕ) (messages : List AppMessage) (message : AppMessage)
    → message.kind ≡ kind
    → sequences kind (messages ++ (message ∷ []))
      ≡ sequences kind messages ++ (message.sequence ∷ [])
sequences-same kind [] message e = rw ((==_iff message.kind kind).1 e) refl
sequences-same kind (x ∷ xs) message e = elim (Bool-cases (x.kind == kind)) [
  | inl same ↦ rw same (ap (λ t. x.sequence ∷ t) (sequences-same kind xs message e))
  | inr other ↦ rw other (sequences-same kind xs message e)
]

sequences-other :
    (kind : ℕ) (messages : List AppMessage) (message : AppMessage)
    → message.kind == kind ≡ false
    → sequences kind (messages ++ (message ∷ [])) ≡ sequences kind messages
sequences-other kind [] message e = rw e refl
sequences-other kind (x ∷ xs) message e = elim (Bool-cases (x.kind == kind)) [
  | inl same ↦ rw same (ap (λ t. x.sequence ∷ t) (sequences-other kind xs message e))
  | inr other ↦ rw other (sequences-other kind xs message e)
]

pub validated :
    (message : AppMessage) (kind sequence expected_len : ℕ)
    → validate_pattern message kind sequence expected_len ≡ true
    → message.sequence ≡ sequence
unfolding validate_pattern
validated message kind sequence expected_len h = ground arith

handle_ack-Accepted :
    (r r' : Replies) (accepted : List AppMessage) (message : AppMessage)
    → message.kind ≡ kind_ack
    → r.expected_ack_sequence ≤ request_count
    → handle_ack r message ≡ some r'
    → Accepted r accepted
    → Accepted r' (accepted ++ (message ∷ []))
unfolding handle_ack
handle_ack-Accepted r r' accepted message kind open_still h a =
    let facts : (message.sequence ≡ r.expected_ack_sequence)
        × (ack_body_is_valid message.body message.body_len ≡ true)
        × ((r.expected_ack_sequence ≢ request_count) ⊎ (r.expected_data_sequence ≡ data_count + 1))
        × (r'.expected_ack_sequence ≡ r.expected_ack_sequence + 1)
        × (r'.expected_data_sequence ≡ r.expected_data_sequence) =
      ground arith in
    record {
      acks = suc a.acks;
      data_messages = a.data_messages;
      ack_counter = omega (arith, facts.3, a.ack_counter);
      data_counter = facts.4 ∙ a.data_counter;
      in_time = ground (arith, facts.2, a.ack_counter, a.data_counter, open_still);
      data_bound = a.data_bound;
      ack_sequences =
          sequences-same kind_ack accepted message kind
          ∙ ap₂ (λ s n. s ++ (n ∷ [])) (a.ack_sequences) (omega (arith, facts.0, a.ack_counter));
      data_sequences =
          sequences-other kind_data accepted message (ground (arith, kind)) ∙ a.data_sequences;
      replies = All-append IsReply accepted message (a.replies) (inl (kind, facts.1));
    }

handle_data-Accepted :
    (r r' : Replies) (accepted : List AppMessage) (message : AppMessage)
    → message.kind ≡ kind_data
    → handle_data r message ≡ some r'
    → r.expected_ack_sequence ≤ request_count
    → Accepted r accepted
    → Accepted r' (accepted ++ (message ∷ []))
unfolding handle_data
handle_data-Accepted r r' accepted message kind h open_still a =
    let expected_len = get_or data_lengths (r.expected_data_sequence - 1) 0 in
    let facts : (r.expected_data_sequence ≤ data_count)
        × (validate_pattern message kind_data r.expected_data_sequence expected_len ≡ true)
        × (r'.expected_ack_sequence ≡ r.expected_ack_sequence)
        × (r'.expected_data_sequence ≡ r.expected_data_sequence + 1) =
      ground arith in
    let number = validated message kind_data (r.expected_data_sequence) expected_len (facts.1) in
    record {
      acks = a.acks;
      data_messages = suc a.data_messages;
      ack_counter = facts.2 ∙ a.ack_counter;
      data_counter = omega (arith, facts.3, a.data_counter);
      in_time = ground (arith, facts.0, a.ack_counter, a.data_counter, open_still);
      data_bound = omega (arith, facts.0, a.data_counter);
      ack_sequences =
          sequences-other kind_ack accepted message (ground (arith, kind)) ∙ a.ack_sequences;
      data_sequences =
          sequences-same kind_data accepted message kind
          ∙ ap₂ (λ s n. s ++ (n ∷ [])) (a.data_sequences) (omega (arith, number, a.data_counter));
      replies = All-append IsReply accepted message (a.replies) (
          inr (
            kind,
            subst (λ n. validate_pattern message kind_data n (get_or data_lengths (n - 1) 0) ≡ true)
                (sym number) (facts.1),
          ));
    }

pub handle_reply-Accepted :
    (r r' : Replies) (accepted : List AppMessage) (message : AppMessage)
    → r.expected_ack_sequence ≤ request_count
    → handle_reply r message ≡ some r'
    → Accepted r accepted
    → Accepted r' (accepted ++ (message ∷ []))
unfolding handle_reply
handle_reply-Accepted r r' accepted message open_still h a =
    elim (Bool-cases (message.kind == kind_ack)) [
      | inl ack ↦
          handle_ack-Accepted r r' accepted message ((==_iff message.kind kind_ack).0 ack)
            open_still (rw ack at h) a
      | inr other ↦ elim (Bool-cases (message.kind == kind_data)) [
        | inl data_message ↦
            handle_data-Accepted r r' accepted message
              ((==_iff message.kind kind_data).0 data_message) (rw data_message at (rw other at h))
              open_still a
        | inr request ↦ absurd (ground (arith, h, other, request))
      ]
    ]
