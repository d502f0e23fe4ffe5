-- ===== src/Message/Publish.antt =====
-- The sending side of ivc/message.c keeps the two ends joined.
use axvisor_tools.Common.{
  ℕ, ◌+◌, ◌^◌, ◌≤◌, ◌<◌, ◌≡◌, ◌≢◌, ◌⊎◌, inl, inr, ◌∙◌, ap, arith, Bool, true, false, not, List, [],
  ◌∷◌, ◌++◌, if◌then◌else◌, ◌==◌, length, take, done,
}
use axvisor_tools.Ring.Defs.{Ring, Slot, axivc_ring_capacity, axivc_slot_size, try_push_slot}
use axvisor_tools.Ring.Inv.{IsValid}
use axvisor_tools.Ring.Refine.{contents, push_cases}
use axvisor_tools.Message.Frame.{
  axivc_fragment_capacity, encode_frame, decode_frame, Frame, payload,
}
use axvisor_tools.Message.Shape.{HasShape, encode_frame_accepts}
use axvisor_tools.Message.Codec.{framed, decode-encode}
use axvisor_tools.Message.Sender.{Sender, u64, advance}
use axvisor_tools.Message.Receiver.{Receiver, ReceiverState, Transition, validate_transition, apply}
use axvisor_tools.Message.Joined.{
  Accepts-snoc, Matches, IsActive, IsSound, Joined, Log, extend, absorb, absorb_slot, absorb_all,
  absorb_all_snoc,
}

-- What the sender encodes decodes.
pub encoded :
    (message_id message_len : ℕ) (first last abort : Bool) (fragment : List ℕ) (fragment_len : ℕ)
    → message_id ≢ 0
    → message_id < 2 ^ 64
    → message_len < 2 ^ 64
    → fragment_len ≤ axivc_fragment_capacity
    → fragment_len ≤ length fragment
    → HasShape message_len fragment_len first last abort
    → (slot : Slot) × (encode_frame message_id message_len first last abort fragment fragment_len
        ≡ done slot)
      × (length slot ≡ axivc_slot_size)
      × (decode_frame slot
          ≡ done (framed message_id message_len first last abort fragment fragment_len))
      × (payload (framed message_id message_len first last abort fragment fragment_len)
          ≡ take fragment_len fragment)
encoded message_id message_len first last abort fragment fragment_len nz hi hl cap k shape =
    let (slot, e) =
      (encode_frame_accepts message_id message_len first last abort fragment fragment_len).1
        (nz, cap, shape) in
    let there =
      decode-encode message_id message_len first last abort fragment fragment_len hi hl k e in
    (slot, e, there.0, there.1, there.2)

-- The next fragment of an active message moves the receiver that has taken all before it.
fragment_accepted :
    (sender : Sender) (after : Receiver) (fragment : List ℕ) (fragment_len : ℕ)
    → IsActive sender
    → Matches sender after
    → 0 < fragment_len
    → sender.sent + fragment_len ≤ sender.active.len
    → let complete = u64 (sender.sent + fragment_len) == sender.active.len in
      let sender' =
        if complete
        then record (advance sender (u64 (sender.sent + fragment_len))) { sending = false }
        else advance sender (u64 (sender.sent + fragment_len)) in
      (transition : Transition) × (validate_transition after (
          framed sender.active.id sender.active.len
            (not sender.published_any)
            complete
            false
            fragment
            fragment_len)
        ≡ done transition)
      × Matches sender' (apply after transition)
unfolding validate_transition
fragment_accepted sender after fragment fragment_len act m pos fits = (
  record {
    next_state =
        (if sender.sent + fragment_len == sender.active.len
          then ReceiverState.idle
          else ReceiverState.receiving);
    active = sender.active;
    received = sender.sent + fragment_len;
    complete = sender.sent + fragment_len == sender.active.len;
    aborted = false;
  },
  ground arith,
  ground arith,
)

-- The sender behind a published fragment.
abbrev pub after_fragment : Sender → ℕ → Sender
after_fragment sender fragment_len =
    let next_sent = u64 (sender.sent + fragment_len) in
    if next_sent == sender.active.len
    then record (advance sender next_sent) { sending = false }
    else advance sender next_sent

module _ (receiver : Receiver) (log : Log) where
  -- What one published slot does to the joined ends and to the messages on the way.
  pub push_accepted :
      (sender sender' : Sender) (ring ring' : Ring) (slot : Slot) (frame : Frame)
      (transition : Transition) (joined : Joined receiver sender ring)
      → IsSound sender'
      → length slot ≡ axivc_slot_size
      → decode_frame slot ≡ done frame
      → validate_transition joined.after frame ≡ done transition
      → Matches sender' (apply joined.after transition)
      → IsValid ring'
      → contents ring' ≡ contents ring ++ (slot ∷ [])
      → Joined receiver sender' ring'
        × (absorb_all log (contents ring') ≡ absorb (absorb_all log (contents ring)) frame)
  push_accepted sender sender' ring ring' slot frame transition joined sound n d v agrees valid e =
      (
        record {
          valid = valid;
          sound = sound;
          live = joined.live;
          after = apply joined.after transition;
          accepts = rw e (
              Accepts-snoc receiver (contents ring) joined.after slot frame transition
                joined.accepts n d v);
          agrees = agrees;
        },
        ap (absorb_all log) e ∙ absorb_all_snoc log (contents ring) slot ∙ rw (d, absorb_slot),
      )

  fragment-IsSound :
      (sender : Sender) (fragment_len : ℕ)
      → IsSound sender
      → IsActive sender
      → 0 < fragment_len
      → sender.sent + fragment_len ≤ sender.active.len
      → IsSound (after_fragment sender fragment_len)
  fragment-IsSound sender fragment_len sound act pos fits = ground arith

  -- One round of the loop: the frame is lawful, and a push that succeeds keeps the ends joined.
  pub publish_fragment :
      (sender : Sender) (ring : Ring) (fragment : List ℕ) (fragment_len : ℕ)
      → Joined receiver sender ring
      → IsActive sender
      → 0 < fragment_len
      → fragment_len ≤ axivc_fragment_capacity
      → fragment_len ≤ length fragment
      → sender.sent + fragment_len ≤ sender.active.len
      → let complete = u64 (sender.sent + fragment_len) == sender.active.len in
        (slot : Slot) × (encode_frame sender.active.id sender.active.len
            (not sender.published_any)
            complete
            false
            fragment
            fragment_len
          ≡ done slot)
        × (((try_push_slot ring slot ≡ (false, ring))
              × (length (contents ring) ≡ axivc_ring_capacity))
            ⊎ ((ring' : Ring) × (try_push_slot ring slot ≡ (true, ring'))
                × Joined receiver (after_fragment sender fragment_len) ring'
                × (absorb_all log (contents ring')
                    ≡ extend
                        (absorb_all log (contents ring))
                        (take fragment_len fragment)
                        complete)))
  publish_fragment sender ring fragment fragment_len joined act pos cap k fits =
      let complete = u64 (sender.sent + fragment_len) == sender.active.len in
      let (slot, e, n, d, bytes) =
        encoded sender.active.id sender.active.len (not sender.published_any) complete false
          fragment fragment_len act.1 act.2 act.3 cap k (ground arith) in
      let (transition, v, agrees) =
        fragment_accepted sender joined.after fragment fragment_len act joined.agrees pos fits in
      (
        slot,
        e,
        elim (push_cases ring slot joined.valid) [
          | inl full ↦ inl full
          | inr (ring', pushed, valid, added) ↦
              let (joined', logged) =
                push_accepted sender (after_fragment sender fragment_len) ring ring' slot _
                  transition joined (fragment-IsSound sender fragment_len joined.sound act pos fits)
                  n d v agrees valid added in
              inr (
                ring',
                pushed,
                joined',
                logged ∙ ap (λ t. extend (absorb_all log (contents ring)) t complete) bytes,
              )
        ],
      )
