-- ===== src/Message/Abort.antt =====
-- `axivc_message_try_abort` of ivc/message.c on joined ends, every branch of it.
use axvisor_tools.Common.{
  ◌≡◌, ◌⊎◌, inl, inr, refl, arith, true, false, [], length, Bool-cases, done, failed, success, Code,
  enomsg, eagain,
}
use axvisor_tools.Ring.Defs.{Ring, axivc_ring_capacity}
use axvisor_tools.Ring.Refine.{contents, push_cases}
use axvisor_tools.Message.Codec.{framed}
use axvisor_tools.Message.Sender.{Sender, try_abort}
use axvisor_tools.Message.Receiver.{Receiver, ReceiverState, Transition, validate_transition, apply}
use axvisor_tools.Message.Joined.{Matches, IsActive, Joined, Log, discard, absorb_all}
use axvisor_tools.Message.Publish.{encoded, push_accepted}

module _ (receiver : Receiver) (log : Log) where
  -- The outcomes of an abort.
  abbrev pub Aborts : Sender → Ring → Code × Sender × Ring → Type 0
  Aborts sender ring (code, sender', ring') =
      ((sender.sending ≡ false) × (code ≡ failed enomsg) × (sender' ≡ sender) × (ring' ≡ ring))
      ⊎ (((sender.sending ≡ true)
            × (sender.published_any ≡ true)
            × (code ≡ failed eagain)
            × (sender' ≡ sender)
            × (ring' ≡ ring)
            × (length (contents ring) ≡ axivc_ring_capacity))
          ⊎ ((sender.sending ≡ true)
              × (code ≡ success)
              × (sender' ≡ record sender { sending = false })
              × Joined receiver sender' ring'
              × (((sender.published_any ≡ false) × (ring' ≡ ring))
                  ⊎ ((sender.published_any ≡ true)
                      × (absorb_all log (contents ring')
                          ≡ discard (absorb_all log (contents ring)))))))

  local_abort_Joined :
      (sender : Sender) (ring : Ring)
      → Joined receiver sender ring
      → sender.published_any ≡ false
      → Joined receiver (record sender { sending = false }) ring
  local_abort_Joined sender ring joined none_yet = record {
    valid = joined.valid;
    sound = (joined.sound.0, inl refl);
    live = joined.live;
    after = joined.after;
    accepts = joined.accepts;
    agrees = ground (arith, joined.agrees);
  }

  abort_accepted :
      (sender : Sender) (after : Receiver)
      → IsActive sender
      → sender.published_any ≡ true
      → Matches sender after
      → (transition : Transition) × (validate_transition after
            (framed sender.active.id sender.active.len false false true [] 0)
          ≡ done transition)
        × Matches (record sender { sending = false }) (apply after transition)
  unfolding validate_transition
  abort_accepted sender after act part m = (
    record {
      next_state = ReceiverState.idle;
      active = sender.active;
      received = sender.sent;
      complete = false;
      aborted = true;
    },
    ground arith,
    ground arith,
  )

  published_abort :
      (sender : Sender) (ring : Ring)
      → Joined receiver sender ring
      → IsActive sender
      → sender.published_any ≡ true
      → Aborts sender ring (try_abort sender ring)
  unfolding try_abort
  published_abort sender ring joined act part =
      let (slot, e, n, d, bytes) =
        encoded sender.active.id sender.active.len false false true [] 0 act.1 act.2 act.3
          (omega arith) (omega arith) (ground arith) in
      let (transition, v, agrees) = abort_accepted sender joined.after act part joined.agrees in
      elim (push_cases ring slot joined.valid) [
        | inl (refused, full) ↦
            let runs : try_abort sender ring ≡ (failed eagain, sender, ring) =
              simp (act.0, part, e, refused) in
            rw runs (inr (inl (act.0, part, refl, refl, refl, full)))
        | inr (ring', pushed, valid, added) ↦
            let (joined', logged) =
              push_accepted receiver log sender (record sender { sending = false }) ring ring' slot
                _ transition joined (joined.sound.0, inl refl) n d v agrees valid added in
            let runs : try_abort sender ring ≡ (success, record sender { sending = false }, ring') =
              simp (act.0, part, e, pushed) in
            rw runs (inr (inr (act.0, refl, refl, joined', inr (part, logged))))
      ]

  -- `axivc_message_try_abort` on joined ends. Without an active message it refuses. A message of which
  -- nothing is published is dropped, and the ring is left alone. Otherwise one ABORT slot is published,
  -- and drops the partial message on the receiver's side; a full ring is reported, and nothing is
  -- changed.
  pub try_abort_lem :
      (sender : Sender) (ring : Ring)
      → Joined receiver sender ring
      → Aborts sender ring (try_abort sender ring)
  try_abort_lem sender ring joined = elim (joined.sound.1) [
    | inl off ↦
        let runs : try_abort sender ring ≡ (failed enomsg, sender, ring) =
          unfold try_abort in rw off in
        rw runs (inl (off, refl, refl, refl))
    | inr act ↦ elim (Bool-cases sender.published_any) [
      | inl part ↦ published_abort sender ring joined act part
      | inr none_yet ↦
          let runs : try_abort sender ring ≡ (success, record sender { sending = false }, ring) =
            unfold try_abort in ground arith in
          rw runs (
            inr (
              inr (
                act.0,
                refl,
                refl,
                local_abort_Joined sender ring joined none_yet,
                inl (none_yet, refl),
              )))
    ]
  ]
