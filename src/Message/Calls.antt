-- ===== src/Message/Calls.antt =====
-- The calls of a sender of ivc/message.c on joined ends: every branch of every call.
use axvisor_tools.Common.{
  ℕ, ◌+◌, ◌^◌, ◌≤◌, ◌<◌, ◌≡◌, ◌⊎◌, inl, inr, refl, sym, arith, true, false, List, [], length,
  dec_lt, ℕ_discrete, length-zero, done, failed, enomsg, einval,
}
use axvisor_tools.Ring.Defs.{Ring}
use axvisor_tools.Ring.Refine.{contents, push_cases}
use axvisor_tools.Message.Codec.{framed}
use axvisor_tools.Message.Sender.{
  Sender, Wrote, no_progress, start, publish_empty_message, write_loop, try_write,
}
use axvisor_tools.Message.Receiver.{Receiver, ReceiverState, Transition, validate_transition, apply}
use axvisor_tools.Message.Joined.{Matches, IsActive, Joined, Log, absorb_all}
use axvisor_tools.Message.Publish.{encoded, push_accepted}
use axvisor_tools.Message.Write.{extend_nothing, Publishes, write_loop-Publishes}

module _ (receiver : Receiver) (log : Log) where
  -- `axivc_message_start` touches no ring: the ends stay joined.
  pub start-Joined :
      (sender : Sender) (ring : Ring) (message_len : ℕ)
      → message_len < 2 ^ 64
      → Joined receiver sender ring
      → Joined receiver (start sender message_len).1 ring
  unfolding start
  start-Joined sender ring message_len small joined = record {
    valid = joined.valid;
    sound = ground (arith, joined.sound);
    live = joined.live;
    after = joined.after;
    accepts = joined.accepts;
    agrees = ground (arith, joined.agrees);
  }

  empty_accepted :
      (sender : Sender) (after : Receiver)
      → IsActive sender
      → sender.active.len ≡ 0
      → Matches sender after
      → (transition : Transition) × (validate_transition after
            (framed sender.active.id 0 true true false [] 0)
          ≡ done transition)
        × Matches (record sender { sending = false }) (apply after transition)
  unfolding validate_transition
  empty_accepted sender after act empty m = (
    record {
      next_state = ReceiverState.idle;
      active = record { id = sender.active.id; len = 0 };
      received = 0;
      complete = true;
      aborted = false;
    },
    ground arith,
    ground arith,
  )

  pub publish_empty_Publishes :
      (sender : Sender) (ring : Ring)
      → Joined receiver sender ring
      → IsActive sender
      → sender.active.len ≡ 0
      → Publishes receiver log sender ring [] 0 (publish_empty_message sender ring)
  unfolding publish_empty_message
  publish_empty_Publishes sender ring joined act empty =
      let (slot, e, n, d, bytes) =
        encoded sender.active.id 0 true true false [] 0 act.1 act.2 (omega arith) (omega arith)
          (omega arith) (ground arith) in
      let (transition, v, agrees) = empty_accepted sender joined.after act empty joined.agrees in
      elim (push_cases ring slot joined.valid) [
        | inl (refused, full) ↦
            rw (e, publish_empty_message, refused)
              (record {
                code = refl;
                joined = joined;
                taken = 0;
                taken_in = omega arith;
                count = refl;
                same_message = refl;
                progressed = omega arith;
                logged = sym (extend_nothing (absorb_all log (contents ring)));
                completes = inr (refl, refl, inl refl);
              })
        | inr (ring', pushed, valid, added) ↦
            let (joined', logged) =
              push_accepted receiver log sender (record sender { sending = false }) ring ring' slot
                _ transition joined (joined.sound.0, inl refl) n d v agrees valid added in
            rw (e, publish_empty_message, pushed)
              (record {
                code = refl;
                joined = joined';
                taken = 0;
                taken_in = omega arith;
                count = refl;
                same_message = refl;
                progressed = omega arith;
                logged = logged;
                completes = inl (refl, ground arith, refl);
              })
      ]

  active_write_lem :
      (sender : Sender) (ring : Ring) (input : List ℕ)
      → Joined receiver sender ring
      → IsActive sender
      → sender.sent + length input ≤ sender.active.len
      → Publishes receiver log sender ring input 0 (try_write sender ring input)
  active_write_lem sender ring input joined act fits = elim (ℕ_discrete sender.active.len 0) [
    | yes empty ↦
        let runs : try_write sender ring input ≡ publish_empty_message sender ring =
          unfold try_write in ground arith in
        rw (runs, length-zero input (omega arith))
          (publish_empty_Publishes sender ring joined act empty)
    | no more ↦
        let runs : try_write sender ring input ≡ write_loop (length input) input sender ring 0 0 =
          unfold try_write in ground arith in
        rw runs (
          write_loop-Publishes receiver log (length input) input sender ring 0 0 (omega arith)
            joined act fits)
  ]

  -- What a write does: refuse without an active message, refuse more bytes than the message lacks,
  -- or publish.
  abbrev pub Writes : Sender → Ring → List ℕ → Wrote → Type 0
  Writes sender ring input w =
      ((sender.sending ≡ false)
        × (w ≡ record {
          code = failed enomsg;
          sender = sender;
          ring = ring;
          progress = no_progress;
        }))
      ⊎ (((sender.sending ≡ true)
            × (sender.active.len < sender.sent + length input)
            × (w ≡ record {
              code = failed einval;
              sender = sender;
              ring = ring;
              progress = no_progress;
            }))
          ⊎ ((sender.sending ≡ true)
              × (sender.sent + length input ≤ sender.active.len)
              × Publishes receiver log sender ring input 0 w))

  -- `axivc_message_try_write`: without an active message it refuses, and so it does where `input` is
  -- longer than what the message still lacks; neither changes anything. Otherwise it succeeds: it
  -- takes some first bytes of `input` into the ring as the next bytes of the message, reports how
  -- many, and stops only when the message is complete, `input` is used up, or the ring is full.
  pub try_write_lem :
      (sender : Sender) (ring : Ring) (input : List ℕ)
      → Joined receiver sender ring
      → Writes sender ring input (try_write sender ring input)
  try_write_lem sender ring input joined = elim (joined.sound.1) [
    | inl off ↦ inl (off, unfold try_write in rw off)
    | inr act ↦ elim (dec_lt sender.active.len (sender.sent + length input)) [
      | yes long ↦ inr (inl (act.0, long, unfold try_write in ground (arith, act)))
      | no fits ↦
          inr
            (inr (act.0, omega arith, active_write_lem sender ring input joined act (omega arith)))
    ]
  ]
