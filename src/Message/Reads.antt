-- ===== src/Message/Reads.antt =====
-- What a read of ivc/message.c does on joined ends, round by round.
use axvisor_tools.Common.{
  ℕ, ◌+◌, ◌≤◌, ◌<◌, ◌≡◌, ◌⊎◌, inl, inr, refl, sym, ◌∙◌, ap, subst, arith, false, ◌&&◌, not, List,
  [], ◌∷◌, ◌++◌, append_assoc, append-nil, length, done, failed, success, emsgsize, econnreset,
}
use axvisor_tools.Ring.Defs.{Ring, Slot, pop_slot}
use axvisor_tools.Ring.Inv.{IsValid}
use axvisor_tools.Ring.Refine.{contents}
use axvisor_tools.Message.Frame.{axivc_fragment_capacity, Frame, decode_frame, payload}
use axvisor_tools.Message.Sender.{Sender}
use axvisor_tools.Message.Receiver.{
  Receiver, Transition, Received, validate_transition, apply, stop_reading,
}
use axvisor_tools.Message.Joined.{
  Accepts, Joined, Log, extend, discard, absorb, absorb_slot, absorb_all,
}
use axvisor_tools.Message.Round.{transition_flags, length-payload}
use axvisor_tools.Message.Write.{extend-extend, extend_nothing}

-- What a read did, that began with `output` written and `consumed_slots` slots taken. The log is the
-- receiver's; what the ring still holds is counted in.
module _ (sender : Sender) (output_len : ℕ) where
  pub record Reads (receiver : Receiver) (log : Log) (ring : Ring) (output : List ℕ)
      (consumed_slots : ℕ) (r : Received) : Type 0 where
    pub joined : Joined r.receiver sender r.ring
    pub bytes : List ℕ
    pub appended : r.output ≡ output ++ bytes
    pub fits : length r.output ≤ output_len
    pub freed :
        (length (contents r.ring) < length (contents ring))
        ⊎ ((length (contents r.ring) ≡ length (contents ring))
            × (((0 < consumed_slots) ⊎ (contents ring ≡ []))
                ⊎ (output_len < axivc_fragment_capacity)))
    pub outcome :
        ((r.code ≡ success)
          × (r.progress.written ≡ length r.output)
          × (absorb_all (extend log bytes r.progress.complete) (contents r.ring)
              ≡ absorb_all log (contents ring))
          × (consumed_slots ≤ r.progress.consumed_slots)
          × ((0 < r.progress.consumed_slots) ⊎ (contents ring ≡ [])))
        ⊎ (((r.code ≡ failed econnreset)
              × (consumed_slots ≡ 0)
              × (bytes ≡ [])
              × (absorb_all (discard log) (contents r.ring) ≡ absorb_all log (contents ring)))
            ⊎ ((r.code ≡ failed emsgsize)
                × (consumed_slots ≡ 0)
                × (bytes ≡ [])
                × (r.receiver ≡ receiver)
                × (r.ring ≡ ring)
                × (output_len < axivc_fragment_capacity)))

  -- A return that consumes nothing more.
  pub stop_Reads :
      (receiver : Receiver) (log : Log) (ring : Ring) (output : List ℕ) (consumed_slots : ℕ)
      → Joined receiver sender ring
      → length output ≤ output_len
      → (0 < consumed_slots) ⊎ (contents ring ≡ [])
      → Reads receiver log ring output consumed_slots
          (stop_reading receiver ring output consumed_slots false)
  stop_Reads receiver log ring output consumed_slots joined room why = record {
    joined = joined;
    bytes = [];
    appended = sym (append-nil output);
    fits = room;
    freed = inr (refl, inl why);
    outcome =
        inl (
          refl,
          refl,
          ap (λ l. absorb_all l (contents ring)) (extend_nothing log),
          omega arith,
          why,
        );
  }

  -- A round that neither aborts nor completes, followed by the rest of the loop.
  pub more_Reads :
      (receiver receiver' : Receiver) (log : Log) (ring ring' : Ring) (output part : List ℕ)
      (consumed_slots : ℕ) (r : Received)
      → length (contents ring') < length (contents ring)
      → absorb_all (extend log part false) (contents ring') ≡ absorb_all log (contents ring)
      → Reads receiver' (extend log part false) ring' (output ++ part) (consumed_slots + 1) r
      → Reads receiver log ring output consumed_slots r
  more_Reads receiver receiver' log ring ring' output part consumed_slots r shorter logged rest =
      record {
        joined = rest.joined;
        bytes = part ++ rest.bytes;
        appended = rest.appended ∙ append_assoc output part rest.bytes;
        fits = rest.fits;
        freed = inl (omega (arith, rest.freed));
        outcome = elim (rest.outcome) [
          | inl (code, written, counted, grown, _) ↦ inl (
            code,
            written,
            ap (λ l. absorb_all l (contents r.ring))
                  (sym (extend-extend log part rest.bytes r.progress.complete))
                ∙ counted
                ∙ logged,
            omega arith,
            inl (omega arith),
          )
          | inr (inl (_, none_yet, _, _)) ↦ absurd (omega arith)
          | inr (inr (_, none_yet, _, _, _, _)) ↦ absurd (omega arith)
        ];
      }

  -- The head of the ring, taken by the receiver.
  pub record Head (receiver : Receiver) (log : Log) (ring : Ring) (slot : Slot) : Type 0 where
    pub frame : Frame
    pub transition : Transition
    pub decodes : decode_frame slot ≡ done frame
    pub valid : validate_transition receiver frame ≡ done transition
    pub shorter : length (contents (pop_slot ring)) < length (contents ring)
    pub carried : length (payload frame) ≡ frame.fragment_len
    pub joined : Joined (apply receiver transition) sender (pop_slot ring)
    pub logged :
        absorb_all (absorb log frame) (contents (pop_slot ring)) ≡ absorb_all log (contents ring)
    pub aborted : transition.aborted ≡ frame.abort
    pub completed : transition.complete ≡ (frame.last && not frame.abort)

  pub Head-of :
      (receiver : Receiver) (log : Log) (ring : Ring) (slot : Slot)
      → Joined receiver sender ring
      → IsValid (pop_slot ring)
      → contents ring ≡ slot ∷ contents (pop_slot ring)
      → Head receiver log ring slot
  Head-of receiver log ring slot joined valid e =
      let (n, frame, d, transition, v, rest) =
        subst (λ slots. Accepts receiver slots joined.after) e joined.accepts in
      let flags = transition_flags receiver frame transition joined.live v in
      let taken : absorb_slot log slot ≡ absorb log frame = rw (d, absorb_slot) in
      record {
        frame = frame;
        transition = transition;
        decodes = d;
        valid = v;
        shorter = omega (arith, ap length e);
        carried = length-payload slot frame n d;
        joined = record {
          valid = valid;
          sound = joined.sound;
          live = flags.2;
          after = joined.after;
          accepts = rest;
          agrees = joined.agrees;
        };
        logged =
            sym (ap (absorb_all log) e ∙ ap (λ l. absorb_all l (contents (pop_slot ring))) taken);
        aborted = flags.0;
        completed = flags.1;
      }
