-- ===== src/Message/Read.antt =====
-- `axivc_message_try_read` of ivc/message.c on joined ends.
use axvisor_tools.Common.{
  ℕ, zero, suc, ◌+◌, ◌-◌, ◌≤◌, ◌<◌, ◌≡◌, ◌⊎◌, inl, inr, refl, sym, ◌∙◌, ap, arith, true, false,
  none, some, Bool-cases, dec_lt, length-zero, List, [], ◌++◌, append-nil, length, length-append,
  failed, emsgsize, econnreset,
}
use axvisor_tools.Ring.Defs.{Ring, Slot, try_peek_slot, pop_slot}
use axvisor_tools.Ring.Refine.{peek_cases}
use axvisor_tools.Message.Frame.{payload}
use axvisor_tools.Message.Shape.{decode_frame_sound}
use axvisor_tools.Message.Sender.{Sender}
use axvisor_tools.Message.Receiver.{
  Receiver, apply, stop_reading, fail_reading, read_loop, try_read,
}
use axvisor_tools.Message.Joined.{Joined, Log, extend}
use axvisor_tools.Message.Round.{payload_pos, abort_empty}
use axvisor_tools.Message.Reads.{Reads, stop_Reads, more_Reads, Head, Head-of}

module _ (sender : Sender) (output_len : ℕ) where
  unseen :
      (fuel : ℕ) (receiver : Receiver) (ring : Ring) (output : List ℕ) (consumed_slots : ℕ)
      → try_peek_slot ring ≡ none
      → read_loop (suc fuel) output_len receiver ring output consumed_slots
        ≡ stop_reading receiver ring output consumed_slots false
  unfolding read_loop
  unseen fuel receiver ring output consumed_slots empty = rw (empty, read_loop)

  -- The ways on from an ABORT slot that the receiver accepts: behind other slots it waits for the
  -- next call, and at the start of a call it is consumed and reported.
  abort_Reads :
      (fuel : ℕ) (receiver : Receiver) (log : Log) (ring : Ring) (output : List ℕ)
      (consumed_slots : ℕ) (slot : Slot) (head : Head sender output_len receiver log ring slot)
      → length output ≤ output_len
      → try_peek_slot ring ≡ some slot
      → Joined receiver sender ring
      → head.frame.abort ≡ true
      → Reads sender output_len receiver log ring output consumed_slots
          (read_loop (suc fuel) output_len receiver ring output consumed_slots)
  abort_Reads fuel receiver log ring output consumed_slots slot head room seen joined a =
      elim (dec_lt 0 consumed_slots) [
        | yes some_taken ↦
            let runs : read_loop (suc fuel) output_len receiver ring output consumed_slots
                ≡ stop_reading receiver ring output consumed_slots false =
              unfold read_loop in ground (arith, seen, head.decodes, head.valid, head.aborted) in
            rw runs (
              stop_Reads sender output_len receiver log ring output consumed_slots joined room
                (inl some_taken))
        | no none_taken ↦
            let none : head.frame.fragment_len ≡ 0 = abort_empty slot head.frame head.decodes a in
            let runs : read_loop (suc fuel) output_len receiver ring output consumed_slots
                ≡ fail_reading (failed econnreset) (apply receiver head.transition) (pop_slot ring)
                    (output ++ payload head.frame) =
              unfold read_loop in ground (arith, seen, head.decodes, head.valid, head.aborted) in
            let no_bytes : payload head.frame ≡ [] =
              length-zero (payload head.frame) (head.carried ∙ none) in
            rw runs (record {
              joined = head.joined;
              bytes = [];
              appended = ap (λ t. output ++ t) no_bytes;
              fits =
                  omega (arith, length-append {0} output (payload head.frame), ap length no_bytes);
              freed = inl (head.shorter);
              outcome = inr (inl (refl, omega arith, refl, rw a at (head.logged)));
            })
      ]

  -- The ways on from a slot with payload: it does not fit, completes the message, or is one of more.
  data_Reads :
      (fuel : ℕ) (receiver : Receiver) (log : Log) (ring : Ring) (output : List ℕ)
      (consumed_slots : ℕ) (slot : Slot) (head : Head sender output_len receiver log ring slot)
      → length output ≤ output_len
      → (0 < consumed_slots) ⊎ (length output ≡ 0)
      → try_peek_slot ring ≡ some slot
      → Joined receiver sender ring
      → head.frame.abort ≡ false
      → (head.frame.last ≡ false
          → head.frame.fragment_len ≤ output_len - length output
          → Reads sender output_len
              (apply receiver head.transition)
              (extend log (payload head.frame) false)
              (pop_slot ring)
              (output ++ payload head.frame)
              (consumed_slots + 1)
              (read_loop fuel output_len
                (apply receiver head.transition)
                (pop_slot ring)
                (output ++ payload head.frame)
                (consumed_slots + 1)))
      → Reads sender output_len receiver log ring output consumed_slots
          (read_loop (suc fuel) output_len receiver ring output consumed_slots)
  data_Reads fuel receiver log ring output consumed_slots slot head room begun seen joined a rest =
      elim (dec_lt (output_len - length output) head.frame.fragment_len) [
        | yes big ↦ elim (dec_lt 0 consumed_slots) [
          | yes some_taken ↦
              let runs : read_loop (suc fuel) output_len receiver ring output consumed_slots
                  ≡ stop_reading receiver ring output consumed_slots false =
                unfold read_loop in ground (arith, seen, head.decodes, head.valid, head.aborted) in
              rw runs (
                stop_Reads sender output_len receiver log ring output consumed_slots joined room
                  (inl some_taken))
          | no none_taken ↦
              let runs : read_loop (suc fuel) output_len receiver ring output consumed_slots
                  ≡ fail_reading (failed emsgsize) receiver ring output =
                unfold read_loop in ground (arith, seen, head.decodes, head.valid, head.aborted) in
              rw runs (record {
                joined = joined;
                bytes = [];
                appended = sym (append-nil output);
                fits = room;
                freed =
                    inr
                      (refl, inr (omega (arith, decode_frame_sound slot head.frame head.decodes)));
                outcome = inr (
                    inr (
                      refl,
                      omega arith,
                      refl,
                      refl,
                      refl,
                      omega (arith, decode_frame_sound slot head.frame head.decodes),
                    ));
              })
        ]
        | no fits ↦ elim (Bool-cases head.frame.last) [
          | inl l ↦
              let runs : read_loop (suc fuel) output_len receiver ring output consumed_slots
                  ≡ stop_reading (apply receiver head.transition) (pop_slot ring)
                      (output ++ payload head.frame) (consumed_slots + 1) true =
                unfold read_loop in
                ground (arith, seen, head.decodes, head.valid, head.aborted, head.completed) in
              rw runs (record {
                joined = head.joined;
                bytes = payload head.frame;
                appended = refl;
                fits = omega (arith, length-append {0} output (payload head.frame), head.carried);
                freed = inl (head.shorter);
                outcome =
                    inl
                      (refl, refl, rw l at (rw a at (head.logged)), omega arith, inl (omega arith));
              })
          | inr more ↦
              let runs : read_loop (suc fuel) output_len receiver ring output consumed_slots
                  ≡ read_loop fuel output_len (apply receiver head.transition) (pop_slot ring)
                      (output ++ payload head.frame) (consumed_slots + 1) =
                unfold read_loop in
                ground (arith, seen, head.decodes, head.valid, head.aborted, head.completed) in
              rw runs (
                more_Reads sender output_len receiver (apply receiver head.transition) log ring
                  (pop_slot ring) output (payload head.frame) consumed_slots _ (head.shorter)
                  (rw more at (rw a at (head.logged))) (rest more (omega arith)))
        ]
      ]

  pub read_loop-Reads :
      (fuel : ℕ) (receiver : Receiver) (log : Log) (ring : Ring) (output : List ℕ)
      (consumed_slots : ℕ)
      → output_len - length output < fuel
      → length output ≤ output_len
      → (0 < consumed_slots) ⊎ (length output ≡ 0)
      → Joined receiver sender ring
      → Reads sender output_len receiver log ring output consumed_slots
          (read_loop fuel output_len receiver ring output consumed_slots)
  read_loop-Reads zero receiver log ring output consumed_slots enough room begun joined =
      absurd (omega arith)
  read_loop-Reads (suc fuel) receiver log ring output consumed_slots enough room begun joined =
      elim (peek_cases ring joined.valid) [
        | inl (empty, none_left) ↦ rw (unseen fuel receiver ring output consumed_slots empty) (
            stop_Reads sender output_len receiver log ring output consumed_slots joined room
              (inr none_left))
        | inr (slot, seen, valid, e) ↦
            let head = Head-of sender output_len receiver log ring slot joined valid e in
            elim (Bool-cases head.frame.abort) [
              | inl a ↦
                  abort_Reads fuel receiver log ring output consumed_slots slot head room seen
                    joined a
              | inr a ↦
                  data_Reads fuel receiver log ring output consumed_slots slot head room begun seen
                    joined a
                    λ more fits.
                      let grown = length-append {0} output (payload head.frame) in
                      let pos = payload_pos slot head.frame head.decodes a more in
                      read_loop-Reads fuel (apply receiver head.transition)
                        (extend log (payload head.frame) false) (pop_slot ring)
                        (output ++ payload head.frame) (consumed_slots + 1)
                        (omega (arith, grown, pos, head.carried))
                        (omega (arith, grown, head.carried)) (inl (omega arith)) head.joined
            ]
      ]

  -- `axivc_message_try_read` on joined ends keeps them joined and writes no more than the output holds.
  -- Where it succeeds, what it wrote is what the slots it consumed add to the receiver's log, and it
  -- consumed at least one unless the ring was empty. It answers with ECONNRESET for an abort, which
  -- drops the message under way, and with EMSGSIZE, changing nothing, only for an output smaller than a
  -- full fragment. There is no other answer.
  pub try_read-Reads :
      (receiver : Receiver) (log : Log) (ring : Ring)
      → Joined receiver sender ring
      → Reads sender output_len receiver log ring [] 0 (try_read receiver ring output_len)
  unfolding try_read
  try_read-Reads receiver log ring joined =
      let runs : try_read receiver ring output_len
          ≡ read_loop (output_len + 1) output_len receiver ring [] 0 =
        ground (arith, joined.live) in
      rw runs (
        read_loop-Reads (output_len + 1) receiver log ring [] 0 (omega arith) (omega arith)
          (inr refl) joined)
