-- ===== src/Message/Delivery.antt =====
-- End to end over ivc/message.c and ivc/ring.c: what a receiver delivers is what the sender sent.
use axvisor_tools.Common.{
  ℕ, ◌+◌, ◌≡◌, ◌≢◌, ◌⊎◌, inl, inr, refl, sym, ◌∙◌, ap, subst, arith, true, false, List, [], ◌∷◌,
  ◌++◌, append-nil, append_assoc, length, length-append, length-take, length-zero, take, All,
  Bool-cases, Result-cases,
}
use native.Mathlib.Nat.{zero-add}
use axvisor_tools.Ring.Defs.{Ring, Slot}
use axvisor_tools.Ring.Inv.{initialize-IsValid}
use axvisor_tools.Ring.Refine.{contents, contents-initialize}
use axvisor_tools.Message.Frame.{Frame, decode_frame, payload}
use axvisor_tools.Message.Sender.{Sender, Wrote, start, try_write, sender_init}
use axvisor_tools.Message.Receiver.{Receiver, ReceiverState, Received, try_read, receiver_init}
use axvisor_tools.Message.Joined.{
  Joined, IsSound, Log, extend, discard, absorb, absorb_slot, absorb_all,
}
use axvisor_tools.Message.Write.{extend_nothing, Publishes}
use axvisor_tools.Message.Calls.{start-Joined, try_write_lem}
use axvisor_tools.Message.Abort.{try_abort_lem}
use axvisor_tools.Message.Reads.{Reads}
use axvisor_tools.Message.Read.{try_read-Reads}
use axvisor_tools.Message.Peek.{peek_meta-Peeks}
use axvisor_tools.Message.Link.{
  Link, Call, starts, writes, aborts, peeks, reads, IsCall, note_read, call, run, connect,
}

-- The sender's log holds the bytes of the message under way.
abbrev Counts : Sender → Log → Type 0
Counts sender log =
    ((sender.sending ≡ true) × (length log.partial ≡ sender.sent))
    ⊎ ((sender.sending ≡ false) × (log.partial ≡ []))

pub record Inv (l : Link) : Type 0 where
  pub joined : Joined l.receiver l.sender l.ring
  pub carried : l.sent ≡ absorb_all l.delivered (contents l.ring)
  pub counted : Counts l.sender l.sent

start-Counts :
    (sender : Sender) (message_len : ℕ) (log : Log)
    → Counts sender log
    → Counts (start sender message_len).1 log
unfolding start
start-Counts sender message_len log c = ground arith

on_Counts :
    (sender : Sender) (log : Log)
    → sender.sending ≡ true
    → Counts sender log
    → length log.partial ≡ sender.sent
on_Counts sender log on c = ground arith

unpublished_partial :
    (sender : Sender) (log : Log)
    → sender.sending ≡ true
    → sender.published_any ≡ false
    → IsSound sender
    → Counts sender log
    → log.partial ≡ []
unpublished_partial sender log on none_yet sound c =
    length-zero log.partial (ground (arith, on_Counts sender log on c))

-- What a read reports is what the ring no longer holds.
pub read_carried :
    {output_len : ℕ} (sender : Sender) (log : Log) (receiver : Receiver) (ring : Ring)
    (r : Received)
    → Reads sender output_len receiver log ring [] 0 r
    → absorb_all log (contents ring) ≡ absorb_all (note_read r log) (contents r.ring)
read_carried sender log receiver ring r p = elim (p.outcome) [
  | inl (code, _, counted, _, _) ↦ rw (code, p.appended) (sym counted)
  | inr (inl (code, _, _, dropped)) ↦ rw code (sym dropped)
  | inr (inr (code, _, _, _, same, _)) ↦
      rw code (ap (λ ring'. absorb_all log (contents ring')) (sym same))
]

-- A refused write consumes nothing.
refused_write :
    (l : Link) (input : List ℕ)
    → Inv l
    → Inv (record l { sent = extend l.sent (take 0 input) false })
refused_write l input inv = record {
  joined = inv.joined;
  carried = extend_nothing l.sent ∙ inv.carried;
  counted = subst (Counts l.sender) (sym (extend_nothing l.sent)) inv.counted;
}

length-extend :
    (log : Log) (bytes : List ℕ)
    → length (extend log bytes false).partial ≡ length log.partial + length bytes
length-extend log bytes = length-append log.partial bytes

published_write :
    (l : Link) (input : List ℕ) (w : Wrote)
    → Inv l
    → l.sender.sending ≡ true
    → Publishes l.receiver l.delivered l.sender l.ring input 0 w
    → Inv (record l {
      sender = w.sender;
      ring = w.ring;
      sent = extend l.sent (take w.progress.consumed input) w.progress.complete;
    })
published_write l input w inv on p = record {
  joined = p.joined;
  carried =
      ap (λ s. extend s (take w.progress.consumed input) w.progress.complete) (inv.carried)
      ∙ ap
          (λ n.
            extend (absorb_all l.delivered (contents l.ring)) (take n input) w.progress.complete)
          (p.count ∙ zero-add p.taken)
      ∙ sym p.logged;
  counted = elim (p.completes) [
    | inl (complete, _, off) ↦ rw complete (inr (off, refl))
    | inr (open_still, kept, _) ↦ rw open_still (
        inl (
          kept ∙ on,
          omega (
            arith,
            length-extend l.sent (take w.progress.consumed input),
            length-take {0} w.progress.consumed input,
            p.count,
            p.taken_in,
            p.progressed,
            on_Counts l.sender l.sent on inv.counted,
          ),
        ))
  ];
}

discard_nothing : (log : Log) → log.partial ≡ [] → discard log ≡ log
discard_nothing log e = ap (λ t. record { partial = t; messages = log.messages }) (sym e)

aborted_Inv :
    (l : Link) (sender : Sender) (ring : Ring)
    → sender ≡ record (l.sender) { sending = false }
    → Joined l.receiver sender ring
    → discard l.sent ≡ absorb_all l.delivered (contents ring)
    → Inv (record l { sender = sender; ring = ring; sent = discard l.sent })
aborted_Inv l sender ring off joined carried = record {
  joined = joined;
  carried = carried;
  counted = inr (ap (λ s. s.sending) off, refl);
}

call-Inv : (l : Link) (c : Call) → IsCall c → Inv l → Inv (call l c)
unfolding call
call-Inv l (starts message_len) small inv = record {
  joined = start-Joined l.receiver l.delivered l.sender l.ring message_len small inv.joined;
  carried = inv.carried;
  counted = start-Counts l.sender message_len l.sent inv.counted;
}
call-Inv l (writes input) small inv =
    elim (try_write_lem l.receiver l.delivered l.sender l.ring input inv.joined) [
      | inl (_, e) ↦ rw e (refused_write l input inv)
      | inr (inl (_, _, e)) ↦ rw e (refused_write l input inv)
      | inr (inr (on, _, p)) ↦ published_write l input (try_write l.sender l.ring input) inv on p
    ]
call-Inv l aborts small inv =
    elim (try_abort_lem l.receiver l.delivered l.sender l.ring inv.joined) [
      | inl (_, code, same, ring) ↦ rw (code, same, ring) inv
      | inr (inl (_, _, code, same, ring, _)) ↦ rw (code, same, ring) inv
      | inr (inr (on, code, off, joined, inl (none_yet, ring))) ↦ rw code (
          aborted_Inv l _ _ off joined (
            discard_nothing l.sent
              (unpublished_partial l.sender l.sent on none_yet inv.joined.sound inv.counted)
            ∙ inv.carried
            ∙ ap (λ r. absorb_all l.delivered (contents r)) (sym ring)))
      | inr (inr (on, code, off, joined, inr (part, logged))) ↦
          rw code (aborted_Inv l _ _ off joined (ap discard (inv.carried) ∙ sym logged))
    ]
call-Inv l peeks small inv = record {
  joined =
      subst (λ r. Joined r l.sender l.ring)
        (sym (peek_meta-Peeks l.receiver l.sender l.ring inv.joined).1) inv.joined;
  carried = inv.carried;
  counted = inv.counted;
}
call-Inv l (reads output_len) small inv =
    let r = try_read l.receiver l.ring output_len in
    let p = try_read-Reads l.sender output_len l.receiver l.delivered l.ring inv.joined in
    record {
      joined = p.joined;
      carried = inv.carried ∙ read_carried l.sender l.delivered l.receiver l.ring r p;
      counted = inv.counted;
    }

pub connect-Inv : (ring : Ring) (direction : ℕ) → Inv (connect ring direction)
unfolding connect receiver_init sender_init
connect-Inv ring direction = record {
  joined = record {
    valid = initialize-IsValid ring direction;
    sound = (omega arith, inl refl);
    live = λ e. cc;
    after = receiver_init;
    accepts = rw (contents-initialize ring direction) refl;
    agrees = inr (refl, refl);
  };
  carried = rw (contents-initialize ring direction) refl;
  counted = inr (refl, refl);
}

pub run-Inv : (l : Link) (cs : List Call) → All IsCall cs → Inv l → Inv (run l cs)
unfolding run
run-Inv l [] small inv = inv
run-Inv l (c ∷ cs) small inv = run-Inv (call l c) cs small.1 (call-Inv l c small.0 inv)

absorb-messages :
    (log : Log) (frame : Frame)
    → (more : List (List ℕ)) × ((absorb log frame).messages ≡ log.messages ++ more)
absorb-messages log frame = elim (Bool-cases frame.abort) [
  | inl a ↦ ([], rw a (sym (append-nil log.messages)))
  | inr a ↦ elim (Bool-cases frame.last) [
    | inl l ↦ ((log.partial ++ payload frame) ∷ [], rw (a, l))
    | inr l ↦ ([], rw (a, l) (sym (append-nil log.messages)))
  ]
]

-- Slots only add messages.
absorb_slot-messages :
    (log : Log) (slot : Slot)
    → (more : List (List ℕ)) × ((absorb_slot log slot).messages ≡ log.messages ++ more)
absorb_slot-messages log slot = elim (Result-cases (decode_frame slot)) [
  | inl (e, bad) ↦ ([], rw (bad, absorb_slot) (sym (append-nil log.messages)))
  | inr (frame, d) ↦ rw (d, absorb_slot) (absorb-messages log frame)
]

absorb_all-messages :
    (log : Log) (slots : List Slot)
    → (more : List (List ℕ)) × ((absorb_all log slots).messages ≡ log.messages ++ more)
absorb_all-messages log [] = ([], sym (append-nil log.messages))
absorb_all-messages log (slot ∷ slots) =
    let (now, e) = absorb_slot-messages log slot in
    let (later, f) = absorb_all-messages (absorb_slot log slot) slots in
    (now ++ later, f ∙ ap (λ t. t ++ later) e ∙ append_assoc log.messages now later)

-- Over a fresh ring, whatever the two ends' owners call and in whatever order, the receiver meets no
-- protocol error, and the messages delivered are the first of the messages sent: whole, unchanged
-- and in order.
pub messages_delivered :
    (ring : Ring) (direction : ℕ) (cs : List Call)
    → All IsCall cs
    → let l = run (connect ring direction) cs in
      (l.receiver.state ≢ ReceiverState.failed_state)
      × (later : List (List ℕ)) × (l.sent.messages ≡ l.delivered.messages ++ later)
messages_delivered ring direction cs small =
    let l = run (connect ring direction) cs in
    let inv = run-Inv (connect ring direction) cs small (connect-Inv ring direction) in
    let (later, e) = absorb_all-messages l.delivered (contents l.ring) in
    (inv.joined.live, later, ap (λ s. s.messages) (inv.carried) ∙ e)

-- Once the ring is empty all messages sent are delivered, and the two ends agree on the bytes of the
-- message under way.
pub messages_drained :
    (ring : Ring) (direction : ℕ) (cs : List Call)
    → All IsCall cs
    → contents (run (connect ring direction) cs).ring ≡ []
    → (run (connect ring direction) cs).sent ≡ (run (connect ring direction) cs).delivered
messages_drained ring direction cs small empty =
    let l = run (connect ring direction) cs in
    let inv = run-Inv (connect ring direction) cs small (connect-Inv ring direction) in
    inv.carried ∙ ap (absorb_all l.delivered) empty
