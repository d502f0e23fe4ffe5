-- ===== src/Ring/Interleaved.antt =====
-- What holds under every schedule of ivc/ring.c's two sides.
use axvisor_tools.Common.{
  ℕ, Bool, true, false, ◌≡◌, ◌≢◌, ◌≤◌, refl, sym, subst, ap, ◌∙◌, inl, inr, arith, List, [], ◌∷◌,
  ◌++◌, append_assoc, length, get_or-set_self, leb, ◌==◌, Bool-cases,
}
use axvisor_tools.Ring.Defs.{Ring, Slot, axivc_ring_capacity, sub_u32, slot_index}
use axvisor_tools.Ring.Inv.{IsValid, initialize-IsValid}
use axvisor_tools.Ring.Refine.{contents, length-window, contents-initialize}
use axvisor_tools.Ring.Concurrent.{
  Producer, Consumer, World, Turn, produce, consume, produce_at, consume_at, step, run, start,
}
use axvisor_tools.Ring.Accesses.{
  Produces, Consumes, release, fill-IsValid, contents-fill, Consumes-fill, publish-IsValid,
  contents-publish, Consumes-publish, release-IsValid, contents-release, Produces-release,
}

pub record Inv (w : World) : Type 0 where
  pub valid : IsValid w.ring
  pub split : w.sent ≡ w.received ++ contents w.ring
  pub producing : Produces w.ring w.producer
  pub consuming : Consumes w.ring w.consumer

produce_at-Inv :
    (w : World) (p : Producer) (slot : Slot) → Inv w → Produces w.ring p → Inv (produce_at p slot w)
unfolding produce_at
produce_at-Inv w Producer.idle slot inv k = record {
  valid = inv.valid;
  split = inv.split;
  producing = refl;
  consuming = inv.consuming;
}
produce_at-Inv w (Producer.loaded s tail) slot inv k =
    elim (Bool-cases (leb axivc_ring_capacity (sub_u32 tail w.ring.head))) [
      | inl full ↦ rw full (record {
        valid = inv.valid;
        split = inv.split;
        producing = tt;
        consuming = inv.consuming;
      })
      | inr free ↦ rw free (record {
        valid = inv.valid;
        split = inv.split;
        producing = (k, ground arith);
        consuming = inv.consuming;
      })
    ]
produce_at-Inv w (Producer.room s tail) slot inv k = rw (k.0) (record {
  valid = fill-IsValid inv.valid s;
  split = rw (contents-fill inv.valid s k.1) (inv.split);
  producing = (
    refl,
    k.1,
    get_or-set_self w.ring.slots (slot_index w.ring.tail) s []
        (rw (inv.valid.storage) (omega arith)),
  );
  consuming = Consumes-fill inv.valid w.consumer s k.1 inv.consuming;
})
produce_at-Inv w (Producer.written s tail) slot inv k = rw (k.0) (record {
  valid = publish-IsValid inv.valid k.1;
  split =
      rw (inv.split, contents-publish inv.valid k.1, ← k.2, k.0)
        (append_assoc w.received (contents w.ring) _);
  producing = tt;
  consuming = Consumes-publish inv.valid w.consumer k.1 inv.consuming;
})

consume_at-Inv :
    (w : World) (c : Consumer) (keep : Bool) → Inv w → Consumes w.ring c → Inv (consume_at c keep w)
unfolding consume_at
consume_at-Inv w Consumer.idle keep inv k = record {
  valid = inv.valid;
  split = inv.split;
  producing = inv.producing;
  consuming = refl;
}
consume_at-Inv w (Consumer.loaded head) keep inv k = elim (Bool-cases (head == w.ring.tail)) [
  | inl empty ↦
      rw empty
        (record { valid = inv.valid; split = inv.split; producing = inv.producing; consuming = tt })
  | inr more ↦ rw more (record {
    valid = inv.valid;
    split = inv.split;
    producing = inv.producing;
    consuming = (k, ground arith);
  })
]
consume_at-Inv w (Consumer.ready head) keep inv k = record {
  valid = inv.valid;
  split = inv.split;
  producing = inv.producing;
  consuming = (k.1, rw (k.0));
}
consume_at-Inv w (Consumer.copied s) true inv k = record {
  valid = inv.valid;
  split = inv.split;
  producing = inv.producing;
  consuming = (refl, k.0, k.1);
}
consume_at-Inv w (Consumer.copied s) false inv k = record {
  valid = inv.valid;
  split = inv.split;
  producing = inv.producing;
  consuming = tt;
}
consume_at-Inv w (Consumer.popping s head) keep inv k = rw (k.0) (record {
  valid = release-IsValid inv.valid k.1;
  split =
      inv.split
      ∙ ap (λ t. w.received ++ t) (contents-release inv.valid k.1)
      ∙ rw (k.2) (sym (append_assoc w.received (s ∷ []) (contents (release w.ring))));
  producing = Produces-release inv.valid w.producer k.1 inv.producing;
  consuming = tt;
})

-- Every access of either side keeps the invariant.
pub step-Inv : (w : World) (t : Turn) → Inv w → Inv (step w t)
unfolding step
step-Inv w (produce slot) inv = produce_at-Inv w w.producer slot inv inv.producing
step-Inv w (consume keep) inv = consume_at-Inv w w.consumer keep inv inv.consuming

pub run-Inv : (w : World) (ts : List Turn) → Inv w → Inv (run w ts)
unfolding run
run-Inv w [] inv = inv
run-Inv w (t ∷ ts) inv = run-Inv (step w t) ts (step-Inv w t inv)

start-Inv : (ring : Ring) (direction : ℕ) → Inv (start ring direction)
unfolding start
start-Inv ring direction = record {
  valid = initialize-IsValid ring direction;
  split = sym (contents-initialize ring direction);
  producing = tt;
  consuming = tt;
}

-- Under every schedule the slots consumed so far and the slots in the ring are, in order, the slots
-- published: none is lost, doubled, reordered, or read half-written.
pub run_fifo :
    (ring : Ring) (direction : ℕ) (ts : List Turn)
    → let w = run (start ring direction) ts in
      (w.sent ≡ w.received ++ contents w.ring) × (length (contents w.ring) ≤ axivc_ring_capacity)
run_fifo ring direction ts =
    let inv = run-Inv (start ring direction) ts (start-Inv ring direction) in
    (inv.split, omega (arith, length-window _ _ _))

-- While the producer is about to write a slot and the consumer is about to copy one, the two stand
-- at different places of the array.
pub run_no_race :
    (ring : Ring) (direction : ℕ) (ts : List Turn) (slot : Slot) (tail head : ℕ)
    → (run (start ring direction) ts).producer ≡ Producer.room slot tail
    → (run (start ring direction) ts).consumer ≡ Consumer.ready head
    → slot_index tail ≢ slot_index head
run_no_race ring direction ts slot tail head p c =
    let w = run (start ring direction) ts in
    let inv = run-Inv (start ring direction) ts (start-Inv ring direction) in
    let at_tail : Produces w.ring (Producer.room slot tail) =
      subst (Produces w.ring) p inv.producing in
    let at_head : Consumes w.ring (Consumer.ready head) = subst (Consumes w.ring) c inv.consuming in
    omega (arith, inv.valid, at_tail, at_head)
