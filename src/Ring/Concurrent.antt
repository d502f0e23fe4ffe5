-- ===== src/Ring/Concurrent.antt =====
-- ivc/ring.c with one producer and one consumer that run side by side: every access of shared
-- memory in `axivc_ring_try_push_slot`, `axivc_ring_try_peek_slot` and `axivc_ring_pop_slot` is a
-- step of its own. The acquire and release accesses of the source are what lets these steps be taken
-- in one order. `sent` and `received` record what was published and consumed.
use axvisor_tools.Common.{Bool, ℕ, List, [], ◌∷◌, ◌++◌, leb, ◌==◌, if◌then◌else◌, get_or, set}
use axvisor_tools.Ring.Defs.{
  Ring, Slot, axivc_ring_capacity, sub_u32, slot_index, next_counter, initialize,
}

-- Where the producer stands: outside, or in a push with `tail` read, with room seen, with the slot
-- written and not yet published.
pub data Producer : Type 0 where
  idle : Producer
  loaded : Slot → ℕ → Producer
  room : Slot → ℕ → Producer
  written : Slot → ℕ → Producer

-- Where the consumer stands: outside, in a peek with `head` read, with a published slot seen, with
-- the slot copied, or in a pop with `head` read again.
pub data Consumer : Type 0 where
  idle : Consumer
  loaded : ℕ → Consumer
  ready : ℕ → Consumer
  copied : Slot → Consumer
  popping : Slot → ℕ → Consumer

pub record World : Type 0 where
  pub ring : Ring
  pub producer : Producer
  pub consumer : Consumer
  pub sent : List Slot
  pub received : List Slot

-- The producer's next access; an idle one begins to push `slot`.
unfoldable pub produce_at : Producer → Slot → World → World
produce_at Producer.idle slot w = record w { producer = Producer.loaded slot w.ring.tail }
produce_at (Producer.loaded s tail) slot w =
    if leb axivc_ring_capacity (sub_u32 tail w.ring.head)
    then record w { producer = Producer.idle }
    else record w { producer = Producer.room s tail }
produce_at (Producer.room s tail) slot w = record w {
  ring = record (w.ring) { slots = set w.ring.slots (slot_index tail) s };
  producer = Producer.written s tail;
}
produce_at (Producer.written s tail) slot w = record w {
  ring = record (w.ring) { tail = next_counter tail };
  producer = Producer.idle;
  sent = w.sent ++ (s ∷ []);
}

-- The consumer's next access; one that has copied a slot pops it or leaves it at the head.
unfoldable pub consume_at : Consumer → Bool → World → World
consume_at Consumer.idle keep w = record w { consumer = Consumer.loaded w.ring.head }
consume_at (Consumer.loaded head) keep w =
    if head == w.ring.tail
    then record w { consumer = Consumer.idle }
    else record w { consumer = Consumer.ready head }
consume_at (Consumer.ready head) keep w = record w {
  consumer = Consumer.copied (get_or w.ring.slots (slot_index head) []);
}
consume_at (Consumer.copied s) keep w =
    if keep
    then record w { consumer = Consumer.popping s w.ring.head }
    else record w { consumer = Consumer.idle }
consume_at (Consumer.popping s head) keep w = record w {
  ring = record (w.ring) { head = next_counter head };
  consumer = Consumer.idle;
  received = w.received ++ (s ∷ []);
}

-- Whose turn it is, with what an idle producer sends and whether the consumer keeps its copy.
pub data Turn : Type 0 where
  produce : Slot → Turn
  consume : Bool → Turn

unfoldable pub step : World → Turn → World
unfolding produce_at consume_at
step w (produce slot) = produce_at w.producer slot w
step w (consume keep) = consume_at w.consumer keep w

-- A schedule: who moves, in order.
unfoldable pub run : World → List Turn → World
run w [] = w
run w (t ∷ ts) = run (step w t) ts

unfoldable pub start : Ring → ℕ → World
start ring direction = record {
  ring = initialize ring direction;
  producer = Producer.idle;
  consumer = Consumer.idle;
  sent = [];
  received = [];
}
