-- ===== src/Ring/Tests.antt =====
-- Concrete runs of the ring, and its theorems at concrete inputs.
use axvisor_tools.Common.{
  ◌≡◌, ◌≢◌, ◌≤◌, refl, arith, true, none, some, List, [], ◌∷◌, ◌++◌, length, replicate,
}
use axvisor_tools.Ring.Defs.{
  Ring, axivc_ring_capacity, slot_index, initialize, try_push_slot, try_peek_slot, pop_slot,
}
use axvisor_tools.Ring.Inv.{IsValid, try_push_slot-IsValid, pop_slot-IsValid}
use axvisor_tools.Ring.Refine.{contents, push_refines}
use axvisor_tools.Ring.Concurrent.{Turn, produce, consume, produce_at, consume_at, step, run, start}
use axvisor_tools.Ring.Interleaved.{run_fifo, run_no_race}
use axvisor_tools.Ring.Fifo

-- One slot stands in the last place of the array, and the next counter wraps to 0.
abbrev at_wrap : Ring
at_wrap = record {
  direction = 1;
  capacity = 32;
  slot_size = 256;
  head = 0xffff_fffe;
  tail = 0xffff_ffff;
  slots = replicate 32 (7 ∷ []);
}

at_wrap-IsValid : IsValid at_wrap
at_wrap-IsValid = record {
  head_fits = omega arith;
  tail_fits = omega arith;
  room = omega arith;
  storage = refl;
}

wraps : (try_push_slot at_wrap (9 ∷ [])).1.tail ≡ 0
unfolding try_push_slot
wraps = refl

drains : try_peek_slot (pop_slot (try_push_slot at_wrap (9 ∷ [])).1) ≡ some (9 ∷ [])
unfolding try_push_slot try_peek_slot pop_slot
drains = refl

not_empty : try_peek_slot at_wrap ≢ none
unfolding try_peek_slot
not_empty e = cc

try_push_slot-IsValid_example : IsValid (try_push_slot at_wrap (9 ∷ [])).1
try_push_slot-IsValid_example = try_push_slot-IsValid (9 ∷ []) at_wrap-IsValid

pop_slot-IsValid_example : IsValid (pop_slot at_wrap)
pop_slot-IsValid_example = pop_slot-IsValid at_wrap-IsValid not_empty

push_refines_example :
    let (pushed, ring) = try_push_slot at_wrap (9 ∷ []) in
    (pushed, contents ring) ≡ Fifo.push (contents at_wrap) (9 ∷ [])
push_refines_example = push_refines (9 ∷ []) at_wrap-IsValid

-- The producer publishes one slot and has room for a second; the consumer is about to copy.
abbrev schedule : List Turn
schedule =
    produce (5 ∷ [])
    ∷ produce []
    ∷ produce []
    ∷ produce []
    ∷ produce (6 ∷ [])
    ∷ produce []
    ∷ consume true
    ∷ consume true
    ∷ []

run_fifo_example :
    let w = run (start at_wrap 2) schedule in
    (w.sent ≡ w.received ++ contents w.ring) × (length (contents w.ring) ≤ axivc_ring_capacity)
run_fifo_example = run_fifo at_wrap 2 schedule

run_no_race_example : slot_index 1 ≢ slot_index 0
unfolding run step produce_at consume_at start initialize
run_no_race_example = run_no_race at_wrap 2 schedule (6 ∷ []) 1 0 refl refl
