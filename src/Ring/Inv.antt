-- ===== src/Ring/Inv.antt =====
-- The representation invariant of `struct axivc_ring`, kept by every operation of ivc/ring.c.
use axvisor_tools.Common.{ℕ, ◌^◌, ◌≤◌, ◌<◌, ◌≡◌, ◌≢◌, refl, arith, none, length, length-set}
use axvisor_tools.Ring.Defs.{
  Ring, Slot, axivc_ring_capacity, sub_u32, slot_index, zero_slots, initialize, try_push_slot,
  try_peek_slot, pop_slot,
}

-- How many slots are published and not consumed.
abbrev pub used : Ring → ℕ
used ring = sub_u32 ring.tail ring.head

pub record IsValid (ring : Ring) : Type 0 where
  pub head_fits : ring.head < 2 ^ 32
  pub tail_fits : ring.tail < 2 ^ 32
  pub room : used ring ≤ axivc_ring_capacity
  pub storage : length ring.slots ≡ axivc_ring_capacity

pub initialize-IsValid : (ring : Ring) (direction : ℕ) → IsValid (initialize ring direction)
unfolding initialize zero_slots
initialize-IsValid ring direction = record {
  head_fits = omega arith;
  tail_fits = omega arith;
  room = omega arith;
  storage = refl;
}

pub try_push_slot-IsValid :
    {ring : Ring} (slot : Slot) → IsValid ring → IsValid (try_push_slot ring slot).1
unfolding try_push_slot
try_push_slot-IsValid {ring} slot v =
    ground (arith, length-set ring.slots (slot_index ring.tail) slot)

-- `pop_slot` may only follow a successful peek: on an empty ring it would break the invariant.
pub pop_slot-IsValid :
    {ring : Ring} → IsValid ring → try_peek_slot ring ≢ none → IsValid (pop_slot ring)
unfolding pop_slot try_peek_slot
pop_slot-IsValid {ring} v h = ground arith
