-- ===== src/Ring/Defs.antt =====
-- ivc/ring.c and ivc/includes/ring.h: the single-producer, single-consumer ring of opaque slots.
-- A function that changes `*ring` returns the new ring. `reserved` is never read or written and has
-- no field here. The loads and stores of one call are taken together in this file; `Concurrent`
-- takes them apart.
use axvisor_tools.Common.{
  ℕ, ◌+◌, ◌-◌, ◌%◌, ◌^◌, Bool, true, false, Option, none, some, List, [], leb, ◌==◌, if◌then◌else◌,
  get_or, set, replicate,
}

abbrev pub axivc_slot_size : ℕ
axivc_slot_size = 256

abbrev pub axivc_ring_capacity : ℕ
axivc_ring_capacity = 32

-- The bytes of one slot.
abbrev pub Slot : Type 0
Slot = List ℕ

-- Arithmetic on `u32`.
abbrev pub u32 : ℕ → ℕ
u32 n = n % 2 ^ 32

abbrev pub sub_u32 : ℕ → ℕ → ℕ
sub_u32 a b = u32 (a + 2 ^ 32 - b)

pub record Ring : Type 0 where
  pub direction : ℕ
  pub capacity : ℕ
  pub slot_size : ℕ
  pub head : ℕ
  pub tail : ℕ
  pub slots : List Slot

-- The slots after `memset(ring->slots, 0, sizeof(ring->slots))`.
unfoldable pub zero_slots : List Slot
zero_slots = replicate axivc_ring_capacity (replicate axivc_slot_size 0)

unfoldable pub initialize : Ring → ℕ → Ring
initialize ring direction = record {
  direction = direction;
  capacity = axivc_ring_capacity;
  slot_size = axivc_slot_size;
  head = 0;
  tail = 0;
  slots = zero_slots;
}

-- The index of the array that a counter stands for.
abbrev pub slot_index : ℕ → ℕ
slot_index counter = counter % axivc_ring_capacity

-- The counter that `head` and `tail` are moved on to.
abbrev pub next_counter : ℕ → ℕ
next_counter counter = u32 (counter + 1)

unfoldable pub try_push_slot : Ring → Slot → Bool × Ring
try_push_slot ring slot =
    if leb axivc_ring_capacity (sub_u32 ring.tail ring.head) then (false, ring) else (
      true,
      record ring {
        slots = set ring.slots (slot_index ring.tail) slot;
        tail = next_counter ring.tail;
      },
    )

-- `none` where the function returns false and leaves its output alone.
unfoldable pub try_peek_slot : Ring → Option Slot
try_peek_slot ring =
    if ring.head == ring.tail then none else some (get_or ring.slots (slot_index ring.head) [])

unfoldable pub pop_slot : Ring → Ring
pop_slot ring = record ring { head = next_counter ring.head }
