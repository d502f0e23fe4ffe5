-- ===== src/Ring/Fifo.antt =====
-- What a ring promises: a queue of at most 32 slots, oldest first.
use axvisor_tools.Common.{
  Bool, true, false, Option, none, some, List, [], ◌∷◌, ◌++◌, ltb, if◌then◌else◌, length,
}
use axvisor_tools.Ring.Defs.{Slot, axivc_ring_capacity}

abbrev pub push : List Slot → Slot → Bool × List Slot
push q slot = if ltb (length q) axivc_ring_capacity then (true, q ++ (slot ∷ [])) else (false, q)

abbrev pub peek : List Slot → Option Slot
peek [] = none
peek (slot ∷ q) = some slot

abbrev pub pop : List Slot → List Slot
pop [] = []
pop (slot ∷ q) = q
