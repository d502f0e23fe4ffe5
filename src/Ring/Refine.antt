-- ===== src/Ring/Refine.antt =====
-- A valid ring is a queue of at most 32 slots, also when the 32-bit counters wrap.
use axvisor_tools.Common.{
  ℕ, zero, suc, ◌+◌, ◌-◌, ◌≤◌, ◌<◌, ◌^◌, ◌≡◌, ◌≢◌, refl, ap, ap₂, ◌∙◌, arith, none, List, [], ◌∷◌,
  ◌++◌, length, get_or, set, get_or-set_self, get_or-set_ne, ◌⊎◌, inl, inr, true, false, leb, some,
  sym, Bool-cases,
}
use axvisor_tools.Ring.Defs.{
  Ring, Slot, axivc_ring_capacity, u32, slot_index, next_counter, initialize, try_push_slot,
  try_peek_slot, pop_slot,
}
use axvisor_tools.Ring.Inv.{IsValid, used, try_push_slot-IsValid, pop_slot-IsValid}
use axvisor_tools.Ring.Fifo

module _ (slots : List Slot) where
  -- The `n` slots from the counter `head` on.
  unfoldable pub window : ℕ → ℕ → List Slot
  window head zero = []
  window head (suc n) = get_or slots (slot_index head) [] ∷ window (next_counter head) n

  pub length-window : (head n : ℕ) → length (window head n) ≡ n
  unfolding window
  length-window head zero = refl
  length-window head (suc n) = ap suc (length-window (next_counter head) n)

  pub window_pos :
      (head n : ℕ)
      → n ≢ 0
      → window head n ≡ get_or slots (slot_index head) [] ∷ window (next_counter head) (n - 1)
  unfolding window
  window_pos head zero p = absurd (p refl)
  window_pos head (suc n) p =
      ap (λ k. get_or slots (slot_index head) [] ∷ window (next_counter head) k) (omega arith)

  -- The last slot of a window of `n + 1`.
  pub window_snoc :
      (n head : ℕ)
      → head < 2 ^ 32
      → window head (suc n) ≡ window head n ++ (get_or slots (slot_index (u32 (head + n))) [] ∷ [])
  unfolding window
  window_snoc zero head h = ap (λ i. get_or slots i [] ∷ []) (omega arith)
  window_snoc (suc n) head h =
      ap (λ t. get_or slots (slot_index head) [] ∷ t)
        (window_snoc n (next_counter head) (omega arith)
          ∙ ap (λ i. window (next_counter head) n ++ (get_or slots i [] ∷ [])) (omega arith))

-- A write to a place behind the window leaves it alone.
pub window-set_outside :
    (slots : List Slot) (slot : Slot) (n m head i : ℕ)
    → i ≡ slot_index (u32 (head + m))
    → n ≤ m
    → m < axivc_ring_capacity
    → window (set slots i slot) head n ≡ window slots head n
unfolding window
window-set_outside slots slot zero m head i e p q = refl
window-set_outside slots slot (suc n) m head i e p q =
    ap₂ ◌∷◌ (get_or-set_ne slots i (slot_index head) slot [] (omega arith)) (
      window-set_outside slots slot n (m - 1) (next_counter head) i (omega arith) (omega arith)
        (omega arith))

-- A write just behind the window extends it.
pub window-set :
    (slots : List Slot) (slot : Slot) (n head i : ℕ)
    → i ≡ slot_index (u32 (head + n))
    → head < 2 ^ 32
    → n < axivc_ring_capacity
    → length slots ≡ axivc_ring_capacity
    → window (set slots i slot) head (suc n) ≡ window slots head n ++ (slot ∷ [])
window-set slots slot n head i e h q s =
    window_snoc (set slots i slot) n head h
    ∙ ap₂ (λ a b. a ++ (b ∷ [])) (window-set_outside slots slot n n head i e (omega arith) q)
        (rw (← e) (get_or-set_self slots i slot [] (omega arith)))

-- The published slots that are not consumed, oldest first.
abbrev pub contents : Ring → List Slot
contents ring = window ring.slots ring.head (used ring)

pub contents-initialize : (ring : Ring) (direction : ℕ) → contents (initialize ring direction) ≡ []
unfolding initialize window
contents-initialize ring direction = refl

-- `try_push_slot` answers as the bounded queue, and holds that queue's slots afterwards.
pub push_refines :
    {ring : Ring} (slot : Slot)
    → IsValid ring
    → let (pushed, ring') = try_push_slot ring slot in
      (pushed, contents ring') ≡ Fifo.push (contents ring) slot
unfolding try_push_slot
push_refines {ring} slot v = ground (
  arith,
  length-window ring.slots ring.head (used ring),
  window-set ring.slots slot (used ring) ring.head (slot_index ring.tail),
)

-- `try_peek_slot` shows the oldest slot, and finds none exactly when the queue is empty.
pub peek_refines : {ring : Ring} → IsValid ring → try_peek_slot ring ≡ Fifo.peek (contents ring)
unfolding try_peek_slot window
peek_refines {ring} v = ground (arith, window_pos ring.slots ring.head (used ring))

-- `pop_slot` after a successful peek removes the oldest slot.
pub pop_refines :
    {ring : Ring}
    → IsValid ring
    → try_peek_slot ring ≢ none
    → contents (pop_slot ring) ≡ Fifo.pop (contents ring)
unfolding pop_slot try_peek_slot
pop_refines {ring} v h = ground (arith, window_pos ring.slots ring.head (used ring))

-- A push is refused by a full ring and leaves it, or appends the slot.
pub push_cases :
    (ring : Ring) (slot : Slot)
    → IsValid ring
    → ((try_push_slot ring slot ≡ (false, ring)) × (length (contents ring) ≡ axivc_ring_capacity))
      ⊎ ((ring' : Ring) × (try_push_slot ring slot ≡ (true, ring'))
          × IsValid ring'
          × (contents ring' ≡ contents ring ++ (slot ∷ [])))
unfolding try_push_slot
push_cases ring slot v = elim (Bool-cases (leb axivc_ring_capacity (used ring))) [
  | inl full ↦ inl (rw full, ground (arith, length-window ring.slots ring.head (used ring)))
  | inr free ↦ inr (
    (try_push_slot ring slot).1,
    rw free,
    try_push_slot-IsValid slot v,
    ground (arith, push_refines slot v, length-window ring.slots ring.head (used ring)),
  )
]

-- A peek finds an empty ring, or the oldest slot, which a pop then removes.
pub peek_cases :
    (ring : Ring)
    → IsValid ring
    → ((try_peek_slot ring ≡ none) × (contents ring ≡ []))
      ⊎ ((slot : Slot) × (try_peek_slot ring ≡ some slot)
          × IsValid (pop_slot ring)
          × (contents ring ≡ slot ∷ contents (pop_slot ring)))
peek_cases ring v = go (contents ring) refl
  where
    go :
        (q : List Slot)
        → contents ring ≡ q
        → ((try_peek_slot ring ≡ none) × (contents ring ≡ []))
          ⊎ ((slot : Slot) × (try_peek_slot ring ≡ some slot)
              × IsValid (pop_slot ring)
              × (contents ring ≡ slot ∷ contents (pop_slot ring)))
    go [] e = inl (peek_refines v ∙ ap Fifo.peek e, e)
    go (slot ∷ q) e =
        let seen : try_peek_slot ring ≡ some slot = peek_refines v ∙ ap Fifo.peek e in
        let found : try_peek_slot ring ≢ none = λ h. cc in
        inr (
          slot,
          seen,
          pop_slot-IsValid v found,
          e ∙ ap (λ t. slot ∷ t) (sym (pop_refines v found ∙ ap Fifo.pop e)),
        )
