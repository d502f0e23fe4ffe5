-- ===== src/Ring/Accesses.antt =====
-- The changes that the two sides make to the ring, and what they leave true of the other side.
use axvisor_tools.Common.{
  ◌≡◌, ◌≢◌, ◌<◌, arith, [], ◌∷◌, ◌++◌, ap, ◌∙◌, set, get_or, length-set, get_or-set_ne,
}
use axvisor_tools.Ring.Defs.{Ring, Slot, axivc_ring_capacity, slot_index, next_counter}
use axvisor_tools.Ring.Inv.{IsValid, used}
use axvisor_tools.Ring.Refine.{contents, window, window_pos, window_snoc, window-set_outside}
use axvisor_tools.Ring.Concurrent.{Producer, Consumer}

-- What the producer's private copies say of the shared ring.
abbrev pub Produces : Ring → Producer → Type 0
Produces ring Producer.idle = Unit {0}
Produces ring (Producer.loaded s tail) = tail ≡ ring.tail
Produces ring (Producer.room s tail) = (tail ≡ ring.tail) × (used ring < axivc_ring_capacity)
Produces ring (Producer.written s tail) =
    (tail ≡ ring.tail)
    × (used ring < axivc_ring_capacity)
    × (get_or ring.slots (slot_index tail) [] ≡ s)

abbrev pub Consumes : Ring → Consumer → Type 0
Consumes ring Consumer.idle = Unit {0}
Consumes ring (Consumer.loaded head) = head ≡ ring.head
Consumes ring (Consumer.ready head) = (head ≡ ring.head) × (used ring ≢ 0)
Consumes ring (Consumer.copied s) =
    (used ring ≢ 0) × (get_or ring.slots (slot_index ring.head) [] ≡ s)
Consumes ring (Consumer.popping s head) =
    (head ≡ ring.head) × (used ring ≢ 0) × (get_or ring.slots (slot_index ring.head) [] ≡ s)

-- The three changes that the sides make to the ring.
abbrev pub fill : Ring → Slot → Ring
fill ring s = record ring { slots = set ring.slots (slot_index ring.tail) s }

abbrev pub publish : Ring → Ring
publish ring = record ring { tail = next_counter ring.tail }

abbrev pub release : Ring → Ring
release ring = record ring { head = next_counter ring.head }

module _ {ring : Ring} (v : IsValid ring) where
  pub fill-IsValid : (s : Slot) → IsValid (fill ring s)
  fill-IsValid s = ground (arith, length-set ring.slots (slot_index ring.tail) s)

  pub contents-fill :
      (s : Slot) → used ring < axivc_ring_capacity → contents (fill ring s) ≡ contents ring
  contents-fill s h =
      window-set_outside ring.slots s (used ring) (used ring) ring.head (slot_index ring.tail)
        (omega arith) (omega arith) h

  pub head-fill :
      (s : Slot)
      → used ring < axivc_ring_capacity
      → used ring ≢ 0
      → get_or (fill ring s).slots (slot_index ring.head) []
        ≡ get_or ring.slots (slot_index ring.head) []
  head-fill s h k =
      get_or-set_ne ring.slots (slot_index ring.tail) (slot_index ring.head) s [] (omega arith)

  pub publish-IsValid : used ring < axivc_ring_capacity → IsValid (publish ring)
  publish-IsValid h = omega arith

  pub contents-publish :
      used ring < axivc_ring_capacity
      → contents (publish ring)
        ≡ contents ring ++ (get_or ring.slots (slot_index ring.tail) [] ∷ [])
  contents-publish h =
      ap (window ring.slots ring.head) (omega arith)
      ∙ window_snoc ring.slots (used ring) ring.head (omega arith)
      ∙ ap (λ i. contents ring ++ (get_or ring.slots i [] ∷ [])) (omega arith)

  pub release-IsValid : used ring ≢ 0 → IsValid (release ring)
  release-IsValid h = omega arith

  pub contents-release :
      used ring ≢ 0
      → contents ring ≡ get_or ring.slots (slot_index ring.head) [] ∷ contents (release ring)
  contents-release h =
      window_pos ring.slots ring.head (used ring) h
      ∙ ap
          (λ n.
            get_or ring.slots (slot_index ring.head) []
            ∷ window ring.slots (next_counter ring.head) n)
          (omega arith)

  pub Consumes-fill :
      (c : Consumer) (s : Slot)
      → used ring < axivc_ring_capacity
      → Consumes ring c
      → Consumes (fill ring s) c
  Consumes-fill Consumer.idle s h k = tt
  Consumes-fill (Consumer.loaded head) s h k = k
  Consumes-fill (Consumer.ready head) s h k = k
  Consumes-fill (Consumer.copied t) s h k = (k.0, head-fill s h k.0 ∙ k.1)
  Consumes-fill (Consumer.popping t head) s h k = (k.0, k.1, head-fill s h k.1 ∙ k.2)

  pub Consumes-publish :
      (c : Consumer) → used ring < axivc_ring_capacity → Consumes ring c → Consumes (publish ring) c
  Consumes-publish Consumer.idle h k = tt
  Consumes-publish (Consumer.loaded head) h k = k
  Consumes-publish (Consumer.ready head) h k = (k.0, omega arith)
  Consumes-publish (Consumer.copied t) h k = (omega arith, k.1)
  Consumes-publish (Consumer.popping t head) h k = (k.0, omega arith, k.2)

  pub Produces-release :
      (p : Producer) → used ring ≢ 0 → Produces ring p → Produces (release ring) p
  Produces-release Producer.idle h k = tt
  Produces-release (Producer.loaded s tail) h k = k
  Produces-release (Producer.room s tail) h k = (k.0, omega arith)
  Produces-release (Producer.written s tail) h k = (k.0, omega arith, k.2)
