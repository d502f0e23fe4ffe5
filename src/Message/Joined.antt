-- ===== src/Message/Joined.antt =====
-- A sender and a receiver of ivc/message.c at the two ends of one ring: what the slots in between
-- mean for the receiver, and which messages they carry.
use axvisor_tools.Common.{
  ℕ, ◌^◌, ◌<◌, ◌≡◌, ◌≢◌, ◌⊎◌, refl, ◌∙◌, ap, Bool, true, false, ◌&&◌, List, [], ◌∷◌, ◌++◌,
  if◌then◌else◌, length, done, failed,
}
use axvisor_tools.Ring.Defs.{Ring, Slot, axivc_slot_size}
use axvisor_tools.Ring.Inv.{IsValid}
use axvisor_tools.Ring.Refine.{contents}
use axvisor_tools.Message.Frame.{Frame, decode_frame, payload}
use axvisor_tools.Message.Sender.{Sender}
use axvisor_tools.Message.Receiver.{Receiver, ReceiverState, Transition, validate_transition, apply}

-- The receiver takes these slots one after the other without an error, and ends as `after`.
abbrev pub Accepts : Receiver → List Slot → Receiver → Type 0
Accepts receiver [] after = receiver ≡ after
Accepts receiver (slot ∷ slots) after =
    (length slot ≡ axivc_slot_size)
    × (frame : Frame) × (decode_frame slot ≡ done frame)
    × (transition : Transition) × (validate_transition receiver frame ≡ done transition)
    × Accepts (apply receiver transition) slots after

pub Accepts-snoc :
    (receiver : Receiver) (slots : List Slot) (after : Receiver) (slot : Slot) (frame : Frame)
    (transition : Transition)
    → Accepts receiver slots after
    → length slot ≡ axivc_slot_size
    → decode_frame slot ≡ done frame
    → validate_transition after frame ≡ done transition
    → Accepts receiver (slots ++ (slot ∷ [])) (apply after transition)
Accepts-snoc receiver [] after slot frame transition a n d v = (
  n,
  frame,
  d,
  transition,
  ap (λ r. validate_transition r frame) a ∙ v,
  ap (λ r. apply r transition) a,
)
Accepts-snoc receiver (s ∷ slots) after slot frame transition a n d v = (
  a.0,
  a.1,
  a.2,
  a.3,
  a.4,
  Accepts-snoc (apply receiver a.3) slots after slot frame transition a.5 n d v,
)

-- Where the receiver will stand once it has taken every published slot: in the middle of the
-- sender's message if a part of it is published, and idle otherwise.
abbrev pub Matches : Sender → Receiver → Type 0
Matches sender after =
    ((sender.sending && sender.published_any ≡ true)
      × (after.state ≡ ReceiverState.receiving)
      × (after.active ≡ sender.active)
      × (after.received ≡ sender.sent))
    ⊎ ((sender.sending && sender.published_any ≡ false) × (after.state ≡ ReceiverState.idle))

-- What holds of a sender between calls: an active message has a lawful id and length, and is
-- partly published exactly when some, and not all, of its bytes are sent.
abbrev pub IsActive : Sender → Type 0
IsActive sender =
    (sender.sending ≡ true)
    × (sender.active.id ≢ 0)
    × (sender.active.id < 2 ^ 64)
    × (sender.active.len < 2 ^ 64)
    × (((sender.published_any ≡ false) × (sender.sent ≡ 0))
        ⊎ ((sender.published_any ≡ true) × (0 < sender.sent) × (sender.sent < sender.active.len)))

abbrev pub IsSound : Sender → Type 0
IsSound sender = (sender.next_message_id < 2 ^ 64) × ((sender.sending ≡ false) ⊎ IsActive sender)

-- The two ends and the ring agree.
pub record Joined (receiver : Receiver) (sender : Sender) (ring : Ring) : Type 0 where
  pub valid : IsValid ring
  pub sound : IsSound sender
  pub live : receiver.state ≢ ReceiverState.failed_state
  pub after : Receiver
  pub accepts : Accepts receiver (contents ring) after
  pub agrees : Matches sender after

-- The bytes of the message under way, and the messages that are complete.
pub record Log : Type 0 where
  pub partial : List ℕ
  pub messages : List (List ℕ)

-- Bytes go to the message under way, and may complete it.
abbrev pub extend : Log → List ℕ → Bool → Log
extend log bytes complete =
    if complete
    then record { partial = []; messages = log.messages ++ ((log.partial ++ bytes) ∷ []) }
    else record { partial = log.partial ++ bytes; messages = log.messages }

-- An abort drops the message under way.
abbrev pub discard : Log → Log
discard log = record { partial = []; messages = log.messages }

abbrev pub absorb : Log → Frame → Log
absorb log frame = if frame.abort then discard log else extend log (payload frame) frame.last

abbrev pub absorb_slot : Log → Slot → Log
absorb_slot log slot = elim (decode_frame slot) [ failed e ↦ log | done frame ↦ absorb log frame ]

-- The log after the receiver has taken these slots too.
abbrev pub absorb_all : Log → List Slot → Log
absorb_all log [] = log
absorb_all log (slot ∷ slots) = absorb_all (absorb_slot log slot) slots

pub absorb_all_snoc :
    (log : Log) (slots : List Slot) (slot : Slot)
    → absorb_all log (slots ++ (slot ∷ [])) ≡ absorb_slot (absorb_all log slots) slot
absorb_all_snoc log [] slot = refl
absorb_all_snoc log (s ∷ slots) slot = absorb_all_snoc (absorb_slot log s) slots slot
