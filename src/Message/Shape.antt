-- ===== src/Message/Shape.antt =====
-- Which flags, lengths and payload sizes go together in a frame, and that both directions of the
-- codec of ivc/message.c enforce it.
use axvisor_tools.Common.{ℕ, ◌≤◌, ◌≡◌, ◌≢◌, ◌↔◌, ◌⊎◌, arith, Bool, true, false, List, done, success}
use axvisor_tools.Ring.Defs.{Slot}
use axvisor_tools.Message.Frame.{
  axivc_fragment_capacity, validate_frame_shape, encode_frame, decode_frame, Frame, frame_bytes,
  frame_flags,
}

-- ABORT carries no payload and neither FIRST nor LAST; an empty message is one FIRST|LAST frame with
-- no payload; every other frame carries at least one byte.
abbrev pub HasShape : ℕ → ℕ → Bool → Bool → Bool → Type 0
HasShape message_len fragment_len first last abort =
    ((abort ≡ true) × (first ≡ false) × (last ≡ false) × (fragment_len ≡ 0))
    ⊎ (((abort ≡ false) × (message_len ≡ 0) × (first ≡ true) × (last ≡ true) × (fragment_len ≡ 0))
        ⊎ ((abort ≡ false) × (message_len ≢ 0) × (fragment_len ≢ 0)))

pub shape→HasShape :
    (message_len fragment_len : ℕ) (first last abort : Bool)
    → validate_frame_shape message_len fragment_len first last abort ≡ success
    → HasShape message_len fragment_len first last abort
unfolding validate_frame_shape
shape→HasShape message_len fragment_len first last abort h = ground arith

pub HasShape→shape :
    (message_len fragment_len : ℕ) (first last abort : Bool)
    → HasShape message_len fragment_len first last abort
    → validate_frame_shape message_len fragment_len first last abort ≡ success
unfolding validate_frame_shape
HasShape→shape message_len fragment_len first last abort h = ground arith

-- The guards that a successful `axivc_encode_frame` has passed, and the slot that it wrote.
pub encode_frame-inv :
    (message_id message_len : ℕ) (first last abort : Bool) (fragment : List ℕ) (fragment_len : ℕ)
    (slot : Slot)
    → encode_frame message_id message_len first last abort fragment fragment_len ≡ done slot
    → (message_id ≢ 0)
      × (fragment_len ≤ axivc_fragment_capacity)
      × (validate_frame_shape message_len fragment_len first last abort ≡ success)
      × (slot
          ≡ frame_bytes message_id message_len (frame_flags first last abort) fragment fragment_len)
unfolding encode_frame
encode_frame-inv message_id message_len first last abort fragment fragment_len slot e = ground arith

pub encode_frame_ok :
    (message_id message_len : ℕ) (first last abort : Bool) (fragment : List ℕ) (fragment_len : ℕ)
    → message_id ≢ 0
    → fragment_len ≤ axivc_fragment_capacity
    → validate_frame_shape message_len fragment_len first last abort ≡ success
    → encode_frame message_id message_len first last abort fragment fragment_len
      ≡ done
          (frame_bytes message_id message_len (frame_flags first last abort) fragment fragment_len)
unfolding encode_frame
encode_frame_ok message_id message_len first last abort fragment fragment_len nz cap shape =
    ground arith

-- `axivc_encode_frame` writes a slot exactly when the id is not 0, the fragment fits a slot and the
-- frame has a lawful shape.
pub encode_frame_accepts :
    (message_id message_len : ℕ) (first last abort : Bool) (fragment : List ℕ) (fragment_len : ℕ)
    → ((slot : Slot) × (encode_frame message_id message_len first last abort fragment fragment_len
          ≡ done slot))
      ↔ ((message_id ≢ 0)
          × (fragment_len ≤ axivc_fragment_capacity)
          × HasShape message_len fragment_len first last abort)
encode_frame_accepts message_id message_len first last abort fragment fragment_len = (
  λ e.
      let inv =
        encode_frame-inv message_id message_len first last abort fragment fragment_len e.0 e.1 in
      (inv.0, inv.1, shape→HasShape message_len fragment_len first last abort inv.2),
  λ h. (
    frame_bytes message_id message_len (frame_flags first last abort) fragment fragment_len,
    encode_frame_ok message_id message_len first last abort fragment fragment_len h.0 h.1
        (HasShape→shape message_len fragment_len first last abort h.2),
  ),
)

-- Whatever `axivc_decode_frame` accepts has a nonzero id, a payload that fits a slot and a lawful
-- shape.
pub decode_frame_sound :
    (slot : Slot) (frame : Frame)
    → decode_frame slot ≡ done frame
    → (frame.message_id ≢ 0)
      × (frame.fragment_len ≤ axivc_fragment_capacity)
      × HasShape frame.message_len frame.fragment_len frame.first frame.last frame.abort
unfolding decode_frame
decode_frame_sound slot frame h =
    ground (
      arith,
      shape→HasShape frame.message_len frame.fragment_len frame.first frame.last frame.abort,
    )
