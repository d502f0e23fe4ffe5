-- ===== src/Message/Codec.antt =====
-- The frame codec of ivc/message.c: byte layout and round trip.
use axvisor_tools.Common.{
  ℕ, ◌+◌, ◌-◌, ◌*◌, ◌/◌, ◌%◌, ◌^◌, ◌≤◌, ◌<◌, ◌≡◌, ◌≢◌, refl, ap, ap₂, ◌∙◌, arith, Bool, true, false,
  List, [], ◌∷◌, ◌++◌, inl, inr, bit_and, bit_or, bit_or-disjoint, bit_and-mask, ltb, ◌==◌, not,
  length, take, replicate, copy_at-replicate, length-take, length-append, length-replicate,
  take_all, Bool-cases, done, success,
}
use axvisor_tools.Ring.Defs.{Slot, axivc_slot_size, u32}
use axvisor_tools.Message.Shape.{encode_frame-inv}
use axvisor_tools.Message.Frame.{
  axivc_fragment_capacity, read_le16, read_le32, read_le64, unknown_flags, frame_flag_first,
  frame_flag_last, frame_flag_abort, frame_flags, frame_bytes, encode_frame, decode_frame,
  validate_frame_shape, Frame, payload,
}

-- The bytes of a number, lowest first, as the writers compute them.
abbrev pub le32_bytes : ℕ → List ℕ
le32_bytes v =
    bit_and v 0xff
    ∷ bit_and (v / 2 ^ 8) 0xff
    ∷ bit_and (v / 2 ^ 16) 0xff
    ∷ bit_and (v / 2 ^ 24) 0xff
    ∷ []

abbrev pub le64_bytes : ℕ → List ℕ
le64_bytes v = le32_bytes (bit_and v 0xffff_ffff) ++ le32_bytes (v / 2 ^ 32)

byte_mask : (v : ℕ) → bit_and v 0xff ≡ v % 256
byte_mask v = bit_and-mask 8 v

byte-lt : (v : ℕ) → bit_and v 0xff < 256
byte-lt v = omega (arith, byte_mask v)

join32 :
    (a b c d : ℕ) (rest : List ℕ)
    → a < 256
    → b < 256
    → c < 256
    → read_le32 (a ∷ b ∷ c ∷ d ∷ rest) ≡ a + b * 2 ^ 8 + c * 2 ^ 16 + d * 2 ^ 24
unfolding read_le32
join32 a b c d rest ha hb hc =
    ap (λ t. bit_or (bit_or t (c * 2 ^ 16)) (d * 2 ^ 24)) (bit_or-disjoint 8 a b ha)
    ∙ ap (λ t. bit_or t (d * 2 ^ 24)) (bit_or-disjoint 16 (a + b * 2 ^ 8) c (omega arith))
    ∙ bit_or-disjoint 24 (a + b * 2 ^ 8 + c * 2 ^ 16) d (omega arith)

-- The 32-bit reader gives back what the 32-bit writer stored.
pub read_le32_lem : (v : ℕ) (rest : List ℕ) → v < 2 ^ 32 → read_le32 (le32_bytes v ++ rest) ≡ v
read_le32_lem v rest h =
    join32 _ _ _ _ rest (byte-lt v) (byte-lt (v / 2 ^ 8)) (byte-lt (v / 2 ^ 16))
    ∙ omega
        (arith, byte_mask v, byte_mask (v / 2 ^ 8), byte_mask (v / 2 ^ 16), byte_mask (v / 2 ^ 24))

pub read_le64_lem : (v : ℕ) (rest : List ℕ) → v < 2 ^ 64 → read_le64 (le64_bytes v ++ rest) ≡ v
unfolding read_le64
read_le64_lem v rest h =
    ap₂ (λ lo hi. bit_or lo (hi * 2 ^ 32))
      (read_le32_lem (bit_and v 0xffff_ffff) (le32_bytes (v / 2 ^ 32) ++ rest) low)
      (read_le32_lem (v / 2 ^ 32) rest (omega arith))
    ∙ bit_or-disjoint 32 (bit_and v 0xffff_ffff) (v / 2 ^ 32) low
    ∙ omega (arith, bit_and-mask 32 v)
  where
    low : bit_and v 0xffff_ffff < 2 ^ 32
    low = omega (arith, bit_and-mask 32 v)

-- The fragment and the zeros behind it.
abbrev body : List ℕ → ℕ → List ℕ
body fragment fragment_len =
    take fragment_len fragment ++ replicate (axivc_fragment_capacity - fragment_len) 0

abbrev layout : ℕ → ℕ → ℕ → ℕ → List ℕ → List ℕ
layout message_id message_len flags fragment_len rest =
    1 ∷ flags ∷ 24 ∷ 0 ∷ le32_bytes (u32 fragment_len)
    ++ (le64_bytes message_id ++ (le64_bytes message_len ++ rest))

frame_bytes-layout :
    (message_id message_len flags : ℕ) (fragment : List ℕ) (fragment_len : ℕ)
    → fragment_len ≤ axivc_fragment_capacity
    → fragment_len ≤ length fragment
    → frame_bytes message_id message_len flags fragment fragment_len
      ≡ layout message_id message_len flags fragment_len (body fragment fragment_len)
unfolding frame_bytes
frame_bytes-layout message_id message_len flags fragment fragment_len h k =
    elim (Bool-cases (ltb 0 fragment_len)) [
      | inl more ↦ rw more (
          ap (layout message_id message_len flags fragment_len) (
            copy_at-replicate (take fragment_len fragment) axivc_fragment_capacity 0
              (omega (arith, length-take {0} fragment_len fragment))
            ∙ ap (λ n. take fragment_len fragment ++ replicate (axivc_fragment_capacity - n) 0)
                (omega (arith, length-take {0} fragment_len fragment))))
      | inr empty ↦
          let e : fragment_len ≡ 0 = ground arith in
          rw empty (ap (layout message_id message_len flags fragment_len) (rw e))
    ]

-- What the flag byte says of the three flags.
abbrev FlagsSay : ℕ → Bool → Bool → Bool → Type 0
FlagsSay flags first last abort =
    (bit_and flags unknown_flags ≡ 0)
    × (not (bit_and flags frame_flag_first == 0) ≡ first)
    × (not (bit_and flags frame_flag_last == 0) ≡ last)
    × (not (bit_and flags frame_flag_abort == 0) ≡ abort)

frame_flags-FlagsSay :
    (first last abort : Bool) → FlagsSay (frame_flags first last abort) first last abort
unfolding frame_flags
frame_flags-FlagsSay true true true = (refl, refl, refl, refl)
frame_flags-FlagsSay true true false = (refl, refl, refl, refl)
frame_flags-FlagsSay true false true = (refl, refl, refl, refl)
frame_flags-FlagsSay true false false = (refl, refl, refl, refl)
frame_flags-FlagsSay false true true = (refl, refl, refl, refl)
frame_flags-FlagsSay false true false = (refl, refl, refl, refl)
frame_flags-FlagsSay false false true = (refl, refl, refl, refl)
frame_flags-FlagsSay false false false = (refl, refl, refl, refl)

-- The frame that a slot of that layout decodes to.
abbrev pub framed : ℕ → ℕ → Bool → Bool → Bool → List ℕ → ℕ → Frame
framed message_id message_len first last abort fragment fragment_len = record {
  message_id = message_id;
  message_len = message_len;
  fragment = body fragment fragment_len;
  fragment_len = fragment_len;
  first = first;
  last = last;
  abort = abort;
}

decode_layout :
    (message_id message_len flags fragment_len : ℕ) (first last abort : Bool) (fragment : List ℕ)
    → message_id < 2 ^ 64
    → message_len < 2 ^ 64
    → message_id ≢ 0
    → fragment_len ≤ axivc_fragment_capacity
    → FlagsSay flags first last abort
    → validate_frame_shape message_len fragment_len first last abort ≡ success
    → decode_frame (layout message_id message_len flags fragment_len (body fragment fragment_len))
      ≡ done (framed message_id message_len first last abort fragment fragment_len)
unfolding decode_frame read_le16
decode_layout message_id message_len flags fragment_len first last abort fragment hi hl nz cap say
      shape =
    ground (
      arith,
      read_le32_lem (u32 fragment_len)
          (le64_bytes message_id ++ (le64_bytes message_len ++ body fragment fragment_len)),
      read_le64_lem message_id (le64_bytes message_len ++ body fragment fragment_len),
      read_le64_lem message_len (body fragment fragment_len),
    )

length-layout :
    (message_id message_len flags fragment_len : ℕ) (fragment : List ℕ)
    → fragment_len ≤ axivc_fragment_capacity
    → fragment_len ≤ length fragment
    → length (layout message_id message_len flags fragment_len (body fragment fragment_len))
      ≡ axivc_slot_size
length-layout message_id message_len flags fragment_len fragment h k = omega (
  arith,
  length-append {0} (take fragment_len fragment)
      (replicate (axivc_fragment_capacity - fragment_len) 0),
  length-take {0} fragment_len fragment,
  length-replicate {0} {A = ℕ} (axivc_fragment_capacity - fragment_len) 0,
)

take_body :
    (fragment : List ℕ) (fragment_len : ℕ)
    → fragment_len ≤ length fragment
    → take fragment_len (body fragment fragment_len) ≡ take fragment_len fragment
take_body fragment fragment_len k =
    ap (λ n. take n (body fragment fragment_len))
      (omega (arith, length-take {0} fragment_len fragment))
    ∙ take_all (take fragment_len fragment) _

-- What `axivc_encode_frame` accepts fills exactly one slot, and `axivc_decode_frame` reads the same
-- header fields and the same payload bytes back from it.
pub decode-encode :
    (message_id message_len : ℕ) (first last abort : Bool) (fragment : List ℕ) (fragment_len : ℕ)
    {slot : Slot}
    → message_id < 2 ^ 64
    → message_len < 2 ^ 64
    → fragment_len ≤ length fragment
    → encode_frame message_id message_len first last abort fragment fragment_len ≡ done slot
    → let frame = framed message_id message_len first last abort fragment fragment_len in
      (length slot ≡ axivc_slot_size)
      × (decode_frame slot ≡ done frame)
      × (payload frame ≡ take fragment_len fragment)
decode-encode message_id message_len first last abort fragment fragment_len {slot} hi hl k e =
    let inv =
      encode_frame-inv message_id message_len first last abort fragment fragment_len slot e in
    let flags = frame_flags first last abort in
    let laid : slot
        ≡ layout message_id message_len flags fragment_len (body fragment fragment_len) =
      inv.3 ∙ frame_bytes-layout message_id message_len flags fragment fragment_len inv.1 k in
    (
      ap length laid ∙ length-layout message_id message_len flags fragment_len fragment inv.1 k,
      ap decode_frame laid
          ∙ decode_layout message_id message_len flags fragment_len first last abort fragment hi hl
              inv.0 inv.1 (frame_flags-FlagsSay first last abort) inv.2,
      take_body fragment fragment_len k,
    )
