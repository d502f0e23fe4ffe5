-- ===== src/Message/Frame.antt =====
-- The frame codec of ivc/message.c: byte order, shape, `axivc_encode_frame`, `axivc_decode_frame`.
-- A byte is a number below 256. A buffer is the list of its bytes from the pointer on.
use axvisor_tools.Common.{
  ℕ, ◌+◌, ◌-◌, ◌*◌, ◌/◌, ◌^◌, Bool, ◌||◌, not, List, bit_and, bit_or, ltb, ◌==◌, if◌then◌else◌,
  get_or, set, take, drop, replicate, copy_at, Result, done, failed, Code, success, reject_if, ◌>>◌,
}
use axvisor_tools.Common.{eproto, eprotonosupport}
use axvisor_tools.Ring.Defs.{Slot, axivc_slot_size, u32}

abbrev pub axivc_v1_header_len : ℕ
axivc_v1_header_len = 24

abbrev pub axivc_fragment_capacity : ℕ
axivc_fragment_capacity = axivc_slot_size - axivc_v1_header_len

abbrev pub frame_flag_first : ℕ
frame_flag_first = 1

abbrev pub frame_flag_last : ℕ
frame_flag_last = 2

abbrev pub frame_flag_abort : ℕ
frame_flag_abort = 4

-- `KNOWN_FLAGS` complemented in 32 bits, as `flags & ~KNOWN_FLAGS` does.
abbrev pub unknown_flags : ℕ
unknown_flags = 2 ^ 32 - 1 - (frame_flag_first + frame_flag_last + frame_flag_abort)

abbrev pub byte_at : List ℕ → ℕ → ℕ
byte_at p i = get_or p i 0

unfoldable pub read_le16 : List ℕ → ℕ
read_le16 p = bit_or (byte_at p 0) (byte_at p 1 * 2 ^ 8)

unfoldable pub read_le32 : List ℕ → ℕ
read_le32 p =
    bit_or (bit_or (bit_or (byte_at p 0) (byte_at p 1 * 2 ^ 8)) (byte_at p 2 * 2 ^ 16))
      (byte_at p 3 * 2 ^ 24)

unfoldable pub read_le64 : List ℕ → ℕ
unfolding read_le32
read_le64 p = bit_or (read_le32 p) (read_le32 (drop 4 p) * 2 ^ 32)

-- The writers store at `buf + p`.
unfoldable pub write_le16 : List ℕ → ℕ → ℕ → List ℕ
write_le16 buf p value = set (set buf p (bit_and value 0xff)) (p + 1) (bit_and (value / 2 ^ 8) 0xff)

unfoldable pub write_le32 : List ℕ → ℕ → ℕ → List ℕ
write_le32 buf p value =
    set
      (set (set (set buf p (bit_and value 0xff)) (p + 1) (bit_and (value / 2 ^ 8) 0xff)) (p + 2)
        (bit_and (value / 2 ^ 16) 0xff))
      (p + 3) (bit_and (value / 2 ^ 24) 0xff)

unfoldable pub write_le64 : List ℕ → ℕ → ℕ → List ℕ
unfolding write_le32
write_le64 buf p value =
    write_le32 (write_le32 buf p (bit_and value 0xffff_ffff)) (p + 4) (value / 2 ^ 32)

unfoldable pub validate_frame_shape : ℕ → ℕ → Bool → Bool → Bool → Code
validate_frame_shape message_len fragment_len first last abort =
    if abort
    then (if first || last || not (fragment_len == 0) then failed eproto else success)
    else if message_len == 0
    then (if not first || not last || not (fragment_len == 0) then failed eproto else success)
    else if fragment_len == 0
    then failed eproto
    else success

-- `flags` after the three `|=`.
unfoldable pub frame_flags : Bool → Bool → Bool → ℕ
frame_flags first last abort =
    let with_first = if first then bit_or 0 frame_flag_first else 0 in
    let with_last = if last then bit_or with_first frame_flag_last else with_first in
    if abort then bit_or with_last frame_flag_abort else with_last

-- The slot as `memset` leaves it.
unfoldable pub zero_slot : Slot
zero_slot = replicate axivc_slot_size 0

-- The stores of `axivc_encode_frame`, in order.
unfoldable pub frame_bytes : ℕ → ℕ → ℕ → List ℕ → ℕ → Slot
unfolding zero_slot write_le16 write_le64
frame_bytes message_id message_len flags fragment fragment_len =
    let s1 = set (set zero_slot 0 1) 1 flags in
    let s2 = write_le16 s1 2 axivc_v1_header_len in
    let s3 = write_le32 s2 4 (u32 fragment_len) in
    let s4 = write_le64 s3 8 message_id in
    let s5 = write_le64 s4 16 message_len in
    if ltb 0 fragment_len then copy_at s5 axivc_v1_header_len (take fragment_len fragment) else s5

unfoldable pub encode_frame : ℕ → ℕ → Bool → Bool → Bool → List ℕ → ℕ → Result Slot
encode_frame message_id message_len first last abort fragment fragment_len = do
  reject_if (message_id == 0 || ltb axivc_fragment_capacity fragment_len) eproto
  validate_frame_shape message_len fragment_len first last abort
  done (frame_bytes message_id message_len (frame_flags first last abort) fragment fragment_len)

-- `struct axivc_decoded_frame`; `fragment` is the buffer from `slot + header_len` on.
pub record Frame : Type 0 where
  pub message_id : ℕ
  pub message_len : ℕ
  pub fragment : List ℕ
  pub fragment_len : ℕ
  pub first : Bool
  pub last : Bool
  pub abort : Bool

unfoldable pub decode_frame : Slot → Result Frame
decode_frame slot = do
  let version = byte_at slot 0
  let flags = byte_at slot 1
  reject_if (not (version == 1)) eprotonosupport
  reject_if (not (bit_and flags unknown_flags == 0)) eproto
  let header_len = read_le16 (drop 2 slot)
  reject_if (not (header_len == axivc_v1_header_len)) eproto
  let fragment_len = read_le32 (drop 4 slot)
  reject_if (ltb (axivc_slot_size - header_len) fragment_len) eproto
  let message_id = read_le64 (drop 8 slot)
  reject_if (message_id == 0) eproto
  let first = not (bit_and flags frame_flag_first == 0)
  let last = not (bit_and flags frame_flag_last == 0)
  let abort = not (bit_and flags frame_flag_abort == 0)
  validate_frame_shape (read_le64 (drop 16 slot)) fragment_len first last abort
  done (record {
    message_id = message_id;
    message_len = read_le64 (drop 16 slot);
    fragment = drop header_len slot;
    fragment_len = fragment_len;
    first = first;
    last = last;
    abort = abort;
  })

-- The payload bytes of a frame: what the receiver copies out.
abbrev pub payload : Frame → List ℕ
payload frame = take frame.fragment_len frame.fragment
