-- ===== src/AppProto/Defs.antt =====
-- demo/app_proto.c and demo/app_proto.h: the application messages of the demo programs. A buffer is
-- the list of its bytes; a pointer argument is never NULL here, and `message->body` is the buffer
-- from the header on. A function that fills a buffer returns the new one beside its result.
use axvisor_tools.Common.{
  ℕ, zero, suc, ◌+◌, ◌-◌, ◌*◌, ◌/◌, ◌%◌, ◌^◌, Bool, true, false, ◌||◌, not, Option, none, some,
  List, [], ◌∷◌, ltb, ◌==◌, if◌then◌else◌, get_or, set, take, drop, copy_at, bit_or,
}

abbrev pub app_header_len : ℕ
app_header_len = 11

abbrev pub max_message_len : ℕ
max_message_len = 7484

abbrev pub request_count : ℕ
request_count = 5

abbrev pub data_count : ℕ
data_count = 3

abbrev pub request_lengths : List ℕ
request_lengths = 231 ∷ 232 ∷ 233 ∷ 7424 ∷ 7484 ∷ []

abbrev pub data_lengths : List ℕ
data_lengths = 233 ∷ 7425 ∷ 7484 ∷ []

-- `UINT16_MAX` and `SIZE_MAX`.
abbrev pub uint16_max : ℕ
uint16_max = 0xffff

abbrev pub size_max : ℕ
size_max = 2 ^ 64 - 1

-- `enum ivc_app_message_kind` holds any byte read from a buffer, so a kind is a number.
abbrev pub kind_request : ℕ
kind_request = 1

abbrev pub kind_ack : ℕ
kind_ack = 2

abbrev pub kind_data : ℕ
kind_data = 3

abbrev pub kind_is_valid : ℕ → Bool
kind_is_valid kind = kind == kind_request || kind == kind_ack || kind == kind_data

-- `(uint8_t)`.
abbrev pub u8 : ℕ → ℕ
u8 n = n % 2 ^ 8

-- The writers store at `output + p`.
unfoldable pub write_u16 : List ℕ → ℕ → ℕ → List ℕ
write_u16 output p value = set (set output p (u8 value)) (p + 1) (u8 (value / 2 ^ 8))

-- The loop of `ivc_app_write_le64`, with the rounds that are left.
unfoldable pub write_rounds : ℕ → ℕ → List ℕ → ℕ → ℕ → List ℕ
write_rounds zero index output p value = output
write_rounds (suc left) index output p value =
    write_rounds left (index + 1) (set output (p + index) (u8 (value / 2 ^ (index * 8)))) p value

unfoldable pub write_u64 : List ℕ → ℕ → ℕ → List ℕ
unfolding write_rounds
write_u64 output p value = write_rounds 8 0 output p value

unfoldable pub read_u16 : List ℕ → ℕ
read_u16 input = bit_or (get_or input 0 0) (get_or input 1 0 * 2 ^ 8)

-- The loop of `ivc_app_read_le64`, with the rounds that are left.
unfoldable pub read_rounds : ℕ → ℕ → List ℕ → ℕ → ℕ
read_rounds zero index input value = value
read_rounds (suc left) index input value =
    read_rounds left (index + 1) input (bit_or value (get_or input index 0 * 2 ^ (index * 8)))

unfoldable pub read_u64 : List ℕ → ℕ
unfolding read_rounds
read_u64 input = read_rounds 8 0 input 0

unfoldable pub encode_header : List ℕ → ℕ → ℕ → ℕ → List ℕ
unfolding write_u16 write_u64
encode_header payload kind sequence body_len =
    write_u16 (write_u64 (set payload 0 (u8 kind)) 1 sequence) 9 body_len

abbrev pub pattern_byte : ℕ → ℕ → ℕ → ℕ
pattern_byte kind sequence index = u8 (97 + u8 (u8 index + u8 sequence + u8 kind * 7) % 26)

-- The loop of `ivc_app_encode_pattern`, with the rounds that are left.
unfoldable pub fill_pattern : ℕ → ℕ → List ℕ → ℕ → ℕ → List ℕ
fill_pattern zero index payload kind sequence = payload
fill_pattern (suc left) index payload kind sequence =
    fill_pattern left (index + 1)
      (set payload (app_header_len + index) (pattern_byte kind sequence index)) kind sequence

unfoldable pub encode_pattern : List ℕ → ℕ → ℕ → ℕ → Bool × List ℕ
encode_pattern payload payload_len kind sequence =
    if not (kind_is_valid kind) || ltb payload_len app_header_len
    then (false, payload)
    else let body_len = payload_len - app_header_len in
      if ltb uint16_max body_len then (false, payload) else (
        true,
        fill_pattern body_len 0 (encode_header payload kind sequence body_len) kind sequence,
      )

-- What `ivc_app_encode_text` leaves: `*message_len` if it returns true, and the buffer.
unfoldable pub encode_text : List ℕ → ℕ → ℕ → ℕ → List ℕ → ℕ → Option ℕ × List ℕ
encode_text payload payload_capacity kind sequence body body_len =
    if not (kind_is_valid kind) || ltb uint16_max body_len
    then (none, payload)
    else if ltb (size_max - app_header_len) body_len
    then (none, payload)
    else let required = app_header_len + body_len in
      if ltb payload_capacity required
      then (none, payload)
      else let headed = encode_header payload kind sequence body_len in
        (
          some required,
          if ltb 0 body_len then copy_at headed app_header_len (take body_len body) else headed,
        )

pub record AppMessage : Type 0 where
  pub kind : ℕ
  pub sequence : ℕ
  pub body : List ℕ
  pub body_len : ℕ

-- `none` where the function returns false.
unfoldable pub decode : List ℕ → ℕ → Option AppMessage
decode payload payload_len =
    if ltb payload_len app_header_len
    then none
    else let kind = get_or payload 0 0 in
      if not (kind_is_valid kind)
      then none
      else let body_len = read_u16 (drop 9 payload) in
        if not (body_len == payload_len - app_header_len)
        then none
        else some (record {
          kind = kind;
          sequence = read_u64 (drop 1 payload);
          body = drop app_header_len payload;
          body_len = body_len;
        })

-- The loop of `ivc_app_validate_pattern`, with the rounds that are left.
unfoldable pub check_pattern : ℕ → ℕ → List ℕ → ℕ → ℕ → Bool
check_pattern zero index body kind sequence = true
check_pattern (suc left) index body kind sequence =
    if not (get_or body index 0 == pattern_byte kind sequence index)
    then false
    else check_pattern left (index + 1) body kind sequence

unfoldable pub validate_pattern : AppMessage → ℕ → ℕ → ℕ → Bool
validate_pattern message expected_kind expected_sequence expected_len =
    if not (message.kind == expected_kind)
      || not (message.sequence == expected_sequence)
      || ltb expected_len app_header_len
      || not (message.body_len == expected_len - app_header_len)
    then false
    else check_pattern message.body_len 0 message.body expected_kind expected_sequence
