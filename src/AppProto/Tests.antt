-- ===== src/AppProto/Tests.antt =====
-- Application messages in a small buffer.
use axvisor_tools.Common.{
  All, ◌++◌, ℕ, ◌+◌, ◌≤◌, ◌<◌, ◌≡◌, ◌⊎◌, ◌↔◌, refl, arith, true, false, none, some, List, [], ◌∷◌,
  replicate,
}
use axvisor_tools.AppProto.Defs.{
  app_header_len, request_lengths, data_lengths, uint16_max, kind_is_valid, kind_request, kind_ack,
  write_u16, write_u64, encode_header, fill_pattern, read_u16, check_pattern, encode_pattern,
  encode_text, AppMessage, decode, validate_pattern,
}
use axvisor_tools.AppProto.Text.{Refused, Encoded, encode_text_lem}
use axvisor_tools.AppProto.Pattern.{IsPattern, encode_pattern_lem, validate_pattern_iff}

abbrev buffer : List ℕ
buffer = replicate 20 170

-- Three pattern bytes; the byte behind the message is left alone.
pattern_bytes :
    encode_pattern (replicate 15 170) 14 kind_request 515
    ≡ (true, 1 ∷ 3 ∷ 2 ∷ 0 ∷ 0 ∷ 0 ∷ 0 ∷ 0 ∷ 0 ∷ 3 ∷ 0 ∷ 107 ∷ 108 ∷ 109 ∷ 170 ∷ [])
unfolding encode_pattern encode_header write_u16 write_u64 fill_pattern
pattern_bytes = refl

truncated : decode (1 ∷ 3 ∷ 2 ∷ 0 ∷ 0 ∷ 0 ∷ 0 ∷ 0 ∷ 0 ∷ 3 ∷ 0 ∷ 107 ∷ 108 ∷ []) 13 ≡ none
unfolding decode read_u16
truncated = refl

-- A body of three bytes, the second of them wrong.
abbrev received : AppMessage
received = record { kind = 1; sequence = 515; body = 107 ∷ 107 ∷ 109 ∷ []; body_len = 3 }

wrong_byte : validate_pattern received 1 515 14 ≡ false
unfolding validate_pattern check_pattern
wrong_byte = refl

encode_text_lem_example :
    ((kind_is_valid kind_ack ≡ false)
      × Refused (encode_text buffer 16 kind_ack 7 (97 ∷ 99 ∷ 107 ∷ []) 3) buffer)
    ⊎ (((kind_is_valid kind_ack ≡ true)
          × ((uint16_max < 3) ⊎ (16 < app_header_len + 3))
          × Refused (encode_text buffer 16 kind_ack 7 (97 ∷ 99 ∷ 107 ∷ []) 3) buffer)
        ⊎ ((kind_is_valid kind_ack ≡ true)
            × Encoded
                (encode_text buffer 16 kind_ack 7 (97 ∷ 99 ∷ 107 ∷ []) 3)
                16
                kind_ack
                7
                (97 ∷ 99 ∷ 107 ∷ [])
                3))
encode_text_lem_example =
    encode_text_lem buffer 16 kind_ack 7 (97 ∷ 99 ∷ 107 ∷ []) 3 (omega arith) (omega arith)
      (omega arith)

encode_pattern_lem_example :
    (((kind_is_valid kind_request ≡ false)
        ⊎ ((14 < app_header_len) ⊎ (uint16_max + app_header_len < 14)))
      × (encode_pattern buffer 14 kind_request 515 ≡ (false, buffer)))
    ⊎ ((kind_is_valid kind_request ≡ true)
        × (app_header_len ≤ 14)
        × (14 ≤ uint16_max + app_header_len)
        × (let (encoded, out) = encode_pattern buffer 14 kind_request 515 in
            (encoded ≡ true)
            × (message : AppMessage) × (decode out 14 ≡ some message)
            × (validate_pattern message kind_request 515 14 ≡ true)))
encode_pattern_lem_example =
    encode_pattern_lem buffer 14 kind_request 515 (omega arith) (omega arith)

validate_pattern_iff_example : (validate_pattern received 1 515 14 ≡ true) ↔ (
    (received.kind ≡ 1)
    × (received.sequence ≡ 515)
    × (14 ≡ app_header_len + received.body_len)
    × IsPattern received.body received.body_len 1 515)
validate_pattern_iff_example = validate_pattern_iff received 1 515 14

-- What the demo programs send fits the largest message that they declare.
lengths_fit : All (λ n. (app_header_len ≤ n) × (n ≤ 7484)) (request_lengths ++ data_lengths)
lengths_fit = ground arith
