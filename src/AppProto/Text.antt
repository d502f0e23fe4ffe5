-- ===== src/AppProto/Text.antt =====
-- demo/app_proto.c: text messages, encoded and decoded.
use axvisor_tools.Common.{
  ℕ, zero, suc, ◌+◌, ◌^◌, ◌≤◌, ◌<◌, ◌≡◌, ◌⊎◌, inl, inr, refl, sym, ◌∙◌, ap, arith, true, false,
  Option, none, some, List, [], ◌∷◌, get_or, take, drop, length, length-take, copy_at, dec_lt,
  Bool-cases,
}
use axvisor_tools.AppProto.Defs.{
  app_header_len, uint16_max, kind_is_valid, encode_header, encode_text, AppMessage, decode,
}
use axvisor_tools.AppProto.Header.{
  HasHeader, decode_header, length-encode_header, encode_header-HasHeader,
}

copy_at_before :
    (ds : List ℕ) (off : ℕ) (src : List ℕ) (j : ℕ)
    → j < off
    → get_or (copy_at ds off src) j 0 ≡ get_or ds j 0
copy_at_before [] off src j h = refl
copy_at_before (d ∷ ds) zero src j h = absurd (omega arith)
copy_at_before (d ∷ ds) (suc off) src zero h = refl
copy_at_before (d ∷ ds) (suc off) src (suc j) h = copy_at_before ds off src j (omega arith)

copy_at_start :
    (ds src : List ℕ) → length src ≤ length ds → take (length src) (copy_at ds 0 src) ≡ src
copy_at_start [] [] h = refl
copy_at_start [] (x ∷ xs) h = absurd (omega arith)
copy_at_start (d ∷ ds) [] h = refl
copy_at_start (d ∷ ds) (x ∷ xs) h = ap (λ t. x ∷ t) (copy_at_start ds xs (omega arith))

copied :
    (ds : List ℕ) (off : ℕ) (src : List ℕ)
    → off + length src ≤ length ds
    → take (length src) (drop off (copy_at ds off src)) ≡ src
copied [] zero [] h = refl
copied [] (suc off) src h = absurd (omega arith)
copied [] zero (x ∷ xs) h = absurd (omega arith)
copied (d ∷ ds) zero src h = copy_at_start (d ∷ ds) src (omega arith)
copied (d ∷ ds) (suc off) src h = copied ds off src (omega arith)

copy_at-nil : (ds : List ℕ) (off : ℕ) → copy_at ds off [] ≡ ds
copy_at-nil [] off = refl
copy_at-nil (d ∷ ds) zero = refl
copy_at-nil (d ∷ ds) (suc off) = ap (λ t. d ∷ t) (copy_at-nil ds off)

-- A copy behind the header leaves the header.
copy_at-HasHeader :
    (out src : List ℕ) {kind sequence body_len : ℕ}
    → HasHeader out kind sequence body_len
    → HasHeader (copy_at out app_header_len src) kind sequence body_len
copy_at-HasHeader out src h = record {
  kind_byte = copy_at_before out app_header_len src 0 (omega arith) ∙ h.kind_byte;
  sequence_bytes =
      λ i lt. copy_at_before out app_header_len src (1 + i) (omega arith) ∙ h.sequence_bytes i lt;
  low_byte = copy_at_before out app_header_len src 9 (omega arith) ∙ h.low_byte;
  high_byte = copy_at_before out app_header_len src 10 (omega arith) ∙ h.high_byte;
}

-- A refused text message leaves the buffer as it is.
abbrev pub Refused : Option ℕ × List ℕ → List ℕ → Type 0
Refused (message_len, out) payload = (message_len ≡ none) × (out ≡ payload)

-- An encoded text message is decoded to what was encoded.
abbrev pub Encoded : Option ℕ × List ℕ → ℕ → ℕ → ℕ → List ℕ → ℕ → Type 0
Encoded (message_len, out) payload_capacity kind sequence body body_len =
    (message_len ≡ some (app_header_len + body_len))
    × (app_header_len + body_len ≤ payload_capacity)
    × (message : AppMessage) × (decode out (app_header_len + body_len) ≡ some message)
    × (message.kind ≡ kind)
    × (message.sequence ≡ sequence)
    × (message.body_len ≡ body_len)
    × (take body_len message.body ≡ take body_len body)

text_out :
    (payload : List ℕ) (kind sequence : ℕ) (body : List ℕ) (body_len : ℕ)
    → kind_is_valid kind ≡ true
    → body_len ≤ length body
    → app_header_len + body_len ≤ length payload
    → let out =
        copy_at
          (encode_header payload kind sequence body_len)
          app_header_len
          (take body_len body) in
      HasHeader out kind sequence body_len
      × (take body_len (drop app_header_len out) ≡ take body_len body)
text_out payload kind sequence body body_len valid stored room =
    let headed = encode_header payload kind sequence body_len in
    let fits : length (take body_len body) ≡ body_len = omega (arith, length-take body_len body) in
    (
      copy_at-HasHeader headed (take body_len body)
          (encode_header-HasHeader payload kind sequence body_len (omega arith) valid),
      ap (λ n. take n (drop app_header_len (copy_at headed app_header_len (take body_len body))))
            (sym fits)
          ∙ copied headed app_header_len (take body_len body)
              (omega (arith, length-encode_header payload kind sequence body_len)),
    )

encoded_text :
    (payload : List ℕ) (payload_capacity kind sequence : ℕ) (body : List ℕ) (body_len : ℕ)
    → kind_is_valid kind ≡ true
    → body_len ≤ uint16_max
    → app_header_len + body_len ≤ payload_capacity
    → encode_text payload payload_capacity kind sequence body body_len ≡ (
      some (app_header_len + body_len),
      copy_at (encode_header payload kind sequence body_len) app_header_len (take body_len body),
    )
unfolding encode_text
encoded_text payload payload_capacity kind sequence body zero valid short room =
    rw copy_at-nil (ground (arith, valid))
encoded_text payload payload_capacity kind sequence body (suc n) valid short room =
    ground (arith, valid)

-- `ivc_app_encode_text` with a body of `body_len` bytes and a buffer of the capacity passed. An unknown
-- kind, a body length beyond 16 bits and a message that exceeds the capacity are refused, and the
-- buffer is left as it is. Otherwise `ivc_app_decode` gives kind, sequence, length and body back.
pub encode_text_lem :
    (payload : List ℕ) (payload_capacity kind sequence : ℕ) (body : List ℕ) (body_len : ℕ)
    → sequence < 2 ^ 64
    → body_len ≤ length body
    → payload_capacity ≤ length payload
    → ((kind_is_valid kind ≡ false)
        × Refused (encode_text payload payload_capacity kind sequence body body_len) payload)
      ⊎ (((kind_is_valid kind ≡ true)
            × ((uint16_max < body_len) ⊎ (payload_capacity < app_header_len + body_len))
            × Refused (encode_text payload payload_capacity kind sequence body body_len) payload)
          ⊎ ((kind_is_valid kind ≡ true)
              × Encoded
                  (encode_text payload payload_capacity kind sequence body body_len)
                  payload_capacity
                  kind
                  sequence
                  body
                  body_len))
encode_text_lem payload payload_capacity kind sequence body body_len small stored room =
    elim (Bool-cases (kind_is_valid kind)) [
      | inr bad ↦ inl (bad, unfold encode_text in ground (arith, bad))
      | inl valid ↦ elim (dec_lt uint16_max body_len) [
        | yes long ↦ inr (inl (valid, inl long, unfold encode_text in ground (arith, valid)))
        | no short ↦ elim (dec_lt payload_capacity (app_header_len + body_len)) [
          | yes big ↦ inr (inl (valid, inr big, unfold encode_text in ground (arith, valid)))
          | no fits ↦
              let (headed, same) =
                text_out payload kind sequence body body_len valid stored (omega arith) in
              rw
                (encoded_text payload payload_capacity kind sequence body body_len valid
                  (omega arith) (omega arith))
                (inr (
                  inr (
                    valid,
                    (
                      refl,
                      omega arith,
                      _,
                      decode_header _ kind sequence body_len headed valid small (omega arith),
                      refl,
                      refl,
                      refl,
                      same,
                    ),
                  )))
        ]
      ]
    ]
