-- ===== src/AppProto/Pattern.antt =====
-- demo/app_proto.c: pattern messages, and what the pattern check accepts.
use axvisor_tools.Common.{
  ℕ, zero, suc, ◌+◌, ◌-◌, ◌^◌, ◌≤◌, ◌<◌, ◌≡◌, ◌⊎◌, inl, inr, ◌↔◌, refl, sym, ◌∙◌, ap, subst, arith,
  true, false, some, List, get_or, set, drop, length, length-set, get_or-set_self, get_or-set_ne,
  dec_lt, ℕ_discrete, Bool-cases, ◌==◌, ==_iff,
}
use axvisor_tools.AppProto.Defs.{
  app_header_len, uint16_max, kind_is_valid, encode_header, pattern_byte, fill_pattern,
  encode_pattern, AppMessage, decode, check_pattern, validate_pattern,
}
use axvisor_tools.AppProto.Header.{
  HasHeader, get_or-drop, decode_header, length-encode_header, encode_header-HasHeader,
}

fill_pattern_other :
    (left index : ℕ) (payload : List ℕ) (kind sequence j : ℕ)
    → j < app_header_len + index
    → get_or (fill_pattern left index payload kind sequence) j 0 ≡ get_or payload j 0
unfolding fill_pattern
fill_pattern_other zero index payload kind sequence j h = refl
fill_pattern_other (suc left) index payload kind sequence j h =
    fill_pattern_other left (index + 1) _ kind sequence j (omega arith)
    ∙ get_or-set_ne payload (app_header_len + index) j _ 0 (omega arith)

length-fill_pattern :
    (left index : ℕ) (payload : List ℕ) (kind sequence : ℕ)
    → length (fill_pattern left index payload kind sequence) ≡ length payload
unfolding fill_pattern
length-fill_pattern zero index payload kind sequence = refl
length-fill_pattern (suc left) index payload kind sequence =
    length-fill_pattern left (index + 1) _ kind sequence ∙ length-set payload _ _

fill_pattern_self :
    (left index : ℕ) (payload : List ℕ) (kind sequence i : ℕ)
    → app_header_len + index + left ≤ length payload
    → index ≤ i
    → i < index + left
    → get_or (fill_pattern left index payload kind sequence) (app_header_len + i) 0
      ≡ pattern_byte kind sequence i
unfolding fill_pattern
fill_pattern_self zero index payload kind sequence i room lo hi = absurd (omega arith)
fill_pattern_self (suc left) index payload kind sequence i room lo hi =
    let byte = pattern_byte kind sequence index in
    let payload' = set payload (app_header_len + index) byte in
    elim (ℕ_discrete index i) [
      | yes same ↦
          fill_pattern_other left (index + 1) payload' kind sequence (app_header_len + i)
            (omega arith)
          ∙ subst (λ j. get_or payload' (app_header_len + j) 0 ≡ pattern_byte kind sequence j) same
              (get_or-set_self payload (app_header_len + index) byte 0 (omega arith))
      | no other ↦
          fill_pattern_self left (index + 1) payload' kind sequence i
            (omega (arith, length-set payload (app_header_len + index) byte)) (omega arith)
            (omega arith)
    ]

-- The body is the pattern of this kind and sequence number.
abbrev pub IsPattern : List ℕ → ℕ → ℕ → ℕ → Type 0
IsPattern body body_len kind sequence =
    (i : ℕ) → i < body_len → get_or body i 0 ≡ pattern_byte kind sequence i

check_pattern_complete :
    (left index : ℕ) (body : List ℕ) (kind sequence : ℕ)
    → IsPattern body (index + left) kind sequence
    → check_pattern left index body kind sequence ≡ true
unfolding check_pattern
check_pattern_complete zero index body kind sequence h = refl
check_pattern_complete (suc left) index body kind sequence h =
    let rest =
      check_pattern_complete left (index + 1) body kind sequence (λ i lt. h i (omega arith)) in
    rw ((==_iff _ _).1 (h index (omega arith))) rest

check_pattern_sound :
    (left index : ℕ) (body : List ℕ) (kind sequence i : ℕ)
    → check_pattern left index body kind sequence ≡ true
    → index ≤ i
    → i < index + left
    → get_or body i 0 ≡ pattern_byte kind sequence i
unfolding check_pattern
check_pattern_sound zero index body kind sequence i h lo hi = absurd (omega arith)
check_pattern_sound (suc left) index body kind sequence i h lo hi =
    elim (Bool-cases (get_or body index 0 == pattern_byte kind sequence index)) [
      | inl good ↦ elim (ℕ_discrete index i) [
        | yes same ↦
            subst (λ j. get_or body j 0 ≡ pattern_byte kind sequence j) same ((==_iff _ _).0 good)
        | no other ↦
            check_pattern_sound left (index + 1) body kind sequence i (rw good at h) (omega arith)
              (omega arith)
      ]
      | inr bad ↦ cc
    ]

-- `ivc_app_validate_pattern` accepts exactly the messages of the expected kind, sequence number and
-- length whose body is the pattern, in every byte.
pub validate_pattern_iff :
    (message : AppMessage) (expected_kind expected_sequence expected_len : ℕ)
    → (validate_pattern message expected_kind expected_sequence expected_len ≡ true) ↔ (
        (message.kind ≡ expected_kind)
        × (message.sequence ≡ expected_sequence)
        × (expected_len ≡ app_header_len + message.body_len)
        × IsPattern message.body message.body_len expected_kind expected_sequence)
validate_pattern_iff message kind sequence len = (
  λ h.
      let fields : (message.kind ≡ kind)
          × (message.sequence ≡ sequence)
          × (len ≡ app_header_len + message.body_len)
          × (check_pattern message.body_len 0 message.body kind sequence ≡ true) =
        unfold validate_pattern in ground arith in
      (
        fields.0,
        fields.1,
        fields.2,
        λ i lt.
            check_pattern_sound message.body_len 0 message.body kind sequence i fields.3
              (omega arith) (omega arith),
      ),
  λ (k, s, l, p).
      let rest =
        check_pattern_complete message.body_len 0 message.body kind sequence
          (λ i lt. p i (omega arith)) in
      unfold validate_pattern in ground (arith, rest),
)

IsPattern-out :
    (payload : List ℕ) (kind sequence body_len : ℕ)
    → kind_is_valid kind ≡ true
    → app_header_len + body_len ≤ length payload
    → let out =
        fill_pattern body_len 0 (encode_header payload kind sequence body_len) kind sequence in
      HasHeader out kind sequence body_len
      × IsPattern (drop app_header_len out) body_len kind sequence
IsPattern-out payload kind sequence body_len valid room =
    let headed = encode_header payload kind sequence body_len in
    let h = encode_header-HasHeader payload kind sequence body_len (omega arith) valid in
    let kept = fill_pattern_other body_len 0 headed kind sequence in
    let out = fill_pattern body_len 0 headed kind sequence in
    (
      record {
        kind_byte = kept 0 (omega arith) ∙ h.kind_byte;
        sequence_bytes = λ i lt. kept (1 + i) (omega arith) ∙ h.sequence_bytes i lt;
        low_byte = kept 9 (omega arith) ∙ h.low_byte;
        high_byte = kept 10 (omega arith) ∙ h.high_byte;
      },
      λ i lt.
          get_or-drop app_header_len out i
          ∙ fill_pattern_self body_len 0 headed kind sequence i
              (omega (arith, length-encode_header payload kind sequence body_len)) (omega arith)
              (omega arith),
    )

-- `ivc_app_encode_pattern` on a buffer of at least `payload_len` bytes. An unknown kind, a length that
-- holds no header and a body beyond 16 bits are refused, and the buffer is left as it is. Otherwise
-- `ivc_app_decode` decodes the buffer, and `ivc_app_validate_pattern` accepts what it gives.
pub encode_pattern_lem :
    (payload : List ℕ) (payload_len kind sequence : ℕ)
    → sequence < 2 ^ 64
    → payload_len ≤ length payload
    → (((kind_is_valid kind ≡ false)
          ⊎ ((payload_len < app_header_len) ⊎ (uint16_max + app_header_len < payload_len)))
        × (encode_pattern payload payload_len kind sequence ≡ (false, payload)))
      ⊎ ((kind_is_valid kind ≡ true)
          × (app_header_len ≤ payload_len)
          × (payload_len ≤ uint16_max + app_header_len)
          × (let (encoded, out) = encode_pattern payload payload_len kind sequence in
              (encoded ≡ true)
              × (message : AppMessage) × (decode out payload_len ≡ some message)
              × (validate_pattern message kind sequence payload_len ≡ true)))
encode_pattern_lem payload payload_len kind sequence small stored =
    elim (Bool-cases (kind_is_valid kind)) [
      | inr bad ↦ inl (inl bad, unfold encode_pattern in ground (arith, bad))
      | inl valid ↦ elim (dec_lt payload_len app_header_len) [
        | yes short ↦ inl (inr (inl short), unfold encode_pattern in ground (arith, valid))
        | no whole ↦ elim (dec_lt (uint16_max + app_header_len) payload_len) [
          | yes long ↦ inl (inr (inr long), unfold encode_pattern in ground (arith, valid))
          | no fits ↦
              let body_len = payload_len - app_header_len in
              let len : app_header_len + body_len ≡ payload_len = omega arith in
              let (headed, pattern) =
                IsPattern-out payload kind sequence body_len valid (omega arith) in
              let out =
                fill_pattern body_len 0 (encode_header payload kind sequence body_len) kind
                  sequence in
              let runs : encode_pattern payload payload_len kind sequence ≡ (true, out) =
                unfold encode_pattern in ground (arith, valid) in
              let decoded =
                decode_header out kind sequence body_len headed valid small (omega arith) in
              rw runs (
                inr (
                  valid,
                  omega arith,
                  omega arith,
                  (
                    refl,
                    _,
                    ap (decode out) (sym len) ∙ decoded,
                    (validate_pattern_iff _ kind sequence payload_len).1
                        (refl, refl, sym len, pattern),
                  ),
                ))
        ]
      ]
    ]
