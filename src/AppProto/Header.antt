-- ===== src/AppProto/Header.antt =====
-- demo/app_proto.c: the header that is encoded is the header that is decoded.
use axvisor_tools.Common.{
  ℕ, zero, suc, ◌+◌, ◌*◌, ◌/◌, ◌%◌, ◌^◌, ◌≤◌, ◌<◌, ◌≡◌, ◌⊎◌, inl, refl, sym, ◌∙◌, ap, subst, arith,
  true, some, List, [], ◌∷◌, get_or, set, drop, length, length-set, get_or-set_self, get_or-set_ne,
  bit_or, bit_or-disjoint, ℕ_discrete,
}
use native.Mathlib.Nat.{zero-add, suc-add, add-zero, mod-lt, one-le-pow}
use axvisor_tools.AppProto.Defs.{
  app_header_len, uint16_max, kind_is_valid, u8, write_u16, write_rounds, write_u64, read_u16,
  read_rounds, read_u64, encode_header, decode,
}

-- One more byte of a 64-bit number.
byte_step :
    (i v : ℕ) → i < 8 → v % 2 ^ (i * 8) + u8 (v / 2 ^ (i * 8)) * 2 ^ (i * 8) ≡ v % 2 ^ ((i + 1) * 8)
byte_step zero v h = omega arith
byte_step (suc zero) v h = omega arith
byte_step (suc (suc zero)) v h = omega arith
byte_step (suc (suc (suc zero))) v h = omega arith
byte_step (suc (suc (suc (suc zero)))) v h = omega arith
byte_step (suc (suc (suc (suc (suc zero))))) v h = omega arith
byte_step (suc (suc (suc (suc (suc (suc zero)))))) v h = omega arith
byte_step (suc (suc (suc (suc (suc (suc (suc zero))))))) v h = omega arith
byte_step (suc (suc (suc (suc (suc (suc (suc (suc i)))))))) v h = absurd (omega arith)

pub get_or-drop : (n : ℕ) (xs : List ℕ) (i : ℕ) → get_or (drop n xs) i 0 ≡ get_or xs (n + i) 0
get_or-drop zero xs i = ap (λ j. get_or xs j 0) (sym (zero-add i))
get_or-drop (suc n) [] i = refl
get_or-drop (suc n) (x ∷ xs) i =
    get_or-drop n xs i ∙ ap (λ j. get_or (x ∷ xs) j 0) (sym (suc-add n i))

-- The bytes of `v` stand from `p` on.
abbrev pub Holds : List ℕ → ℕ → ℕ → ℕ → Type 0
Holds buf p count v = (i : ℕ) → i < count → get_or buf (p + i) 0 ≡ u8 (v / 2 ^ (i * 8))

read_rounds_lem :
    (left index : ℕ) (input : List ℕ) (v : ℕ)
    → index + left ≤ 8
    → Holds input 0 (index + left) v
    → read_rounds left index input (v % 2 ^ (index * 8)) ≡ v % 2 ^ ((index + left) * 8)
unfolding read_rounds
read_rounds_lem zero index input v room h = ap (λ n. v % 2 ^ (n * 8)) (sym (add-zero index))
read_rounds_lem (suc left) index input v room h =
    let acc : bit_or (v % 2 ^ (index * 8)) (get_or input index 0 * 2 ^ (index * 8))
        ≡ v % 2 ^ ((index + 1) * 8) =
      ap (λ (b : ℕ). bit_or (v % 2 ^ (index * 8)) (b * 2 ^ (index * 8)))
        (ap (λ j. get_or input j 0) (sym (zero-add index)) ∙ h index (omega arith))
      ∙ bit_or-disjoint (index * 8) (v % 2 ^ (index * 8)) _
          (mod-lt v (one-le-pow (index * 8) 2 (omega arith)))
      ∙ byte_step index v (omega arith) in
    ap (read_rounds left (index + 1) input) acc
    ∙ read_rounds_lem left (index + 1) input v (omega arith) (λ i lt. h i (omega arith))
    ∙ ap (λ n. v % 2 ^ (n * 8)) (omega arith)

length-write_rounds :
    (left index : ℕ) (output : List ℕ) (p v : ℕ)
    → length (write_rounds left index output p v) ≡ length output
unfolding write_rounds
length-write_rounds zero index output p v = refl
length-write_rounds (suc left) index output p v =
    length-write_rounds left (index + 1) _ p v ∙ length-set output _ _

write_rounds_other :
    (left index : ℕ) (output : List ℕ) (p v j : ℕ)
    → (j < p + index) ⊎ (p + index + left ≤ j)
    → get_or (write_rounds left index output p v) j 0 ≡ get_or output j 0
unfolding write_rounds
write_rounds_other zero index output p v j out = refl
write_rounds_other (suc left) index output p v j out =
    write_rounds_other left (index + 1) _ p v j (ground arith)
    ∙ get_or-set_ne output (p + index) j _ 0 (ground arith)

write_rounds_self :
    (left index : ℕ) (output : List ℕ) (p v i : ℕ)
    → p + index + left ≤ length output
    → index ≤ i
    → i < index + left
    → get_or (write_rounds left index output p v) (p + i) 0 ≡ u8 (v / 2 ^ (i * 8))
unfolding write_rounds
write_rounds_self zero index output p v i room lo hi = absurd (omega arith)
write_rounds_self (suc left) index output p v i room lo hi = elim (ℕ_discrete index i) [
  | yes same ↦
      write_rounds_other left (index + 1) _ p v (p + i) (inl (omega arith))
      ∙ subst
          (λ j.
            get_or (set output (p + index) (u8 (v / 2 ^ (index * 8)))) (p + j) 0
            ≡ u8 (v / 2 ^ (j * 8)))
          same (get_or-set_self output (p + index) (u8 (v / 2 ^ (index * 8))) 0 (omega arith))
  | no other ↦
      write_rounds_self left (index + 1) _ p v i
        (omega (arith, length-set output (p + index) (u8 (v / 2 ^ (index * 8))))) (omega arith)
        (omega arith)
]

read_u64_lem : (input : List ℕ) (v : ℕ) → v < 2 ^ 64 → Holds input 0 8 v → read_u64 input ≡ v
unfolding read_u64
read_u64_lem input v small h =
    ap (read_rounds 8 0 input) (omega arith)
    ∙ read_rounds_lem 8 0 input v (omega arith) h
    ∙ omega arith

-- The fields of a header, byte for byte.
pub record HasHeader (out : List ℕ) (kind sequence body_len : ℕ) : Type 0 where
  pub kind_byte : get_or out 0 0 ≡ kind
  pub sequence_bytes : Holds out 1 8 sequence
  pub low_byte : get_or out 9 0 ≡ u8 body_len
  pub high_byte : get_or out 10 0 ≡ u8 (body_len / 2 ^ 8)

read_len :
    (out : List ℕ) (body_len : ℕ)
    → body_len ≤ uint16_max
    → get_or out 9 0 ≡ u8 body_len
    → get_or out 10 0 ≡ u8 (body_len / 2 ^ 8)
    → read_u16 (drop 9 out) ≡ body_len
unfolding read_u16
read_len out body_len small low high =
    rw (get_or-drop 9 out 0, get_or-drop 9 out 1, low, high)
      (bit_or-disjoint 8 (u8 body_len) (u8 (body_len / 2 ^ 8)) (omega arith) ∙ omega arith)

pub decode_header :
    (out : List ℕ) (kind sequence body_len : ℕ)
    → HasHeader out kind sequence body_len
    → kind_is_valid kind ≡ true
    → sequence < 2 ^ 64
    → body_len ≤ uint16_max
    → decode out (app_header_len + body_len)
      ≡ some (record {
        kind = kind;
        sequence = sequence;
        body = drop app_header_len out;
        body_len = body_len;
      })
unfolding decode
decode_header out kind sequence body_len h valid small short =
    let len = read_len out body_len short h.low_byte h.high_byte in
    let seq = read_u64_lem (drop 1 out) sequence small (λ i lt.
      get_or-drop 1 out (0 + i)
      ∙ ap (λ j. get_or out (1 + j) 0) (zero-add i)
      ∙ h.sequence_bytes i lt) in
    ground (arith, h.kind_byte, len, seq)

pub length-encode_header :
    (payload : List ℕ) (kind sequence body_len : ℕ)
    → length (encode_header payload kind sequence body_len) ≡ length payload
unfolding encode_header write_u16 write_u64
length-encode_header payload kind sequence body_len =
    length-set _ 10 _
    ∙ length-set _ 9 _
    ∙ length-write_rounds 8 0 (set payload 0 (u8 kind)) 1 sequence
    ∙ length-set payload 0 _

pub encode_header-HasHeader :
    (payload : List ℕ) (kind sequence body_len : ℕ)
    → app_header_len ≤ length payload
    → kind_is_valid kind ≡ true
    → HasHeader (encode_header payload kind sequence body_len) kind sequence body_len
unfolding encode_header write_u16 write_u64
encode_header-HasHeader payload kind sequence body_len room valid =
    let s0 = set payload 0 (u8 kind) in
    let s1 = write_rounds 8 0 s0 1 sequence in
    let s2 = set s1 9 (u8 body_len) in
    let l0 = length-set payload 0 (u8 kind) in
    let l1 = length-write_rounds 8 0 s0 1 sequence in
    let l2 = length-set s1 9 (u8 body_len) in
    record {
      kind_byte =
          get_or-set_ne s2 10 0 _ 0 (omega arith)
          ∙ get_or-set_ne s1 9 0 _ 0 (omega arith)
          ∙ write_rounds_other 8 0 s0 1 sequence 0 (inl (omega arith))
          ∙ get_or-set_self payload 0 (u8 kind) 0 (omega arith)
          ∙ ground arith;
      sequence_bytes = λ i lt.
          get_or-set_ne s2 10 (1 + i) _ 0 (omega arith)
          ∙ get_or-set_ne s1 9 (1 + i) _ 0 (omega arith)
          ∙ write_rounds_self 8 0 s0 1 sequence i (omega arith) (omega arith) (omega arith);
      low_byte =
          get_or-set_ne s2 10 9 _ 0 (omega arith)
          ∙ get_or-set_self s1 9 (u8 body_len) 0 (omega arith);
      high_byte = get_or-set_self s2 10 (u8 (body_len / 2 ^ 8)) 0 (omega arith);
    }
