-- ===== src/AppProto/Ack.antt =====
-- demo/app_proto.c: the acknowledgement bodies that the publisher accepts.
use axvisor_tools.Common.{
  ℕ, zero, suc, ◌≤◌, ◌≡◌, ◌⊎◌, inl, inr, ◌↔◌, refl, ◌∙◌, ap, ap₂, arith, Bool, true, false, ◌&&◌,
  ◌||◌, List, [], ◌∷◌, length, length-take, take, ◌==◌, ==_iff,
}

-- "ack from arceos subscriber".
abbrev pub arceos_ack : List ℕ
arceos_ack =
    97 ∷ 99 ∷ 107 ∷ 32 ∷ 102 ∷ 114 ∷ 111 ∷ 109 ∷ 32 ∷ 97 ∷ 114 ∷ 99 ∷ 101 ∷ 111 ∷ 115 ∷ 32 ∷ 115
    ∷ 117 ∷ 98 ∷ 115 ∷ 99 ∷ 114 ∷ 105 ∷ 98 ∷ 101 ∷ 114 ∷ []

-- "ack from linux subscriber".
abbrev pub linux_ack : List ℕ
linux_ack =
    97 ∷ 99 ∷ 107 ∷ 32 ∷ 102 ∷ 114 ∷ 111 ∷ 109 ∷ 32 ∷ 108 ∷ 105 ∷ 110 ∷ 117 ∷ 120 ∷ 32 ∷ 115 ∷ 117
    ∷ 98 ∷ 115 ∷ 99 ∷ 114 ∷ 105 ∷ 98 ∷ 101 ∷ 114 ∷ []

-- `memcmp(body, text, length text) == 0`.
abbrev pub same_bytes : List ℕ → List ℕ → Bool
same_bytes body [] = true
same_bytes [] (t ∷ ts) = false
same_bytes (b ∷ bs) (t ∷ ts) = b == t && same_bytes bs ts

unfoldable pub ack_body_is_valid : List ℕ → ℕ → Bool
ack_body_is_valid body body_len =
    (body_len == length arceos_ack && same_bytes body arceos_ack)
    || (body_len == length linux_ack && same_bytes body linux_ack)

same_bytes-take :
    (body text : List ℕ) → same_bytes body text ≡ true → take (length text) body ≡ text
same_bytes-take body [] h = refl
same_bytes-take [] (t ∷ ts) h = cc
same_bytes-take (b ∷ bs) (t ∷ ts) h =
    let both : (b ≡ t) × (same_bytes bs ts ≡ true) = ground arith in
    ap₂ (λ x xs. x ∷ xs) both.0 (same_bytes-take bs ts both.1)

cons_injective : (x y : ℕ) (xs ys : List ℕ) → x ∷ xs ≡ y ∷ ys → (x ≡ y) × (xs ≡ ys)
cons_injective x y xs ys e = (cc, cc)

take-same_bytes : (body text : List ℕ) (n : ℕ) → take n body ≡ text → same_bytes body text ≡ true
take-same_bytes body [] n h = refl
take-same_bytes [] (t ∷ ts) zero h = cc
take-same_bytes [] (t ∷ ts) (suc n) h = cc
take-same_bytes (b ∷ bs) (t ∷ ts) zero h = cc
take-same_bytes (b ∷ bs) (t ∷ ts) (suc n) h =
    let both : (b ≡ t) × (take n bs ≡ ts) = cons_injective b t (take n bs) ts h in
    rw ((==_iff b t).1 both.0) (take-same_bytes bs ts n both.1)

same_text :
    (body : List ℕ) (body_len : ℕ) (text : List ℕ)
    → body_len ≤ length body
    → ((body_len == length text && same_bytes body text) ≡ true) ↔ (take body_len body ≡ text)
same_text body body_len text stored = (
  λ h.
      let len : body_len ≡ length text = ground arith in
      let same : same_bytes body text ≡ true = ground arith in
      ap (λ n. take n body) len ∙ same_bytes-take body text same,
  λ e.
      let len : body_len ≡ length text = omega (arith, length-take body_len body, ap length e) in
      rw ((==_iff body_len (length text)).1 len) (take-same_bytes body text body_len e),
)

either : (a b : Bool) → ((a || b) ≡ true) ↔ ((a ≡ true) ⊎ (b ≡ true))
either true b = (λ _. inl refl, λ _. refl)
either false b = (inr, λ e. ground (arith, e))

-- `ivc_app_ack_body_is_valid` accepts exactly the two texts, byte for byte and no longer.
pub ack_body_is_valid_iff :
    (body : List ℕ) (body_len : ℕ)
    → body_len ≤ length body
    → (ack_body_is_valid body body_len ≡ true)
      ↔ ((take body_len body ≡ arceos_ack) ⊎ (take body_len body ≡ linux_ack))
ack_body_is_valid_iff body body_len stored =
    let arceos = same_text body body_len arceos_ack stored in
    let linux = same_text body body_len linux_ack stored in
    let ways =
      either (body_len == 26 && same_bytes body arceos_ack)
        (body_len == 25 && same_bytes body linux_ack) in
    unfold ack_body_is_valid in
    (
      λ h. elim (ways.0 h) [ inl a ↦ inl (arceos.0 a) | inr b ↦ inr (linux.0 b) ],
      λ e. ways.1 (elim e [ inl a ↦ inl (arceos.1 a) | inr b ↦ inr (linux.1 b) ]),
    )
