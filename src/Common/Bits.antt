-- ===== src/Common/Bits.antt =====
-- `|` of disjoint bit fields as a sum, and `&` with a low mask as a remainder, at every width: the digit recursion that `bit_or` stands
-- for is followed with the fuel as a variable.
use Prim.Native.Nat.{
  ℕ, zero, suc, ◌+◌, ◌-◌, ◌*◌, ◌/◌, ◌%◌, ◌^◌, ◌≤◌, ◌<◌, max, min, digits, bit_and, bit_or,
  bit_and-bitwise, bit_or-bitwise,
}
use mathlib.Core.Path.{◌≡◌, ap, ◌∙◌}
use native.Mathlib.Nat.{pow-suc, div-add-mod, one-le-pow}
use native.Mathlib.Omega.{arith}

shift_suc : (b k : ℕ) → b * 2 ^ suc k ≡ 2 * (b * 2 ^ k)
shift_suc b k = omega (arith, ap (λ (t : ℕ). b * t) (pow-suc 2 k))

digits-disjoint :
    (n k a b : ℕ) → a ≤ n → a < 2 ^ k → digits (λ y. y) max n a (b * 2 ^ k) ≡ a + b * 2 ^ k
digits-disjoint zero k zero b p q = omega arith
digits-disjoint zero k (suc a) b p q = absurd (omega arith)
digits-disjoint (suc n) k zero b p q = omega arith
digits-disjoint (suc n) zero (suc a) b p q = absurd (omega arith)
digits-disjoint (suc n) (suc k) (suc a) b p q = rw shift_suc (
    rw half
      (omega (arith, digits-disjoint n k (suc a / 2) b (omega arith) (omega (arith, pow-suc 2 k)))))
  where
    half : 2 * (b * 2 ^ k) / 2 ≡ b * 2 ^ k
    half = omega arith

-- `a | (b << k)` is a sum when `a` fits `k` bits.
pub bit_or-disjoint : (k a b : ℕ) → a < 2 ^ k → bit_or a (b * 2 ^ k) ≡ a + b * 2 ^ k
bit_or-disjoint k a b h = bit_or-bitwise a (b * 2 ^ k) ∙ digits-disjoint a k a b (omega arith) h

-- `a & (2^k - 1)` for a number split at bit `k`.
digits-mask :
    (n k a q r : ℕ)
    → a ≡ q * 2 ^ k + r
    → a ≤ n
    → r < 2 ^ k
    → digits (λ _. 0) min n a (2 ^ k - 1) ≡ r
digits-mask zero k a q r e p h = omega arith
digits-mask (suc n) k zero q r e p h = omega arith
digits-mask (suc n) zero (suc a) q r e p h =
    omega (
      arith,
      digits-mask n zero (suc a / 2) (suc a / 2) 0 (omega arith) (omega arith) (omega arith),
    )
digits-mask (suc n) (suc k) (suc a) q r e p h = rw half (
    omega (
      arith,
      digits-mask n k (suc a / 2) q (r / 2) (omega (arith, shift_suc q k)) (omega arith)
          (omega (arith, pow-suc 2 k)),
      shift_suc q k,
      pow-suc 2 k,
      one-le-pow k 2 (omega arith),
    ))
  where
    half : (2 ^ suc k - 1) / 2 ≡ 2 ^ k - 1
    half = omega (arith, pow-suc 2 k, one-le-pow k 2 (omega arith))

-- `a & (2^k - 1)` is the remainder by `2^k`.
pub bit_and-mask : (k a : ℕ) → bit_and a (2 ^ k - 1) ≡ a % 2 ^ k
bit_and-mask k a =
    bit_and-bitwise a (2 ^ k - 1)
    ∙ digits-mask a k a (a / 2 ^ k) (a % 2 ^ k) (omega (arith, div-add-mod a (2 ^ k))) (omega arith)
        (omega (arith, one-le-pow k 2 (omega arith)))
