-- ===== src/Common/Codes.antt =====
-- The integer results of the driver: 0, or the negative of an `errno` constant.
use mathlib.Core.Bool.{Bool, true, false}
use mathlib.Core.Path.{◌≡◌, refl}
use mathlib.Core.Logic.{◌⊎◌, inl, inr}

-- The `errno` constants that the sources name.
pub data Errno : Type 0 where
  ebusy eoverflow enomsg einval eagain eprotonosupport eproto emsgsize econnreset : Errno
  efault etimedout erestartsys epipe eopnotsupp enomem eio enospc enoent enodev : Errno

-- A result that comes with a value when the code is 0.
pub data Result {ℓ} (A : Type ℓ) : Type ℓ where
  done : A → Result A
  failed : Errno → Result A

-- An `int` result: `done tt` is 0, `failed e` is `-e`.
abbrev pub Code : Type 0
Code = Result (Unit {0})

abbrev pub success : Code
success = done tt

infixl 5 ◌>>=◌ ◌>>◌
abbrev pub ◌>>=◌ {ℓ κ} : {A : Type ℓ} {B : Type κ} → Result A → (A → Result B) → Result B
done a >>= f = f a
failed e >>= f = failed e

abbrev pub ◌>>◌ {ℓ} : {B : Type ℓ} → Result (Unit {0}) → Result B → Result B
m >> k = m >>= λ _. k

-- `if (bad) return -e;`
abbrev pub reject_if : Bool → Errno → Result (Unit {0})
reject_if true e = failed e
reject_if false e = done tt

pub Result-cases {ℓ} :
    {A : Type ℓ} (r : Result A) → ((e : Errno) × (r ≡ failed e)) ⊎ ((a : A) × (r ≡ done a))
Result-cases (failed e) = inl (e, refl)
Result-cases (done a) = inr (a, refl)
