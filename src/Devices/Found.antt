-- ===== src/Devices/Found.antt =====
-- ivc/ivc.c: lists of devices, and searches in them.
use axvisor_tools.Common.{
  suc, ◌+◌, ◌≡◌, inl, inr, refl, ap, subst, arith, Bool, Bool-cases, some, List, [], ◌∷◌, length,
  All,
}
use axvisor_tools.Devices.Publishers.{find, update, delete}

pub some_injective : {V : Type 0} (v w : V) → some v ≡ some w → v ≡ w
some_injective v w e = cc e

module _ {V : Type 0} (p : V → Bool) where
  pub length-update : (vs : List V) (f : V → V) → length (update vs p f) ≡ length vs
  length-update [] f = refl
  length-update (v ∷ vs) f = elim (Bool-cases (p v)) [
    | inl here ↦ rw here refl
    | inr later ↦ rw later (ap suc (length-update vs f))
  ]

  -- The device found is one of the list.
  pub find-All : (P : V → Type 0) (vs : List V) (v : V) → find vs p ≡ some v → All P vs → P v
  find-All P [] v e a = cc
  find-All P (w ∷ vs) v e a = elim (Bool-cases (p w)) [
    | inl here ↦ subst P (some_injective w v (rw here at e)) (a.0)
    | inr later ↦ find-All P vs v (rw later at e) (a.1)
  ]

  pub length-delete :
      (vs : List V) (v : V) → find vs p ≡ some v → length (delete vs p) + 1 ≡ length vs
  length-delete [] v e = cc
  length-delete (w ∷ vs) v e = elim (Bool-cases (p w)) [
    | inl here ↦ rw here (omega arith)
    | inr later ↦ rw later (omega (arith, length-delete vs v (rw later at e)))
  ]

  -- What holds of every device holds after a change that keeps it for the device found.
  pub update-All :
      (P : V → Type 0) (vs : List V) (f : V → V)
      → ((v : V) → find vs p ≡ some v → P (f v))
      → All P vs
      → All P (update vs p f)
  update-All P [] f h a = tt
  update-All P (w ∷ vs) f h a = elim (Bool-cases (p w)) [
    | inl here ↦ rw here (h w (rw here refl), a.1)
    | inr later ↦ rw later (a.0, update-All P vs f (λ v e. h v (rw later e)) a.1)
  ]

  pub changed-All :
      (P : V → Type 0) (vs : List V) (f : V → V)
      → ((v : V) → P v → P (f v))
      → All P vs
      → All P (update vs p f)
  changed-All P vs f h a = update-All P vs f (λ v e. h v (find-All P vs v e a)) a

  pub delete-All : (P : V → Type 0) (vs : List V) → All P vs → All P (delete vs p)
  delete-All P [] a = tt
  delete-All P (w ∷ vs) a = elim (Bool-cases (p w)) [
    | inl here ↦ rw here (a.1)
    | inr later ↦ rw later (a.0, delete-All P vs (a.1))
  ]
