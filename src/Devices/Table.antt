-- ===== src/Devices/Table.antt =====
-- ivc/ivc.c: what holds of the devices of either side, and the changes of their list that keep it.
use axvisor_tools.Common.{
  ℕ, ◌+◌, ◌-◌, ◌≤◌, ◌<◌, ◌≡◌, ◌⊎◌, inl, inr, sym, ◌∙◌, ap, subst, arith, Bool, some, List, [], ◌∷◌,
  ◌++◌, length, length-append, All, All-append,
}
use axvisor_tools.Devices.Publishers.{
  Channel, freed, unmapped, unpublished, deregistered, refused, Trace, Registry, max_vdevs, find,
  update, delete,
}
use axvisor_tools.Devices.Counted.{any, Holds}
use axvisor_tools.Devices.Found.{find-All, length-update, length-delete, update-All, delete-All}

-- One allocation, mapping, channel and registration is held for each device, and for each of the `others`
-- of the other side.
abbrev pub HoldsFor : {V : Type 0} → ℕ → Trace → List V → Type 0
HoldsFor others t vs =
    Holds any t (length vs + others) (length vs + others) (length vs + others) (length vs + others)

module _ {V : Type 0} (P : V → Type 0) (others : ℕ) where
  pub record Inv (s : Registry V) : Type 0 where
    pub counted : s.vdev_count ≡ length s.vdevs
    pub bounded : s.vdev_count ≤ max_vdevs
    pub exclusive : All P s.vdevs
    pub holds : HoldsFor others s.trace s.vdevs

  -- One more device is registered, with all it needs, or the devices are left alone.
  abbrev pub Adds : Registry V → Registry V → ℕ → Type 0
  Adds s s' n =
      ((s'.vdevs ≡ s.vdevs) × (s'.vdev_count ≡ s.vdev_count) × Holds any s'.trace n n n n)
      ⊎ ((v : V) × P v
          × (s.vdev_count < max_vdevs)
          × (s'.vdevs ≡ s.vdevs ++ (v ∷ []))
          × (s'.vdev_count ≡ s.vdev_count + 1)
          × Holds any s'.trace (n + 1) (n + 1) (n + 1) (n + 1))

  pub added-Inv : (s s' : Registry V) → Inv s → Adds s s' (length s.vdevs + others) → Inv s'
  added-Inv s s' inv (inl (same, count, holds)) = record {
    counted = count ∙ inv.counted ∙ ap length (sym same);
    bounded = omega (arith, count, inv.bounded);
    exclusive = subst (All P) (sym same) inv.exclusive;
    holds = subst (HoldsFor others s'.trace) (sym same) holds;
  }
  added-Inv s s' inv (inr (v, good, room, more, count, holds)) =
      let grows : length s'.vdevs ≡ length s.vdevs + 1 =
        ap length more ∙ length-append s.vdevs (v ∷ []) in
      record {
        counted = omega (arith, count, inv.counted, grows);
        bounded = omega (arith, count, room);
        exclusive = subst (All P) (sym more) (All-append P s.vdevs v inv.exclusive good);
        holds = subst (λ n. Holds any s'.trace n n n n) (omega (arith, grows)) holds;
      }

  module _ (p : V → Bool) where
    -- A change of a flag keeps all else.
    pub flagged-Inv :
        (s : Registry V) (f : V → V)
        → ((v : V) → find s.vdevs p ≡ some v → P (f v))
        → Inv s
        → Inv (record s { vdevs = update s.vdevs p f })
    flagged-Inv s f h inv = record {
      counted = inv.counted ∙ sym (length-update p s.vdevs f);
      bounded = inv.bounded;
      exclusive = update-All p P s.vdevs f h inv.exclusive;
      holds =
          subst (λ n. Holds any s.trace (n + others) (n + others) (n + others) (n + others))
            (sym (length-update p s.vdevs f)) inv.holds;
    }

    -- So does a change that keeps what holds of each device.
    pub changed-Inv :
        (s : Registry V) (f : V → V)
        → ((v : V) → P v → P (f v))
        → Inv s
        → Inv (record s { vdevs = update s.vdevs p f })
    changed-Inv s f h inv =
        flagged-Inv s f (λ v found. h v (find-All p P s.vdevs v found inv.exclusive)) inv

    -- A removal that the hypervisor refuses, and one that it allows.
    pub kept-Inv :
        (s : Registry V) (f : V → V)
        → ((v : V) → find s.vdevs p ≡ some v → P (f v))
        → Inv s
        → Inv (record s { vdevs = update s.vdevs p f; trace = refused ∷ s.trace })
    kept-Inv s f h inv =
        let kept = flagged-Inv s f h inv in
        record {
          counted = kept.counted;
          bounded = kept.bounded;
          exclusive = kept.exclusive;
          holds = ground (arith, kept.holds);
        }

    pub removed-Inv :
        (s : Registry V) (v : V) (channel : Channel)
        → find s.vdevs p ≡ some v
        → Inv s
        → Inv (record s {
          vdev_count = s.vdev_count - 1;
          vdevs = delete s.vdevs p;
          trace = freed ∷ unmapped ∷ deregistered ∷ unpublished channel ∷ s.trace;
        })
    removed-Inv s v channel found inv =
        let less = length-delete p s.vdevs v found in
        record {
          counted = omega (arith, inv.counted, less);
          bounded = omega (arith, inv.bounded);
          exclusive = delete-All p P s.vdevs inv.exclusive;
          holds = ground (arith, inv.holds, less);
        }
