-- ===== src/Uio/Balanced.antt =====
-- uio_ivshmem/uio_ivshmem.c: enabling and disabling of the interrupt stay balanced.
use axvisor_tools.Common.{
  ℕ, ◌+◌, ◌≡◌, ◌≢◌, ◌≤◌, ◌⊎◌, arith, Bool, true, List, [], ◌∷◌, if◌then◌else◌,
}
use axvisor_tools.Uio.Irq.{
  IrqCall, enable_irq, disable_irq, Pending, Device, Step, interrupt, control, resume, irq_handler,
  control_locked, control_rest, remove_irq, step, run, probed,
}

abbrev pub enables : List IrqCall → ℕ
enables [] = 0
enables (enable_irq ∷ calls) = enables calls + 1
enables (disable_irq ∷ calls) = enables calls

abbrev pub disables : List IrqCall → ℕ
disables [] = 0
disables (enable_irq ∷ calls) = disables calls
disables (disable_irq ∷ calls) = disables calls + 1

abbrev pub one_if : Bool → ℕ
one_if b = if b then 1 else 0

abbrev to_enable : Pending → ℕ
to_enable Pending.enable = 1
to_enable _ = 0

abbrev to_disable : Pending → ℕ
to_disable Pending.disable = 1
to_disable _ = 0

-- The flag and the call under way account for the calls that were made; only with the flag set is a
-- disabling call under way.
abbrev IsBalanced : Device → Type 0
IsBalanced device =
    (disables device.calls + to_disable device.pending
      ≡ enables device.calls + one_if device.irq_disabled + to_enable device.pending)
    × ((device.pending ≢ Pending.disable) ⊎ (device.irq_disabled ≡ true))

handler-IsBalanced :
    (device : Device) (event_status : ℕ)
    → IsBalanced device
    → IsBalanced (irq_handler device event_status).1
unfolding irq_handler
handler-IsBalanced device event_status b = ground arith

control_locked-IsBalanced :
    (device : Device) (irq_on : ℕ)
    → device.pending ≡ Pending.idle
    → IsBalanced device
    → IsBalanced (control_locked device irq_on)
unfolding control_locked
control_locked-IsBalanced device irq_on idle b = ground arith

control_rest-IsBalanced : (device : Device) → IsBalanced device → IsBalanced (control_rest device)
unfolding control_rest
control_rest-IsBalanced device b = ground arith

step-IsBalanced : (device : Device) (s : Step) → IsBalanced device → IsBalanced (step device s)
unfolding step
step-IsBalanced device (interrupt event_status) b = handler-IsBalanced device event_status b
step-IsBalanced device (control irq_on) b = ground (arith, control_locked-IsBalanced device irq_on)
step-IsBalanced device resume b = control_rest-IsBalanced device b

run-IsBalanced :
    (device : Device) (steps : List Step) → IsBalanced device → IsBalanced (run device steps)
unfolding run
run-IsBalanced device [] b = b
run-IsBalanced device (s ∷ steps) b =
    run-IsBalanced (step device s) steps (step-IsBalanced device s b)

-- However interrupts and the halves of `irqcontrol` calls interleave on a probed device, the line is
-- never enabled more often than disabled. Between control calls it is disabled once more than enabled
-- where the flag is set, and as often otherwise; removing the device then leaves it enabled as often as
-- disabled.
pub irq_balance :
    (steps : List Step)
    → let device = run probed steps in
      (enables device.calls ≤ disables device.calls)
      × ((device.pending ≢ Pending.idle)
          ⊎ ((disables device.calls ≡ enables device.calls + one_if device.irq_disabled)
              × (disables (remove_irq device).calls ≡ enables (remove_irq device).calls)))
unfolding remove_irq
irq_balance steps = let b = run-IsBalanced probed steps (ground arith) in ground arith
