-- ===== src/Uio/Irq.antt =====
-- uio_ivshmem/uio_ivshmem.c: masking of the interrupt. The calls of the kernel that enable and disable
-- the line are kept as a list. The handler runs at any time; the calls of `irqcontrol` come one after the
-- other, since the core of UIO holds a mutex around each, and what they call stands behind the lock, so a
-- handler may come in between.
use axvisor_tools.Common.{
  ℕ, Bool, true, false, ◌&&◌, not, List, [], ◌∷◌, ◌==◌, if◌then◌else◌, bit_and,
}

-- `enable_irq` and `disable_irq_nosync`.
pub data IrqCall : Type 0 where
  enable_irq disable_irq : IrqCall

-- What `irqcontrol` has still to do behind its lock.
pub data Pending : Type 0 where
  idle enable disable nothing : Pending

pub record Device : Type 0 where
  pub irq_disabled : Bool
  pub calls : List IrqCall
  pub pending : Pending

pub data Handled : Type 0 where
  irq_none irq_handled : Handled

abbrev pub event_pending : ℕ
event_pending = 1

-- `event_status` is what the register reads.
unfoldable pub irq_handler : Device → ℕ → Handled × Device
irq_handler device event_status =
    if bit_and event_status event_pending == 0 then (Handled.irq_none, device) else (
      Handled.irq_handled,
      if not device.irq_disabled
          then record device { calls = disable_irq ∷ device.calls; irq_disabled = true }
          else device,
    )

-- `irqcontrol` up to the end of its lock.
unfoldable pub control_locked : Device → ℕ → Device
control_locked device irq_on =
    if not (irq_on == 0) && device.irq_disabled
    then record device { irq_disabled = false; pending = Pending.enable }
    else if (irq_on == 0) && not device.irq_disabled
    then record device { irq_disabled = true; pending = Pending.disable }
    else record device { pending = Pending.nothing }

-- The rest of `irqcontrol`.
unfoldable pub control_rest : Device → Device
control_rest device = elim device.pending [
  | Pending.enable ↦ record device { calls = enable_irq ∷ device.calls; pending = Pending.idle }
  | Pending.disable ↦ record device { calls = disable_irq ∷ device.calls; pending = Pending.idle }
  | _ ↦ record device { pending = Pending.idle }
]

-- The part of `ivshmem_uio_remove` between `uio_unregister_device`, after which neither the handler nor
-- `irqcontrol` runs, and `pci_iounmap`.
unfoldable pub remove_irq : Device → Device
remove_irq device =
    if device.irq_disabled
    then record device { irq_disabled = false; calls = enable_irq ∷ device.calls }
    else device

pub data Step : Type 0 where
  interrupt : ℕ → Step
  control : ℕ → Step
  resume : Step

-- A control call begins when none is under way.
unfoldable pub step : Device → Step → Device
step device (interrupt event_status) = (irq_handler device event_status).1
step device (control irq_on) = elim device.pending [
  | Pending.idle ↦ control_locked device irq_on
  | _ ↦ device
]
step device resume = control_rest device

unfoldable pub run : Device → List Step → Device
run device [] = device
run device (s ∷ steps) = run (step device s) steps

-- The device as `devm_kzalloc` and `uio_register_device` leave it.
abbrev pub probed : Device
probed = record { irq_disabled = false; calls = []; pending = Pending.idle }
