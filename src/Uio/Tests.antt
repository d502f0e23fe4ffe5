-- ===== src/Uio/Tests.antt =====
-- A device whose interrupt fires while user space enables it, and a probe that gets two vectors.
use axvisor_tools.Common.{
  ◌≡◌, ◌≢◌, ◌≤◌, ◌+◌, ◌⊎◌, refl, true, List, [], ◌∷◌, ◌++◌, Errno, some, done, failed, success,
  enospc,
}
use axvisor_tools.Uio.Irq.{
  enable_irq, disable_irq, Pending, Step, interrupt, control, resume, irq_handler, control_locked,
  control_rest, remove_irq, step, run, probed,
}
use axvisor_tools.Uio.Balanced.{enables, disables, one_if, irq_balance}
use axvisor_tools.Uio.Probe.{Answers, ivshmem_revision, probe, remove}
use axvisor_tools.Uio.Cleanup.{
  device, regions, vectors, registers, uio, interrupts, and_then, probe_cleanup,
}

abbrev steps : List Step
steps = interrupt 1 ∷ control 1 ∷ interrupt 1 ∷ resume ∷ interrupt 0 ∷ []

masked_again : (run probed steps).calls ≡ enable_irq ∷ disable_irq ∷ disable_irq ∷ []
unfolding run step irq_handler control_locked control_rest
masked_again = refl

irq_balance_example :
    let d = run probed steps in
    (enables d.calls ≤ disables d.calls)
    × ((d.pending ≢ Pending.idle)
        ⊎ ((disables d.calls ≡ enables d.calls + one_if d.irq_disabled)
            × (disables (remove_irq d).calls ≡ enables (remove_irq d).calls)))
irq_balance_example = irq_balance steps

abbrev two_vectors : Answers
two_vectors = record {
  revision = 1;
  has_memory = true;
  enables = success;
  regions = success;
  vectors = done 2;
  maps = true;
  registers = success;
}

refused : (probe two_vectors).0 ≡ failed enospc
unfolding probe
refused = refl

abbrev working : Answers
working = record two_vectors { vectors = done 1 }

probe_cleanup_example :
    let (code, calls) = probe working in
    ((e : Errno) × (code ≡ failed e) × (and_then calls (some []) ≡ some []))
    ⊎ ((code ≡ success)
        × (working.revision ≡ ivshmem_revision)
        × (working.vectors ≡ done 1)
        × (and_then calls (some [])
            ≡ some (interrupts ∷ uio ∷ registers ∷ vectors ∷ regions ∷ device ∷ []))
        × (and_then (calls ++ remove) (some []) ≡ some []))
probe_cleanup_example = probe_cleanup working
