-- ===== src/Devices/Steps.antt =====
-- ivc/ivc.c: publishing, unpublishing, opening, reading, writing and closing of publisher devices in any
-- order.
use axvisor_tools.Common.{ℕ, none, some, List, [], ◌∷◌, if◌then◌else◌, Code}
use axvisor_tools.Ring.Defs.{Ring}
use axvisor_tools.Devices.Publishers.{
  Kernel, Publications, publish_channel, find, has_id, unpublish_locked, unpublish_rest,
  open_device, release_device, update,
}
use axvisor_tools.Devices.Send.{Pause, SendRound}
use axvisor_tools.Devices.Receive.{Round}
use axvisor_tools.Devices.Files.{after_read, after_write, publisher_read, publisher_write}

-- The end of an unpublication, and the open, the close, the read and the write of a file, name the device.
-- A read or a write is given the ring as it is then, and its rounds say what others do to it
-- meanwhile; it is a step when it returns.
pub data Step : Type 0 where
  publishes : ℕ → ℕ → Step
  unpublish_begins unpublish_ends opens releases : ℕ → Step
  reads : ℕ → Code → List (Round (Unit {0})) → Ring → ℕ → Step
  writes : ℕ → Code → List (Pause (Unit {0})) → List (SendRound (Unit {0})) → List ℕ → Ring → Step

-- A thread is behind the first part of an unpublication exactly where the device is marked.
unfoldable pub step : Kernel → Publications → Step → Publications
step k s (publishes key expected_shm_size) = (publish_channel k s key expected_shm_size).1
step k s (unpublish_begins key) = (unpublish_locked s key).1
step k s (unpublish_ends id) = elim (find s.vdevs (has_id id)) [
  | none ↦ s
  | some v ↦ if v.removing then (unpublish_rest k s v.key id).1 else s
]
step k s (opens id) = (open_device s id).1
step k s (releases id) = release_device s id
step k s (reads id locked rounds ring count) = record s {
  vdevs =
      update s.vdevs (has_id id)
        (λ v. after_read v (publisher_read locked rounds v tt ring count 0));
}
step k s (writes id locked pauses rounds user ring) = record s {
  vdevs =
      update s.vdevs (has_id id)
        (λ v. after_write v (publisher_write locked pauses rounds user v tt ring 0));
}

unfoldable pub run : Kernel → Publications → List Step → Publications
run k s [] = s
run k s (st ∷ steps) = run k (step k s st) steps

-- The static variables of the driver when it is loaded.
abbrev pub loaded : Publications
loaded = record { vdev_count = 0; next_vdev_id = 0; vdevs = []; trace = [] }
