-- ===== src/Devices/Unload.antt =====
-- ivc/ivc.c and ivc/main.c: what the module holds while it is used, and what its unload leaves.
use axvisor_tools.Common.{tally, ℕ, ◌+◌, ◌≡◌, Bool, false, none, some, List, [], ◌∷◌}
use axvisor_tools.Devices.Publishers.{Channel, own, theirs, Trace, Kernel}
use axvisor_tools.Devices.Counted.{any, count, gave_channel, stranded_channel, Holds}
use axvisor_tools.Devices.Steps.{Step, step}
use axvisor_tools.Devices.Exclusive as Pub
use axvisor_tools.Devices.Subscribers.{Look}
use axvisor_tools.Devices.SubscriberSteps as SubscriberSteps
use axvisor_tools.Devices.Watched as Sub
use axvisor_tools.Devices.SubscriberSteps.{SubscriberStep, subscribes}
use axvisor_tools.Devices.Driver.{
  Driver, publications_of, subscriptions_of, with_publications, with_subscriptions, Request,
  manager_ioctl, Module,
}

-- A use of the module: a request of `ioctl`, or a step of one side that it or an open device makes.
pub data Use : Type 0 where
  asks : List Look → Bool → Bool → Request → Use
  publisher_step : Step → Use
  subscriber_step : SubscriberStep → Use

-- A request is a step when it returns.
unfoldable pub use_driver : Kernel → Driver → Use → Driver
use_driver k d (asks looks copies_in copies_out request) =
    let (ret, d') = manager_ioctl k looks copies_in copies_out d request in
    elim ret [ none ↦ d | some _ ↦ d' ]
use_driver k d (publisher_step st) = with_publications d (step k (publications_of d) st)
use_driver k d (subscriber_step st) =
    with_subscriptions d (SubscriberSteps.step k (subscriptions_of d) st)

unfoldable pub use_all : Kernel → Driver → List Use → Driver
use_all k d [] = d
use_all k d (u ∷ us) = use_all k (use_driver k d u) us

-- How often channels that `p` holds of have been given back, or the hypervisor was asked to take them and
-- refused.
abbrev pub gone : (Channel → Bool) → Trace → ℕ
gone p t = count (gave_channel p) t + count (stranded_channel p) t

-- The hypervisor has been asked to take back the channel of each device that was there, once.
abbrev pub AsksBack : (Channel → Bool) → Driver → Module → Type 0
AsksBack p d m =
    gone p m.driver.trace
    ≡ gone p d.trace
      + tally (λ v. p (own v.key)) d.publications.vdevs
      + tally (λ v. p (theirs v.publisher_id v.key)) d.subscriptions.vdevs

-- Nothing is registered, listed or held.
abbrev pub IsUnloaded : Module → Type 0
IsUnloaded m =
    (m.manager ≡ false)
    × (m.ivshmem ≡ false)
    × (m.driver.publications.vdevs ≡ [])
    × (m.driver.subscriptions.vdevs ≡ [])
    × Holds any m.driver.trace 0 0 0 0
