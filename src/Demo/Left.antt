-- ===== src/Demo/Left.antt =====
-- demo/subscribe.c: what the subscriber's program leaves behind.
use axvisor_tools.Common.{ℕ, ◌≡◌, ◌≢◌, ◌⊎◌, some, List, [], ◌∷◌, All}
use axvisor_tools.AppProto.Defs.{AppMessage, kind_request}
use axvisor_tools.Ulib.Subscriber.{Subscriber}
use axvisor_tools.Ulib.Balance.{Holds}
use axvisor_tools.Demo.Accepted.{sequences}
use axvisor_tools.Demo.Subscribe.{SubscribeExit}
use axvisor_tools.Demo.Requests.{IsRequest}

module _ (descriptor key : ℕ) where
  -- All five requests have been acknowledged.
  abbrev pub IsServed : List AppMessage → Type 0
  IsServed acknowledged =
      (sequences kind_request acknowledged ≡ 1 ∷ 2 ∷ 3 ∷ 4 ∷ 5 ∷ []) × All IsRequest acknowledged

  -- The program has ended and holds what it held before, and exit code 0 says that all requests came.
  abbrev pub Leaves : SubscribeExit → ℕ → ℕ → ℕ → Type 0
  Leaves o n d c =
      (ret : ℕ) × (o.ret ≡ some ret)
      × Holds descriptor key o.trace n d c
      × ((ret ≢ 0) ⊎ IsServed o.acknowledged)
