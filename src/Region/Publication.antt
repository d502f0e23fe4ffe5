-- ===== src/Region/Publication.antt =====
-- Publishing a region and accepting it, ivc/region.c.
use axvisor_tools.Common.{
  ℕ, zero, suc, ◌≤◌, ◌<◌, ◌≡◌, ◌≢◌, ◌⊎◌, arith, [], take, length, success, failed, einval, eagain,
  eproto,
}
use axvisor_tools.Ring.Defs.{initialize}
use axvisor_tools.Ring.Inv.{IsValid}
use axvisor_tools.Ring.Refine.{contents, contents-initialize}
use axvisor_tools.Ring.Inv.{initialize-IsValid}
use axvisor_tools.Region.Defs.{
  Region, sizeof_region, init_stores, run_stores, init_publisher, validate, validate_loads,
  direction_publisher_to_subscriber, direction_subscriber_to_publisher,
}

-- A region that holds the layout and carries the expected key is published: its identity is kept, a
-- subscriber that asks for that identity accepts it, and both rings are valid and empty. A smaller
-- region, or one with another key, is refused and left as it is.
pub init_publisher_lem :
    (region : Region) (shm_size channel_key : ℕ)
    → let (code, region') = init_publisher region shm_size channel_key in
      ((shm_size < sizeof_region) × (code ≡ failed einval) × (region' ≡ region))
      ⊎ (((sizeof_region ≤ shm_size)
            × (region.key ≢ channel_key)
            × (code ≡ failed eproto)
            × (region' ≡ region))
          ⊎ ((sizeof_region ≤ shm_size)
              × (code ≡ success)
              × (region'.publisher_id ≡ region.publisher_id)
              × (region'.key ≡ channel_key)
              × (validate region' shm_size region.publisher_id channel_key ≡ success)
              × (contents region'.publisher_to_subscriber ≡ [])
              × (contents region'.subscriber_to_publisher ≡ [])
              × IsValid region'.publisher_to_subscriber
              × IsValid region'.subscriber_to_publisher))
unfolding init_publisher validate_loads initialize
init_publisher_lem region shm_size channel_key = ground (
  arith,
  contents-initialize region.publisher_to_subscriber direction_publisher_to_subscriber,
  contents-initialize region.subscriber_to_publisher direction_subscriber_to_publisher,
  initialize-IsValid region.publisher_to_subscriber direction_publisher_to_subscriber,
  initialize-IsValid region.subscriber_to_publisher direction_subscriber_to_publisher,
)

-- The region behind the first `k` stores.
abbrev pub behind : Region → ℕ → Region
behind region k = run_stores (take k (init_stores region.publisher_id region.key)) region

-- The identity stands through all stores, and the magic is cleared from the first to the last.
behind_lem :
    (region : Region) (k : ℕ)
    → ((behind region k).publisher_id ≡ region.publisher_id)
      × ((behind region k).key ≡ region.key)
      × ((k ≡ 0)
          ⊎ (((behind region k).header.magic ≡ 0)
              ⊎ (length (init_stores region.publisher_id region.key) ≤ k)))
unfolding run_stores init_stores
behind_lem region zero = ground arith
behind_lem region (suc zero) = ground arith
behind_lem region (suc (suc zero)) = ground arith
behind_lem region (suc (suc (suc zero))) = ground arith
behind_lem region (suc (suc (suc (suc zero)))) = ground arith
behind_lem region (suc (suc (suc (suc (suc zero))))) = ground arith
behind_lem region (suc (suc (suc (suc (suc (suc zero)))))) = ground arith
behind_lem region (suc (suc (suc (suc (suc (suc (suc zero))))))) = ground arith
behind_lem region (suc (suc (suc (suc (suc (suc (suc (suc zero)))))))) = ground arith
behind_lem region (suc (suc (suc (suc (suc (suc (suc (suc (suc zero))))))))) = ground arith
behind_lem region (suc (suc (suc (suc (suc (suc (suc (suc (suc (suc zero)))))))))) = ground arith
behind_lem region (suc (suc (suc (suc (suc (suc (suc (suc (suc (suc (suc zero))))))))))) =
    ground arith
behind_lem region (suc (suc (suc (suc (suc (suc (suc (suc (suc (suc (suc (suc zero)))))))))))) =
    ground arith
behind_lem region
      (suc (suc (suc (suc (suc (suc (suc (suc (suc (suc (suc (suc (suc zero))))))))))))) =
    ground arith
behind_lem region
      (suc (suc (suc (suc (suc (suc (suc (suc (suc (suc (suc (suc (suc (suc k)))))))))))))) =
    ground arith

-- While a region that holds the layout is published, a subscriber may ask for the channel. Its loads fall anywhere between
-- the stores, load `n` behind the first `stores n` of them. If the load of the magic falls behind the first store and
-- before the last, the subscriber is told to try again, whatever the region held before and whatever its other loads
-- find.
pub half_published :
    (region : Region) (shm_size : ℕ) (stores : ℕ → ℕ)
    → sizeof_region ≤ shm_size
    → 1 ≤ stores 2
    → stores 2 < length (init_stores region.publisher_id region.key)
    → validate_loads (λ n. behind region (stores n)) shm_size region.publisher_id region.key
      ≡ failed eagain
unfolding validate_loads
half_published region shm_size stores size first short =
    let id = (behind_lem region (stores 0)).0 in
    let key = (behind_lem region (stores 1)).1 in
    let cleared : (behind region (stores 2)).header.magic ≡ 0 =
      ground (arith, (behind_lem region (stores 2)).2, first, short) in
    ground (arith, id, key, cleared, size)
