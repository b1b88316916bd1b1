-- ===== src/Check/Decisions.antt =====
-- When the checks let a collection start.
use delegation_strategy.Prelude.{ℕ, ◌+◌, ◌-◌, ◌<◌, ◌≡◌, true, some, ◌↔◌, u64_mod, arith}
use delegation_strategy.Store.Query.{ok}
use delegation_strategy.Check.{EpochInfo, check_block_rewards, sub_u64}

module _ {E : Type 0} where
  -- With data stored, in an epoch from 1 on, a block rewards collection starts exactly if the epoch
  -- before the current one is later than the stored one and the slot index is past the wait.
  pub check_block_rewards_iff :
      (wait sql_epoch : ℕ) (current : EpochInfo)
      → 0 < current.epoch
      → current.epoch < u64_mod
      → (check_block_rewards {E = E} wait (ok (some sql_epoch)) (ok current) ≡ ok true)
        ↔ ((sql_epoch + 1 < current.epoch) × (wait < current.slot_index))
  unfolding check_block_rewards
  check_block_rewards_iff wait sql_epoch current pos w =
      rw (exact) (λ h. ground arith, λ h. ground arith)
    where
      exact : sub_u64 current.epoch 1 ≡ current.epoch - 1
      exact = omega arith
