-- ===== src/Collect/Jito/Snapshot.antt =====
-- collect/src/validators_jito.rs: what the two kinds of a validator's snapshot share.
use delegation_strategy.Prelude.{ℕ, String, Option}
use delegation_strategy.Collect.Jito.{ValidatorSnapshot, of_mev, of_priority_fee}

-- `ValidatorSnapshot::vote_account`, `epoch` and `total_epoch_rewards`.
abbrev pub vote_account : ValidatorSnapshot → String
vote_account (of_mev s) = s.vote_account
vote_account (of_priority_fee s) = s.vote_account

abbrev pub epoch : ValidatorSnapshot → ℕ
epoch (of_mev s) = s.epoch
epoch (of_priority_fee s) = s.epoch

abbrev pub total_epoch_rewards : ValidatorSnapshot → Option ℕ
total_epoch_rewards (of_mev s) = s.total_epoch_rewards
total_epoch_rewards (of_priority_fee s) = s.total_epoch_rewards
