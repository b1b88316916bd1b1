-- ===== src/Collect/Jito/Accounts.antt =====
-- collect/src/validators_jito.rs: `jito_accounts`, the two `deserialize_…` and `collect_jito_info`.
-- The crates of the account types and the RPC client are not part of the repository, so reading an
-- account and fetching accounts are parameters. The snapshot is returned in place of being printed.
use delegation_strategy.Prelude.{
  map_option, ℕ, String, Option, List, [], ◌∷◌, ◌++◌, HashMap, insert, or_default, sub_u64, ◌==◌,
  if◌then◌else◌, string_discrete,
}
use delegation_strategy.Store.Dto.Scalars.{DateTime}
use delegation_strategy.Store.Query.{Result, ok, and_then}
use delegation_strategy.Collect.Jito.{
  JitoAccountType, mev_tip_distribution, priority_fee_distribution,
  MevTipDistributionValidatorSnapshot, PriorityFeeDistributionValidatorSnapshot, ValidatorSnapshot,
  of_mev, of_priority_fee, JitoSnapshot, jito_snapshot_version,
}

-- What is read of an account, of either type, by its crate.
pub record Layout (E Data : Type 0) : Type 1 where
  pub Account : Type 0
  pub Root : Type 0
  pub try_deserialize : Data → Result E Account
  pub epoch_created_at : Account → ℕ
  pub validator_vote_account : Account → String
  pub validator_commission_bps : Account → ℕ
  pub total_lamports_transferred : Account → ℕ
  pub merkle_root_upload_authority : Account → String
  pub merkle_root : Account → Option Root
  pub max_total_claim : Root → ℕ
  pub total_funds_claimed : Root → ℕ
  pub max_num_nodes : Root → ℕ
  pub num_nodes_claimed : Root → ℕ

module _ {E Data : Type 0} (layout : Layout E Data) (epoch : ℕ) where
  abbrev pub mev_snapshot_of : layout.Account → MevTipDistributionValidatorSnapshot
  mev_snapshot_of account = record {
    vote_account = layout.validator_vote_account account;
    mev_commission = layout.validator_commission_bps account;
    epoch = epoch;
    total_epoch_rewards = map_option layout.max_total_claim (layout.merkle_root account);
    claimed_epoch_rewards = map_option layout.total_funds_claimed (layout.merkle_root account);
    total_epoch_claimants = map_option layout.max_num_nodes (layout.merkle_root account);
    epoch_active_claimants = map_option layout.num_nodes_claimed (layout.merkle_root account);
  }

  abbrev pub priority_fee_snapshot_of : layout.Account → PriorityFeeDistributionValidatorSnapshot
  priority_fee_snapshot_of account = record {
    vote_account = layout.validator_vote_account account;
    priority_commission = layout.validator_commission_bps account;
    total_lamports_transferred = layout.total_lamports_transferred account;
    merkle_root_upload_authority = layout.merkle_root_upload_authority account;
    epoch = epoch;
    total_epoch_rewards = map_option layout.max_total_claim (layout.merkle_root account);
    claimed_epoch_rewards = map_option layout.total_funds_claimed (layout.merkle_root account);
    total_epoch_claimants = map_option layout.max_num_nodes (layout.merkle_root account);
    epoch_active_claimants = map_option layout.num_nodes_claimed (layout.merkle_root account);
  }

  -- The loop that both `deserialize_…` are, with the validators so far; `entry` makes the snapshot.
  unfoldable pub deserialize_accounts :
      (layout.Account → ValidatorSnapshot)
      → List Data
      → HashMap String ValidatorSnapshot
      → Result E (HashMap String ValidatorSnapshot)
  deserialize_accounts entry [] validators = ok validators
  deserialize_accounts entry (data_ ∷ accounts) validators =
      and_then (layout.try_deserialize data_) (λ account.
        let skipped = deserialize_accounts entry accounts validators in
        let stored = deserialize_accounts entry accounts (
          insert string_discrete (layout.validator_vote_account account) (entry account)
            validators) in
        if layout.epoch_created_at account == epoch then stored else skipped)

  unfoldable pub deserialize_mev_tip_distribution :
      List Data → Result E (HashMap String ValidatorSnapshot)
  unfolding deserialize_accounts
  deserialize_mev_tip_distribution accounts =
      deserialize_accounts (λ account. of_mev (mev_snapshot_of account)) accounts []

  unfoldable pub deserialize_priority_fee_distribution :
      List Data → Result E (HashMap String ValidatorSnapshot)
  unfolding deserialize_accounts
  deserialize_priority_fee_distribution accounts =
      deserialize_accounts (λ account. of_priority_fee (priority_fee_snapshot_of account)) accounts
        []

module _ {E Data : Type 0} (tips fees : Layout E Data) where
  abbrev pub deserialize :
      JitoAccountType → ℕ → List Data → Result E (HashMap String ValidatorSnapshot)
  deserialize mev_tip_distribution epoch = deserialize_mev_tip_distribution tips epoch
  deserialize priority_fee_distribution epoch = deserialize_priority_fee_distribution fees epoch

-- The position in an account of the epoch it was created at: before Jito's upload, and after it.
abbrev pub byte_before_update : ℕ
byte_before_update = 73

abbrev pub byte_updated : ℕ
byte_updated = 137

-- The client: the accounts of a type with the epoch at a position, with all attempts made.
abbrev pub Fetch : Type 0 → Type 0 → Type 0
Fetch E Data = JitoAccountType → ℕ → ℕ → Result E (List Data)

module _ {E Data : Type 0} (fetch : Fetch E Data) where
  unfoldable pub jito_accounts : JitoAccountType → ℕ → Result E (List Data)
  jito_accounts account_type epoch =
      and_then (fetch account_type byte_before_update epoch) (λ before_update.
        and_then (fetch account_type byte_updated epoch) (λ updated. ok (before_update ++ updated)))

  abbrev pub looking_at_epoch : Option ℕ → ℕ → ℕ
  looking_at_epoch override current_epoch = or_default (sub_u64 current_epoch 1) override

  unfoldable pub collect_jito_info :
      Layout E Data
      → Layout E Data
      → Option ℕ
      → DateTime
      → Result E (ℕ × ℕ)
      → JitoAccountType
      → Result E JitoSnapshot
  unfolding jito_accounts deserialize_mev_tip_distribution deserialize_priority_fee_distribution
  collect_jito_info tips fees override created_at epoch_info account_type =
      and_then epoch_info (λ (current : ℕ × ℕ).
        let epoch = looking_at_epoch override current.0 in
        and_then (jito_accounts account_type epoch) (λ accounts.
          and_then (deserialize tips fees account_type epoch accounts) (λ validators. ok (record {
            epoch = epoch;
            version = jito_snapshot_version;
            account_type = account_type;
            loaded_at_epoch = current.0;
            loaded_at_slot_index = current.1;
            created_at = created_at;
            validators = validators;
          }))))
