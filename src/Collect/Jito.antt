-- ===== src/Collect/Jito.antt =====
-- collect/src/validators_jito.rs: the snapshot of Jito's distribution accounts, and its readers. Its
-- `created_at` is a text that the reader parses at once; here it is the parsed time.
pub mod Accounts
pub mod Snapshot
pub mod Reading
pub mod Contents
use delegation_strategy.Prelude.{
  ℕ, String, Option, none, List, [], ◌∷◌, HashMap, insert, string_discrete,
}
use delegation_strategy.Store.Dto.Scalars.{DateTime}

abbrev pub jito_snapshot_version : ℕ
jito_snapshot_version = 1

pub data JitoAccountType : Type 0 where
  mev_tip_distribution priority_fee_distribution : JitoAccountType

abbrev pub db_table_name : JitoAccountType → String
db_table_name mev_tip_distribution = "mev"
db_table_name priority_fee_distribution = "jito_priority_fee"

pub record MevTipDistributionValidatorSnapshot : Type 0 where
  pub vote_account : String
  pub mev_commission : ℕ
  pub epoch : ℕ
  pub total_epoch_rewards : Option ℕ
  pub claimed_epoch_rewards : Option ℕ
  pub total_epoch_claimants : Option ℕ
  pub epoch_active_claimants : Option ℕ

pub record PriorityFeeDistributionValidatorSnapshot : Type 0 where
  pub vote_account : String
  pub priority_commission : ℕ
  pub total_lamports_transferred : ℕ
  pub merkle_root_upload_authority : String
  pub epoch : ℕ
  pub total_epoch_rewards : Option ℕ
  pub claimed_epoch_rewards : Option ℕ
  pub total_epoch_claimants : Option ℕ
  pub epoch_active_claimants : Option ℕ

pub data ValidatorSnapshot : Type 0 where
  of_mev : MevTipDistributionValidatorSnapshot → ValidatorSnapshot
  of_priority_fee : PriorityFeeDistributionValidatorSnapshot → ValidatorSnapshot

pub record JitoSnapshot : Type 0 where
  pub epoch : ℕ
  pub version : ℕ
  pub account_type : JitoAccountType
  pub loaded_at_epoch : ℕ
  pub loaded_at_slot_index : ℕ
  pub created_at : DateTime
  pub validators : HashMap String ValidatorSnapshot

-- The loops over the validators of a snapshot, with the result so far.
unfoldable pub mev_validators_of :
    HashMap String ValidatorSnapshot
    → HashMap String MevTipDistributionValidatorSnapshot
    → HashMap String MevTipDistributionValidatorSnapshot
mev_validators_of [] result = result
mev_validators_of ((vote_account, of_mev s) ∷ validators) result =
    mev_validators_of validators (insert string_discrete vote_account s result)
mev_validators_of ((vote_account, of_priority_fee s) ∷ validators) result =
    mev_validators_of validators result

unfoldable pub priority_fee_validators_of :
    HashMap String ValidatorSnapshot
    → HashMap String PriorityFeeDistributionValidatorSnapshot
    → HashMap String PriorityFeeDistributionValidatorSnapshot
priority_fee_validators_of [] result = result
priority_fee_validators_of ((vote_account, of_mev s) ∷ validators) result =
    priority_fee_validators_of validators result
priority_fee_validators_of ((vote_account, of_priority_fee s) ∷ validators) result =
    priority_fee_validators_of validators (insert string_discrete vote_account s result)

-- None, unless the snapshot is of their account type.
abbrev pub mev_validators_for :
    JitoAccountType
    → HashMap String ValidatorSnapshot
    → HashMap String MevTipDistributionValidatorSnapshot
mev_validators_for mev_tip_distribution validators = mev_validators_of validators []
mev_validators_for priority_fee_distribution validators = []

abbrev pub priority_fee_validators_for :
    JitoAccountType
    → HashMap String ValidatorSnapshot
    → HashMap String PriorityFeeDistributionValidatorSnapshot
priority_fee_validators_for mev_tip_distribution validators = []
priority_fee_validators_for priority_fee_distribution validators =
    priority_fee_validators_of validators []

unfoldable pub get_mev_validators :
    JitoSnapshot → HashMap String MevTipDistributionValidatorSnapshot
unfolding mev_validators_of
get_mev_validators s = mev_validators_for s.account_type s.validators

unfoldable pub get_priority_fee_validators :
    JitoSnapshot → HashMap String PriorityFeeDistributionValidatorSnapshot
unfolding priority_fee_validators_of
get_priority_fee_validators s = priority_fee_validators_for s.account_type s.validators
