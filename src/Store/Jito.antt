-- ===== src/Store/Jito.antt =====
-- store/src/validators_jito.rs: `store_jito`, over the upsert that both of its tables share. The
-- parameters `store_mev` and `store_priority_fee` bind, and the columns, are in Store/Upsert.
pub mod Composed
pub mod Last
use delegation_strategy.Prelude.{
  refl, map_option, ℕ, String, Option, List, [], ◌∷◌, HashMap, map, ℤ, pos, to_i32,
}
use delegation_strategy.Store.Query.{Result}
use delegation_strategy.Store.Dto.Scalars.{Decimal, DateTime}
use delegation_strategy.Store.Dto.Rows.{ValidatorJitoMevInfo, ValidatorJitoPriorityFeeInfo}
use delegation_strategy.Store.Upsert.{Upsert, Columns, upsert}
use delegation_strategy.Collect.Jito.{
  JitoAccountType, mev_tip_distribution, priority_fee_distribution,
  MevTipDistributionValidatorSnapshot, PriorityFeeDistributionValidatorSnapshot, JitoSnapshot,
  get_mev_validators, get_priority_fee_validators,
}

unfoldable pub mev_of_snapshot : MevTipDistributionValidatorSnapshot → ValidatorJitoMevInfo
unfolding to_i32
mev_of_snapshot v = record {
  vote_account = v.vote_account;
  mev_commission = v.mev_commission;
  epoch = v.epoch;
  total_epoch_rewards = v.total_epoch_rewards;
  claimed_epoch_rewards = v.claimed_epoch_rewards;
  total_epoch_claimants = map_option to_i32 v.total_epoch_claimants;
  epoch_active_claimants = map_option to_i32 v.epoch_active_claimants;
}

unfoldable pub priority_fee_of_snapshot :
    PriorityFeeDistributionValidatorSnapshot → ValidatorJitoPriorityFeeInfo
unfolding to_i32
priority_fee_of_snapshot v = record {
  vote_account = v.vote_account;
  priority_commission = v.priority_commission;
  total_lamports_transferred = v.total_lamports_transferred;
  epoch = v.epoch;
  total_epoch_rewards = v.total_epoch_rewards;
  claimed_epoch_rewards = v.claimed_epoch_rewards;
  total_epoch_claimants = map_option to_i32 v.total_epoch_claimants;
  epoch_active_claimants = map_option to_i32 v.epoch_active_claimants;
}

-- A row of either table: the columns of the record, and the two that the snapshot gives. UPDATE keeps
-- the time of creation.
pub record StoredRow (I : Type 0) : Type 0 where
  pub info : I
  pub epoch_slot : Decimal
  pub created_at : DateTime

abbrev pub mev_columns :
    Decimal → DateTime → Decimal → Columns (StoredRow ValidatorJitoMevInfo) ValidatorJitoMevInfo
mev_columns epoch created_at loaded_at_slot_index = record {
  row_account = λ r. r.info.vote_account;
  row_epoch = λ r. r.info.epoch;
  vote_account = λ v. v.vote_account;
  epoch = λ v. v.epoch;
  revise = λ r v. record r { info = v; epoch_slot = loaded_at_slot_index };
  inserted = λ v. record {
    info = record v { epoch = epoch };
    epoch_slot = loaded_at_slot_index;
    created_at = created_at;
  };
  revise_account = λ r v. refl;
  revise_epoch = λ r v. refl;
  revise_twice = λ r v. refl;
}

abbrev pub priority_fee_columns :
    Decimal
    → DateTime
    → Decimal
    → Columns (StoredRow ValidatorJitoPriorityFeeInfo) ValidatorJitoPriorityFeeInfo
priority_fee_columns epoch created_at loaded_at_slot_index = record {
  row_account = λ r. r.info.vote_account;
  row_epoch = λ r. r.info.epoch;
  vote_account = λ v. v.vote_account;
  epoch = λ v. v.epoch;
  revise = λ r v. record r { info = v; epoch_slot = loaded_at_slot_index };
  inserted = λ v. record {
    info = record v { epoch = epoch };
    epoch_slot = loaded_at_slot_index;
    created_at = created_at;
  };
  revise_account = λ r v. refl;
  revise_epoch = λ r v. refl;
  revise_twice = λ r v. refl;
}

unfoldable pub mev_upsert : JitoSnapshot → Upsert ValidatorJitoMevInfo
unfolding mev_of_snapshot
mev_upsert s = record {
  epoch = s.epoch;
  validators = map (λ v. (v.0, mev_of_snapshot v.1)) (get_mev_validators s);
}

unfoldable pub priority_fee_upsert : JitoSnapshot → Upsert ValidatorJitoPriorityFeeInfo
unfolding priority_fee_of_snapshot
priority_fee_upsert s = record {
  epoch = s.epoch;
  validators = map (λ v. (v.0, priority_fee_of_snapshot v.1)) (get_priority_fee_validators s);
}

-- The two tables.
pub record Tables : Type 0 where
  pub mev : List (StoredRow ValidatorJitoMevInfo)
  pub jito_priority_fee : List (StoredRow ValidatorJitoPriorityFeeInfo)

unfoldable pub store_mev :
    {E : Type 0}
    → (ℕ → Option E)
    → DateTime
    → Decimal
    → Upsert ValidatorJitoMevInfo
    → List (StoredRow ValidatorJitoMevInfo)
    → List (StoredRow ValidatorJitoMevInfo) × Result E Unit
store_mev fails created_at loaded_at_slot_index u rows =
    upsert (mev_columns u.epoch created_at loaded_at_slot_index) u fails rows

unfoldable pub store_priority_fee :
    {E : Type 0}
    → (ℕ → Option E)
    → DateTime
    → Decimal
    → Upsert ValidatorJitoPriorityFeeInfo
    → List (StoredRow ValidatorJitoPriorityFeeInfo)
    → List (StoredRow ValidatorJitoPriorityFeeInfo) × Result E Unit
store_priority_fee fails created_at loaded_at_slot_index u rows =
    upsert (priority_fee_columns u.epoch created_at loaded_at_slot_index) u fails rows

module _ {E : Type 0} (fails : ℕ → Option E) (snapshot : JitoSnapshot) where
  -- What `account_type` selects is given on the command line, not read from the snapshot.
  unfoldable pub store_jito : JitoAccountType → Tables → Tables × Result E Unit
  unfolding mev_upsert priority_fee_upsert store_mev store_priority_fee
  store_jito mev_tip_distribution tables =
      let (rows, result) =
        store_mev fails snapshot.created_at snapshot.loaded_at_slot_index (mev_upsert snapshot)
          tables.mev in
      (record tables { mev = rows }, result)
  store_jito priority_fee_distribution tables =
      let (rows, result) =
        store_priority_fee fails snapshot.created_at snapshot.loaded_at_slot_index
          (priority_fee_upsert snapshot) tables.jito_priority_fee in
      (record tables { jito_priority_fee = rows }, result)
