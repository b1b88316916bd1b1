-- ===== src/Store/Jito/Composed.antt =====
-- A collected snapshot, stored.
use delegation_strategy.Prelude.{
  ℕ, ◌≡◌, ap, Option, none, All, All-map, DistinctKeys, DistinctKeys-map, string_discrete,
}
use delegation_strategy.Store.Query.{Result, ok}
use delegation_strategy.Store.Dto.Scalars.{DateTime}
use delegation_strategy.Store.Upsert.{Columns}
use delegation_strategy.Store.Dto.Rows.{ValidatorJitoMevInfo, ValidatorJitoPriorityFeeInfo}
use delegation_strategy.Store.Upsert.Merged.{IsOwn, merged}
use delegation_strategy.Store.Upsert.Merging.{upsert-eq-merged}
use delegation_strategy.Collect.Jito.{
  JitoAccountType, mev_tip_distribution, priority_fee_distribution, JitoSnapshot,
  get_mev_validators, get_priority_fee_validators,
}
use delegation_strategy.Collect.Jito.Accounts.{Layout, Fetch, collect_jito_info}
use delegation_strategy.Collect.Jito.Reading.{
  IsEntry, get_mev_validators-IsMevEntry, get_priority_fee_validators-IsPriorityFeeEntry,
  collect_jito_info-IsCollected,
}
use delegation_strategy.Store.Jito.{
  mev_columns, priority_fee_columns, mev_of_snapshot, priority_fee_of_snapshot, mev_upsert,
  priority_fee_upsert, Tables, store_jito, store_mev, store_priority_fee, StoredRow,
}

-- The columns, as a snapshot writes them.
abbrev pub at_mev : JitoSnapshot → Columns (StoredRow ValidatorJitoMevInfo) ValidatorJitoMevInfo
at_mev s = mev_columns s.epoch s.created_at s.loaded_at_slot_index

abbrev pub at_priority_fee :
    JitoSnapshot → Columns (StoredRow ValidatorJitoPriorityFeeInfo) ValidatorJitoPriorityFeeInfo
at_priority_fee s = priority_fee_columns s.epoch s.created_at s.loaded_at_slot_index

mev_upsert-IsOwn :
    (s : JitoSnapshot)
    → All (IsEntry s.epoch) s.validators
    → All (IsOwn (at_mev s) (mev_upsert s)) (mev_upsert s).validators
      × DistinctKeys string_discrete (mev_upsert s).validators
unfolding mev_upsert mev_of_snapshot
mev_upsert-IsOwn s h =
    let (keys, own) = get_mev_validators-IsMevEntry s h in
    (
      All-map _ _ (get_mev_validators s) own,
      DistinctKeys-map string_discrete mev_of_snapshot (get_mev_validators s) keys,
    )

priority_fee_upsert-IsOwn :
    (s : JitoSnapshot)
    → All (IsEntry s.epoch) s.validators
    → All (IsOwn (at_priority_fee s) (priority_fee_upsert s)) (priority_fee_upsert s).validators
      × DistinctKeys string_discrete (priority_fee_upsert s).validators
unfolding priority_fee_upsert priority_fee_of_snapshot
priority_fee_upsert-IsOwn s h =
    let (keys, own) = get_priority_fee_validators-IsPriorityFeeEntry s h in
    (
      All-map _ _ (get_priority_fee_validators s) own,
      DistinctKeys-map string_discrete priority_fee_of_snapshot (get_priority_fee_validators s)
          keys,
    )

-- The table of the account type, with the snapshot merged in; the other one as it was.
abbrev pub merged_tables : JitoSnapshot → JitoAccountType → Tables → Tables
merged_tables s mev_tip_distribution tables = record tables {
  mev = merged (at_mev s) (mev_upsert s) tables.mev;
}
merged_tables s priority_fee_distribution tables = record tables {
  jito_priority_fee = merged (at_priority_fee s) (priority_fee_upsert s) tables.jito_priority_fee;
}

store_jito-eq-merged_tables :
    {E : Type 0} (fails : ℕ → Option E) (s : JitoSnapshot) (account_type : JitoAccountType)
    (tables : Tables)
    → ((k : ℕ) → fails k ≡ none)
    → All (IsEntry s.epoch) s.validators
    → store_jito fails s account_type tables ≡ (merged_tables s account_type tables, ok tt)
unfolding store_jito store_mev store_priority_fee mev_upsert priority_fee_upsert
store_jito-eq-merged_tables fails s mev_tip_distribution tables h e =
    let (own, keys) = mev_upsert-IsOwn s e in
    ap (λ r. (record tables { mev = r.0 }, r.1))
      (upsert-eq-merged (at_mev s) (mev_upsert s) own keys fails tables.mev h)
store_jito-eq-merged_tables fails s priority_fee_distribution tables h e =
    let (own, keys) = priority_fee_upsert-IsOwn s e in
    ap (λ r. (record tables { jito_priority_fee = r.0 }, r.1))
      (upsert-eq-merged (at_priority_fee s) (priority_fee_upsert s) own keys fails
        tables.jito_priority_fee h)

-- A collected snapshot that is stored without a failing statement is merged into the table of its
-- account type: each row of the snapshot's epoch takes its validator's values, each validator without
-- such a row has a new one at the end, and all other rows and the other table stay as they were.
pub collect_jito_info-store_jito :
    {E D F : Type 0} (fetch : Fetch E D) (tips fees : Layout E D) (override : Option ℕ)
    (created_at : DateTime) (epoch_info : Result E (ℕ × ℕ)) (account_type : JitoAccountType)
    (snapshot : JitoSnapshot) (fails : ℕ → Option F) (tables : Tables)
    → collect_jito_info fetch tips fees override created_at epoch_info account_type ≡ ok snapshot
    → ((k : ℕ) → fails k ≡ none)
    → store_jito fails snapshot account_type tables
      ≡ (merged_tables snapshot account_type tables, ok tt)
collect_jito_info-store_jito fetch tips fees override created_at epoch_info account_type snapshot
      fails tables e h =
    store_jito-eq-merged_tables fails snapshot account_type tables h
      (collect_jito_info-IsCollected fetch tips fees override created_at epoch_info account_type
        snapshot e).1.1
