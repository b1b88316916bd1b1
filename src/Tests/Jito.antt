-- ===== src/Tests/Jito.antt =====
-- The collection and the storing of Jito's accounts at concrete inputs.
use delegation_strategy.Prelude.{
  ℕ, ◌≤◌, ◌≡◌, refl, String, Option, none, some, List, [], ◌∷◌, find, count, All, DistinctKeys,
  string_discrete, insert, get, or_default, sub_u64,
}
use delegation_strategy.Store.Query.{ok}
use delegation_strategy.Store.Dto.Rows.{ValidatorJitoMevInfo}
use delegation_strategy.Store.Dto.Records.{JitoMevRecord, JitoPriorityFeeRecord}
use delegation_strategy.Store.Upsert.{Upsert, Columns, upsert}
use delegation_strategy.Store.Upsert.Merged.{IsOwn, merged}
use delegation_strategy.Store.Upsert.Merging.{upsert-eq-merged}
use delegation_strategy.Collect.Jito.{
  mev_tip_distribution, MevTipDistributionValidatorSnapshot, of_mev, JitoSnapshot,
}
use delegation_strategy.Collect.Jito.Accounts.{Layout, Fetch, collect_jito_info}
use delegation_strategy.Collect.Jito.Contents.{HasLast, collect_jito_info-last}
use delegation_strategy.Store.Jito.{StoredRow, mev_columns, Tables, store_jito}
use delegation_strategy.Store.Jito.Composed.{merged_tables, collect_jito_info-store_jito}
use delegation_strategy.Store.Jito.Last.{mev_key, priority_fee_key, combine_records}
use delegation_strategy.Store.Jito.Last.Joined.{has_key, joined, last_with, combine_records-joined}

-- An account is its vote account and the epoch that it was created at.
abbrev layout : Layout String (String × ℕ)
layout = record {
  Account = String × ℕ;
  Root = ℕ;
  try_deserialize = λ d. ok d;
  epoch_created_at = λ a. a.1;
  validator_vote_account = λ a. a.0;
  validator_commission_bps = λ a. 800;
  total_lamports_transferred = λ a. 5;
  merkle_root_upload_authority = λ a. "authority";
  merkle_root = λ a. some 7;
  max_total_claim = λ r. r;
  total_funds_claimed = λ r. r;
  max_num_nodes = λ r. r;
  num_nodes_claimed = λ r. r;
}

abbrev fetch : Fetch String (String × ℕ)
fetch account_type position epoch = ok (("a", epoch) ∷ ("b", 3) ∷ [])

abbrev a_snapshot : MevTipDistributionValidatorSnapshot
a_snapshot = record {
  vote_account = "a";
  mev_commission = 800;
  epoch = 9;
  total_epoch_rewards = some 7;
  claimed_epoch_rewards = some 7;
  total_epoch_claimants = some 7;
  epoch_active_claimants = some 7;
}

abbrev snapshot : JitoSnapshot
snapshot = record {
  epoch = 9;
  version = 1;
  account_type = mev_tip_distribution;
  loaded_at_epoch = 10;
  loaded_at_slot_index = 100;
  created_at = 5;
  validators = ("a", of_mev a_snapshot) ∷ [];
}

collected :
    collect_jito_info fetch layout layout none 5 (ok (10, 100)) mev_tip_distribution ≡ ok snapshot
unfolding collect_jito_info string_discrete insert
collected = refl

collect_jito_info-last_example :
    (found : JitoSnapshot) × (collect_jito_info fetch layout layout none 5
        (ok (10, 100))
        mev_tip_distribution
      ≡ ok found)
    × (found.account_type ≡ mev_tip_distribution)
    × (found.epoch ≡ or_default (sub_u64 10 1) none)
    × (found.loaded_at_epoch ≡ 10)
    × (found.loaded_at_slot_index ≡ 100)
    × ((va : String)
        → HasLast fetch layout layout mev_tip_distribution found.epoch
            (("a", 9) ∷ ("b", 3) ∷ ("a", 9) ∷ ("b", 3) ∷ [])
            found.validators
            va)
collect_jito_info-last_example =
    collect_jito_info-last fetch layout layout none 5 10 100 mev_tip_distribution
      (("a", 9) ∷ ("b", 3) ∷ []) (("a", 9) ∷ ("b", 3) ∷ [])
      (("a", 9) ∷ ("b", 3) ∷ ("a", 9) ∷ ("b", 3) ∷ []) refl refl refl

abbrev info : String → ℕ → ValidatorJitoMevInfo
info vote_account epoch = record {
  vote_account = vote_account;
  mev_commission = 10;
  epoch = epoch;
  total_epoch_rewards = none;
  claimed_epoch_rewards = none;
  total_epoch_claimants = none;
  epoch_active_claimants = none;
}

abbrev row : String → ℕ → StoredRow ValidatorJitoMevInfo
row vote_account epoch = record { info = info vote_account epoch; epoch_slot = 50; created_at = 4 }

-- Of `a`, a row of the epoch before and one of the snapshot's epoch.
abbrev tables : Tables
tables = record { mev = row "a" 8 ∷ row "a" 9 ∷ []; jito_priority_fee = [] }

abbrev no_failure : ℕ → Option String
no_failure n = none

collect_jito_info-store_jito_example :
    store_jito no_failure snapshot mev_tip_distribution tables
    ≡ (merged_tables snapshot mev_tip_distribution tables, ok tt)
collect_jito_info-store_jito_example =
    collect_jito_info-store_jito fetch layout layout none 5 (ok (10, 100)) mev_tip_distribution
      snapshot no_failure tables collected (λ k. refl)

abbrev two_infos : Upsert ValidatorJitoMevInfo
two_infos = record { epoch = 9; validators = ("a", info "a" 9) ∷ ("b", info "b" 9) ∷ [] }

abbrev columns : Columns (StoredRow ValidatorJitoMevInfo) ValidatorJitoMevInfo
columns = mev_columns 9 6 70

two_infos-IsOwn : All (IsOwn columns two_infos) two_infos.validators
two_infos-IsOwn = ((refl, refl), ((refl, refl), tt))

two_infos-DistinctKeys : DistinctKeys string_discrete two_infos.validators
unfolding string_discrete get
two_infos-DistinctKeys = (refl, (refl, tt))

upsert-eq-merged_example :
    upsert columns two_infos no_failure tables.mev ≡ (merged columns two_infos tables.mev, ok tt)
upsert-eq-merged_example =
    upsert-eq-merged columns two_infos two_infos-IsOwn two_infos-DistinctKeys no_failure tables.mev
      (λ k. refl)

abbrev mevs : List JitoMevRecord
mevs = record { epoch = 9; vote_account = "a"; mev_commission_bps = 800 } ∷ []

abbrev fees : List JitoPriorityFeeRecord
fees =
    record {
      epoch = 9;
      priority_commission_bps = 5000;
      vote_account = "b";
      total_lamports_transferred = 12;
    }
    ∷ []

combine_records-joined_example :
    (find (has_key ("b", 9)) (combine_records mevs fees)
      ≡ joined
          (last_with mev_key ("b", 9) mevs)
          (last_with priority_fee_key ("b", 9) fees)
          ("b", 9))
    × (count (has_key ("b", 9)) (combine_records mevs fees) ≤ 1)
combine_records-joined_example = combine_records-joined mevs fees ("b", 9)
