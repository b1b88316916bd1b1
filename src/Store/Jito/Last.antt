-- ===== src/Store/Jito/Last.antt =====
-- store/src/validators_jito.rs: `get_last_mev_info`, `get_last_priority_fee_info` and
-- `get_last_jito_info`. What the queries read is given: the tables' rows and the greatest epoch of
-- `cluster_info`, none if it is empty; a query's error takes the place of its rows. The comparison
-- `epoch > last_epoch - epochs` is of signed NUMERICs, so `epochs` stands on the other side here.
pub mod Joined
use delegation_strategy.Prelude.{
  map_option, ℕ, ◌+◌, String, Bool, false, Option, none, some, List, [], ◌∷◌, HashMap, keys, map,
  filter_map, keep, ltb, if◌then◌else◌, holds, get, insert, add, string_discrete, ℕ_discrete,
  pair_discrete, u64_mod,
}
use delegation_strategy.Store.Query.{Result, ok, err, and_then, map_rows}
use delegation_strategy.Store.Dto.Scalars.{Decimal}
use delegation_strategy.Store.Dto.Rows.{ValidatorJitoMevInfo, ValidatorJitoPriorityFeeInfo}
use delegation_strategy.Store.Dto.Records.{JitoMevRecord, JitoPriorityFeeRecord, JitoRecord}

-- WHERE epoch > cluster.last_epoch - $1, false where the last epoch is NULL.
abbrev pub in_window : Option Decimal → ℕ → Decimal → Bool
in_window none epochs epoch = false
in_window (some last_epoch) epochs epoch = ltb last_epoch (epoch + epochs)

-- The vote account and the epoch of a row.
module _ {I : Type 0} (vote_account : I → String) (epoch_of : I → Decimal) where
  -- The row of the greatest epoch; of rows of one epoch, the first.
  abbrev pub newest_of : Option I → I → I
  newest_of none r = r
  newest_of (some s) r = if ltb (epoch_of r) (epoch_of s) then s else r

  unfoldable pub newest : List I → Option I
  newest [] = none
  newest (r ∷ rs) = some (newest_of (newest rs) r)

  unfoldable pub accounts : List I → List String
  accounts [] = []
  accounts (r ∷ rs) = add string_discrete (vote_account r) (accounts rs)

  -- ROW_NUMBER() OVER (PARTITION BY vote_account ORDER BY epoch DESC) = 1
  unfoldable pub last_rows : Option Decimal → ℕ → List I → List I
  unfolding newest accounts
  last_rows last_epoch epochs rows =
      let filtered = keep (λ r. in_window last_epoch epochs (epoch_of r)) rows in
      filter_map (λ va. newest (keep (λ r. holds (string_discrete (vote_account r) va)) filtered))
        (accounts filtered)

abbrev pub mev_record : ValidatorJitoMevInfo → JitoMevRecord
mev_record r = record {
  epoch = r.epoch;
  vote_account = r.vote_account;
  mev_commission_bps = r.mev_commission;
}

abbrev pub priority_fee_record : ValidatorJitoPriorityFeeInfo → JitoPriorityFeeRecord
priority_fee_record r = record {
  epoch = r.epoch;
  priority_commission_bps = r.priority_commission;
  vote_account = r.vote_account;
  total_lamports_transferred = r.total_lamports_transferred;
}

-- The two maps are keyed by the vote account and the epoch.
abbrev pub Key : Type 0
Key = String × Decimal

unfoldable pub key_discrete : Discrete Key
unfolding pair_discrete
key_discrete = pair_discrete string_discrete ℕ_discrete

unfoldable pub index : {R : Type 0} → (R → Key) → List R → HashMap Key R → HashMap Key R
index key [] m = m
index key (r ∷ rs) m = index key rs (insert key_discrete (key r) r m)

unfoldable pub extend : List Key → List Key → List Key
extend [] all_keys = all_keys
extend (k ∷ ks) all_keys = extend ks (add key_discrete k all_keys)

abbrev pub mev_key : JitoMevRecord → Key
mev_key r = (r.vote_account, r.epoch)

abbrev pub priority_fee_key : JitoPriorityFeeRecord → Key
priority_fee_key r = (r.vote_account, r.epoch)

abbrev pub joined_record : Option JitoMevRecord → Option JitoPriorityFeeRecord → Key → JitoRecord
joined_record mev fee k = record {
  epoch = k.1;
  vote_account = k.0;
  mev_commission_bps = map_option (λ r. r.mev_commission_bps) mev;
  priority_commission_bps = map_option (λ r. r.priority_commission_bps) fee;
  priority_total_lamports_transferred = map_option (λ r. r.total_lamports_transferred) fee;
}

unfoldable pub combine_records : List JitoMevRecord → List JitoPriorityFeeRecord → List JitoRecord
unfolding index extend
combine_records mev_records priority_fee_records =
    let mev_map = index mev_key mev_records [] in
    let priority_fee_map = index priority_fee_key priority_fee_records [] in
    let all_keys = extend (keys priority_fee_map) (extend (keys mev_map) []) in
    map (λ k. joined_record (get key_discrete k mev_map) (get key_discrete k priority_fee_map) k)
      all_keys

module _ {E : Type 0} (last_epoch : Option Decimal) (epochs : ℕ) where
  unfoldable pub get_last_mev_info :
      Result E (List ValidatorJitoMevInfo) → Result E (List JitoMevRecord)
  unfolding last_rows
  get_last_mev_info table = and_then table (λ rows.
      map_rows (λ r. ok (mev_record r))
        (last_rows (λ r. r.vote_account) (λ r. r.epoch) last_epoch epochs rows))

  -- The lamports have to fit a u64; `out_of_range` is the error where they do not.
  unfoldable pub get_last_priority_fee_info :
      E → Result E (List ValidatorJitoPriorityFeeInfo) → Result E (List JitoPriorityFeeRecord)
  unfolding last_rows
  get_last_priority_fee_info out_of_range table = and_then table (λ rows.
      map_rows
        (λ r.
          if ltb r.total_lamports_transferred u64_mod
          then ok (priority_fee_record r)
          else err out_of_range)
        (last_rows (λ r. r.vote_account) (λ r. r.epoch) last_epoch epochs rows))

  -- The two queries run together; if both fail, the first one's error is taken here.
  unfoldable pub get_last_jito_info :
      E
      → Result E (List ValidatorJitoMevInfo)
      → Result E (List ValidatorJitoPriorityFeeInfo)
      → Result E (List JitoRecord)
  unfolding get_last_mev_info get_last_priority_fee_info combine_records
  get_last_jito_info out_of_range mev_table priority_fee_table =
      and_then (get_last_mev_info mev_table) (λ mev_records.
        and_then (get_last_priority_fee_info out_of_range priority_fee_table)
          (λ priority_fee_records. ok (combine_records mev_records priority_fee_records)))
