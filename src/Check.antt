-- ===== src/Check.antt =====
-- check/src/validators_block_rewards.rs and check/src/validators_jito.rs: whether to collect. A query
-- of the database or of the node that fails is `err`. A `Decimal` difference may be negative; here it
-- is compared without being formed.
pub mod Decisions
pub mod Latest
use delegation_strategy.Prelude.{
  ℕ, ◌+◌, ◌-◌, ◌%◌, ◌^◌, Bool, true, false, Option, none, some, ltb, leb, if◌then◌else◌, u64_mod,
  List, [], ◌∷◌, map, keep, maximum, ◌==◌,
}
use delegation_strategy.Store.Query.{Result, ok, err}
use delegation_strategy.Store.Dto.Scalars.{Decimal}

-- What is used of `get_epoch_info`.
pub record EpochInfo : Type 0 where
  pub epoch : ℕ
  pub slot_index : ℕ
  pub slots_in_epoch : ℕ

-- u64 subtraction, which wraps.
abbrev pub sub_u64 : ℕ → ℕ → ℕ
sub_u64 a b = (a + u64_mod - b) % u64_mod

-- `row_epoch` is the last epoch stored, if any; `epoch_info` the node's answer.
unfoldable pub check_block_rewards :
    {E : Type 0} → ℕ → Result E (Option ℕ) → Result E EpochInfo → Result E Bool
check_block_rewards slot_offset_wait (err e) epoch_info = err e
check_block_rewards slot_offset_wait (ok none) epoch_info = ok true
check_block_rewards slot_offset_wait (ok (some sql_epoch)) (err e) = err e
check_block_rewards slot_offset_wait (ok (some sql_epoch)) (ok current) =
    if ltb sql_epoch (sub_u64 current.epoch 1)
    then (if ltb slot_offset_wait current.slot_index then ok true else ok false)
    else ok false

-- The row is the last epoch stored, with the slot index at which it was stored.
unfoldable pub check_jito :
    {E : Type 0}
    → Decimal
    → Result E (Option (Decimal × Decimal))
    → Result E EpochInfo
    → Result E Bool
check_jito execution_interval_slots (err e) epoch_info = err e
check_jito execution_interval_slots (ok none) epoch_info = ok true
check_jito execution_interval_slots (ok (some row)) (err e) = err e
check_jito execution_interval_slots (ok (some (sql_epoch, sql_slot_index))) (ok current) =
    if ltb (sql_epoch + 1) current.epoch
    then ok true
    else (if leb (execution_interval_slots + sql_slot_index) current.slot_index
        then ok true
        else ok false)

-- A row of a table, as the query of `check_jito` sees it: its epoch and its slot index.
abbrev pub StoredAt : Type 0
StoredAt = Decimal × Decimal

abbrev pub latest_epoch : List StoredAt → Decimal
latest_epoch rows = maximum (map (λ r. r.0) rows)

-- SELECT epoch, MAX(epoch_slot) … WHERE epoch = (SELECT MAX(epoch) …) GROUP BY epoch, which has no row
-- for an empty table.
unfoldable pub last_stored : List StoredAt → Option (Decimal × Decimal)
last_stored [] = none
last_stored (r ∷ rows) =
    let latest = latest_epoch (r ∷ rows) in
    some (latest, maximum (map (λ q. q.1) (keep (λ q. q.0 == latest) (r ∷ rows))))
