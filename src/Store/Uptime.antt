-- ===== src/Store/Uptime.antt =====
-- store/src/uptime.rs: a performance snapshot is merged into the `uptimes` table. The two SQL
-- statements and the query are translated: `latest_rows` is SELECT DISTINCT ON (vote_account) …
-- ORDER BY vote_account, end_at DESC (of rows that end together, the first), `extend_rows` is UPDATE …
-- FROM (VALUES …) and `insert_rows` is INSERT, with the ids of the table's sequence.
pub mod History
pub mod Plan
pub mod Latest
pub mod Closing
pub mod Insertion
pub mod Refinement
pub mod Chains
use delegation_strategy.Prelude.{
  ℕ, suc, ◌+◌, String, Bool, true, false, ◌&&◌, Option, none, some, List, [], ◌∷◌, ◌++◌, HashMap,
  map, ltb, ◌==◌, if◌then◌else◌, holds, string_discrete, ℕ_discrete, get, insert, add, contains,
  keep,
}
use delegation_strategy.Store.Dto.Scalars.{DateTime, minutes}
use delegation_strategy.Collect.Performance.{ValidatorPerformance, ValidatorsPerformanceSnapshot}

pub record UptimeRow : Type 0 where
  pub id : ℕ
  pub vote_account : String
  pub status : String
  pub epoch : ℕ
  pub start_at : DateTime
  pub end_at : DateTime

pub record Uptimes : Type 0 where
  pub rows : List UptimeRow
  pub next_id : ℕ

abbrev pub status_from_delinquency : Bool → String
status_from_delinquency delinquent = if delinquent then "DOWN" else "UP"

abbrev pub of_account : String → List UptimeRow → List UptimeRow
of_account vote_account = keep (λ r. holds (string_discrete r.vote_account vote_account))

-- The row that ends last.
pub later : Option UptimeRow → UptimeRow → UptimeRow
later none r = r
later (some s) r = if ltb r.end_at s.end_at then s else r

pub latest : List UptimeRow → Option UptimeRow
unfolding later
latest [] = none
latest (r ∷ rs) = some (later (latest rs) r)

abbrev pub is_id : ℕ → Option UptimeRow → Bool
is_id i none = false
is_id i (some l) = l.id == i

pub latest_rows : List UptimeRow → List UptimeRow
unfolding latest
latest_rows rows = keep (λ r. is_id r.id (latest (of_account r.vote_account rows))) rows

abbrev pub ended : UptimeRow → Option DateTime → UptimeRow
ended r none = r
ended r (some end_at) = record r { end_at = end_at }

pub extend_rows : HashMap ℕ DateTime → List UptimeRow → List UptimeRow
extend_rows extensions = map λ r. ended r (get ℕ_discrete r.id extensions)

module _ {Float : Type 0} (snapshot : ValidatorsPerformanceSnapshot Float) where
  abbrev default_status_end_at : DateTime
  default_status_end_at = snapshot.created_at + minutes 1

  -- The end that the loop over the latest rows records for a row, if any, and whether it marks the
  -- validator as extended.
  pub is_recent : UptimeRow → Bool
  is_recent row = ltb snapshot.created_at (row.end_at + minutes 5)

  pub is_same_status : ValidatorPerformance Float → UptimeRow → Bool
  is_same_status v row =
      holds (string_discrete row.status (status_from_delinquency v.delinquent))
      && (row.epoch == snapshot.epoch)

  -- One round of the loop over the latest rows.
  pub extend_one : UptimeRow → List String × HashMap ℕ DateTime → List String × HashMap ℕ DateTime
  unfolding is_recent is_same_status
  extend_one row (extended, extensions) =
      elim (get string_discrete row.vote_account snapshot.validators) [
        | none ↦ (extended, extensions)
        | some v ↦
            if is_recent row
            then if is_same_status v row
              then (
                add string_discrete row.vote_account extended,
                insert ℕ_discrete row.id default_status_end_at extensions,
              )
              else (extended, insert ℕ_discrete row.id snapshot.created_at extensions)
            else (extended, extensions)
      ]

  pub extend_all :
      List UptimeRow → List String × HashMap ℕ DateTime → List String × HashMap ℕ DateTime
  extend_all [] plan = plan
  extend_all (row ∷ rows) plan = extend_all rows (extend_one row plan)

  -- The row that a validator of the snapshot gets unless its latest row was extended.
  abbrev pub new_row : String → ValidatorPerformance Float → ℕ → UptimeRow
  new_row vote_account v id = record {
    id = id;
    vote_account = vote_account;
    status = status_from_delinquency v.delinquent;
    epoch = snapshot.epoch;
    start_at = snapshot.created_at;
    end_at = default_status_end_at;
  }

  pub insert_rows :
      List String → HashMap String (ValidatorPerformance Float) → ℕ → List UptimeRow → Uptimes
  insert_rows extended [] next_id rows = record { rows = rows; next_id = next_id }
  insert_rows extended ((vote_account, v) ∷ vs) next_id rows =
      let skipped = insert_rows extended vs next_id rows in
      let inserted =
        insert_rows extended vs (suc next_id) (rows ++ new_row vote_account v next_id ∷ []) in
      if contains string_discrete vote_account extended then skipped else inserted

  unfoldable pub store_uptime : Uptimes → Uptimes
  unfolding extend_all extend_one latest_rows extend_rows insert_rows
  store_uptime table =
      let plan = extend_all (latest_rows table.rows) ([], []) in
      insert_rows plan.0 snapshot.validators table.next_id (extend_rows plan.1 table.rows)
