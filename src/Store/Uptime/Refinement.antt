-- ===== src/Store/Uptime/Refinement.antt =====
-- `store_uptime` on the whole table, seen from one validator: it tracks the validator's own history.
use delegation_strategy.Prelude.{
  ℕ, ◌≡◌, refl, sym, ap, ap₂, ◌∙◌, subst, String, Bool, true, false, ◌||◌, none, some, List, [],
  map, arith, if◌then◌else◌, string_discrete, get, contains, keep, any, All, All-imp, map-eq_of_All,
  map_id, DistinctKeys,
}
use delegation_strategy.Collect.Performance.{ValidatorPerformance, ValidatorsPerformanceSnapshot}
use delegation_strategy.Store.Uptime.{
  UptimeRow, Uptimes, of_account, latest, is_id, ended, latest_rows, extend_rows, extend_all,
  new_row, store_uptime,
}
use delegation_strategy.Store.Uptime.History.{track, DistinctIds}
use delegation_strategy.Store.Uptime.Plan.{
  Plan, planned, extends, or_else, planned-absent, extend_all-get, extend_all-contains,
  extend_rows-of_account,
}
use delegation_strategy.Store.Uptime.Latest.{keep-DistinctIds, of_account-own}
use delegation_strategy.Store.Uptime.Closing.{after_update, assemble, any-keep, history_lem}
use delegation_strategy.Store.Uptime.Insertion.{insert_rows-absent, insert_rows-present}

module _ {Float : Type 0} (snapshot : ValidatorsPerformanceSnapshot Float) where
  -- The rows after the UPDATE, and the marks of the loop, for one validator.
  updated_lem :
      (rows : List UptimeRow) (va : String)
      → DistinctIds rows
      → of_account va (extend_rows (extend_all snapshot (latest_rows rows) ([], [])).1 rows)
        ≡ map
            (λ r. ended r (
              if is_id r.id (latest (of_account va rows))
              then or_else snapshot (planned snapshot r) none
              else none))
            (of_account va rows)
  unfolding latest_rows get
  updated_lem rows va ids =
      extend_rows-of_account snapshot is_latest (latest (of_account va rows)) va _ rows
        (extend_all-get snapshot is_latest rows ([], []) ids)
        (λ r e. ap (λ x. is_id r.id (latest (of_account x rows))) e)
    where
      is_latest : UptimeRow → Bool
      is_latest r = is_id r.id (latest (of_account r.vote_account rows))

  marks_lem :
      (rows : List UptimeRow) (va : String)
      → contains string_discrete va (extend_all snapshot (latest_rows rows) ([], [])).0
        ≡ any
            (extends snapshot)
            (keep (λ r. is_id r.id (latest (of_account va rows))) (of_account va rows))
  unfolding latest_rows contains
  marks_lem rows va =
      extend_all-contains snapshot (keep is_latest rows) ([], []) va
      ∙ or-false _
      ∙ any-keep snapshot is_latest (latest (of_account va rows)) va rows
          (λ r e. ap (λ x. is_id r.id (latest (of_account x rows))) e)
    where
      is_latest : UptimeRow → Bool
      is_latest r = is_id r.id (latest (of_account r.vote_account rows))

      or-false : (b : Bool) → (b || false) ≡ b
      or-false true = refl
      or-false false = refl

  -- With distinct ids in the table and distinct keys in the snapshot, storing the snapshot turns the
  -- uptimes of each of its validators into what `track` makes of them, for some id of the new row.
  pub store_uptime-track :
      (table : Uptimes) (va : String) (v : ValidatorPerformance Float)
      → DistinctIds table.rows
      → DistinctKeys string_discrete snapshot.validators
      → get string_discrete va snapshot.validators ≡ some v
      → (j : ℕ) × (of_account va (store_uptime snapshot table).rows
          ≡ track (new_row snapshot va v j) (of_account va table.rows))
  unfolding store_uptime
  store_uptime-track table va v ids d h =
      let (j, f) =
        insert_rows-present snapshot va plan.0 snapshot.validators v table.next_id
          (extend_rows plan.1 table.rows) d h in
      (
        j,
        f
            ∙ ap₂ (λ b m. assemble snapshot b m (new_row snapshot va v j)) (marks_lem table.rows va)
                (updated_lem table.rows va ids)
            ∙ history_lem snapshot va v j (of_account va table.rows)
                (keep-DistinctIds _ table.rows ids) h (of_account-own va table.rows)
                (latest (of_account va table.rows)) refl,
      )
    where
      plan : Plan
      plan = extend_all snapshot (latest_rows table.rows) ([], [])

  -- With distinct ids in the table, the uptimes of a validator that is not in the snapshot stay as
  -- they are.
  pub store_uptime-absent :
      (table : Uptimes) (va : String)
      → DistinctIds table.rows
      → get string_discrete va snapshot.validators ≡ none
      → of_account va (store_uptime snapshot table).rows ≡ of_account va table.rows
  unfolding store_uptime
  store_uptime-absent table va ids h =
      insert_rows-absent snapshot va plan.0 snapshot.validators table.next_id
        (extend_rows plan.1 table.rows) h
      ∙ updated_lem table.rows va ids
      ∙ untouched (of_account va table.rows) (of_account-own va table.rows)
    where
      plan : Plan
      plan = extend_all snapshot (latest_rows table.rows) ([], [])

      untouched :
          (xs : List UptimeRow)
          → All (λ r. r.vote_account ≡ va) xs
          → after_update snapshot (latest (of_account va table.rows)) xs ≡ xs
      untouched xs own =
          map-eq_of_All _ (λ r. r) xs (All-imp _ _ xs each own) ∙ map_id (λ r. r) xs (λ r. refl)
        where
          each :
              (r : UptimeRow)
              → r.vote_account ≡ va
              → ended r (
                  if is_id r.id (latest (of_account va table.rows))
                  then or_else snapshot (planned snapshot r) none
                  else none)
                ≡ r
          each r e = ground (
            arith,
            planned-absent snapshot r
                (subst (λ x. get string_discrete x snapshot.validators ≡ none) (sym e) h),
          )
