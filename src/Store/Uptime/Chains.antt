-- ===== src/Store/Uptime/Chains.antt =====
-- What `store_uptime` keeps of every validator's uptimes, and what it achieves.
use delegation_strategy.Prelude.{
  ◌+◌, ◌<◌, ◌≡◌, sym, ◌∙◌, ap, subst, String, some, arith, All, DistinctKeys, inl, inr,
  string_discrete, get, Option-cases,
}
use delegation_strategy.Store.Dto.Scalars.{minutes}
use delegation_strategy.Collect.Performance.{ValidatorPerformance, ValidatorsPerformanceSnapshot}
use delegation_strategy.Store.Uptime.{
  UptimeRow, Uptimes, of_account, latest, new_row, store_uptime, status_from_delinquency,
}
use delegation_strategy.Store.Uptime.History.{IsChain, DistinctIds, track-IsChain, latest-track}
use delegation_strategy.Store.Uptime.Latest.{keep-DistinctIds}
use delegation_strategy.Store.Uptime.Refinement.{store_uptime-track, store_uptime-absent}

module _ {Float : Type 0} (snapshot : ValidatorsPerformanceSnapshot Float) (table : Uptimes)
    (va : String) (ids : DistinctIds table.rows)
    (keys : DistinctKeys string_discrete snapshot.validators)
    (chain : IsChain (of_account va table.rows))
    (newer : All (λ s. s.start_at < snapshot.created_at) (of_account va table.rows)) where
  positive : snapshot.created_at < snapshot.created_at + minutes 1
  unfolding minutes
  positive = omega arith

  -- The uptimes of every validator, in the snapshot or not, remain a chain: intervals of positive
  -- length that do not overlap, if the table has distinct ids, the snapshot distinct keys, and the
  -- snapshot is newer than the start of each of the validator's intervals.
  pub store_uptime-IsChain : IsChain (of_account va (store_uptime snapshot table).rows)
  store_uptime-IsChain = elim (Option-cases (get string_discrete va snapshot.validators)) [
    | inl absent ↦ subst IsChain (sym (store_uptime-absent snapshot table va ids absent)) chain
    | inr (v, found) ↦
        let (j, f) = store_uptime-track snapshot table va v ids keys found in
        subst IsChain (sym f) (
          track-IsChain (new_row snapshot va v j) positive (of_account va table.rows)
            (keep-DistinctIds _ table.rows ids) chain newer)
  ]

  -- Under the same conditions the latest uptime of a validator of the snapshot has the status and the
  -- epoch of the snapshot, and ends a minute after it.
  pub latest-store_uptime :
      (v : ValidatorPerformance Float)
      → get string_discrete va snapshot.validators ≡ some v
      → (r : UptimeRow) × (latest (of_account va (store_uptime snapshot table).rows) ≡ some r)
        × (r.status ≡ status_from_delinquency v.delinquent)
        × (r.epoch ≡ snapshot.epoch)
        × (r.end_at ≡ snapshot.created_at + minutes 1)
  latest-store_uptime v found =
      let (j, f) = store_uptime-track snapshot table va v ids keys found in
      let (r, e, s, p, t) =
        latest-track (new_row snapshot va v j) positive (of_account va table.rows)
          (keep-DistinctIds _ table.rows ids) chain newer in
      (r, ap latest f ∙ e, s, p, t)
