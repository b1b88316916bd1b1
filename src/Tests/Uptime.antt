-- ===== src/Tests/Uptime.antt =====
-- The uptimes of two validators, merged with a snapshot that has one of them.
use delegation_strategy.Prelude.{
  ℕ, ◌+◌, ◌*◌, ◌<◌, ◌≡◌, refl, true, none, some, [], ◌∷◌, arith, All, get, string_discrete,
  DistinctKeys,
}
use delegation_strategy.Store.Dto.Scalars.{minutes}
use delegation_strategy.Collect.Performance.{ValidatorPerformance, ValidatorsPerformanceSnapshot}
use delegation_strategy.Store.Uptime.{
  UptimeRow, Uptimes, of_account, latest, store_uptime, status_from_delinquency, new_row,
}
use delegation_strategy.Store.Uptime.History.{IsChain, DistinctIds, track}
use delegation_strategy.Store.Uptime.Refinement.{store_uptime-track, store_uptime-absent}
use delegation_strategy.Store.Uptime.Chains.{store_uptime-IsChain, latest-store_uptime}

abbrev minute : ℕ
minute = 60_000_000_000

abbrev alice_performance : ValidatorPerformance ℕ
alice_performance = record {
  commission = 5;
  version = none;
  credits = 10;
  leader_slots = 4;
  blocks_produced = 3;
  skip_rate = 0;
  delinquent = true;
}

abbrev snapshot : ValidatorsPerformanceSnapshot ℕ
snapshot = record {
  epoch = 7;
  epoch_slot = 100;
  transaction_count = 1;
  created_at = 12 * minute;
  cluster_inflation = none;
  validators = ("alice", alice_performance) ∷ [];
  rewards = none;
}

abbrev row_of_alice : UptimeRow
row_of_alice = record {
  id = 1;
  vote_account = "alice";
  status = "UP";
  epoch = 7;
  start_at = 2 * minute;
  end_at = 11 * minute;
}

abbrev row_of_bob : UptimeRow
row_of_bob = record {
  id = 2;
  vote_account = "bob";
  status = "UP";
  epoch = 7;
  start_at = 2 * minute;
  end_at = 11 * minute;
}

abbrev table : Uptimes
table = record { rows = row_of_alice ∷ row_of_bob ∷ []; next_id = 3 }

distinct : DistinctIds table.rows
distinct = ((λ e. omega arith, tt), (tt, tt))

keys : DistinctKeys string_discrete snapshot.validators
unfolding get
keys = (refl, tt)

found : get string_discrete "alice" snapshot.validators ≡ some alice_performance
unfolding get string_discrete
found = refl

chain : IsChain (of_account "alice" table.rows)
unfolding string_discrete
chain = omega arith

newer : All (λ s. s.start_at < snapshot.created_at) (of_account "alice" table.rows)
unfolding string_discrete
newer = (omega arith, tt)

store_uptime-track_example :
    (j : ℕ) × (of_account "alice" (store_uptime snapshot table).rows
      ≡ track (new_row snapshot "alice" alice_performance j) (of_account "alice" table.rows))
store_uptime-track_example =
    store_uptime-track snapshot table "alice" alice_performance distinct keys found

absent : get string_discrete "bob" snapshot.validators ≡ none
unfolding get string_discrete
absent = refl

store_uptime-absent_example :
    of_account "bob" (store_uptime snapshot table).rows ≡ of_account "bob" table.rows
store_uptime-absent_example = store_uptime-absent snapshot table "bob" distinct absent

store_uptime-IsChain_example : IsChain (of_account "alice" (store_uptime snapshot table).rows)
store_uptime-IsChain_example = store_uptime-IsChain snapshot table "alice" distinct keys chain newer

latest-store_uptime_example :
    (r : UptimeRow) × (latest (of_account "alice" (store_uptime snapshot table).rows) ≡ some r)
    × (r.status ≡ status_from_delinquency true)
    × (r.epoch ≡ 7)
    × (r.end_at ≡ 12 * minute + minutes 1)
latest-store_uptime_example =
    latest-store_uptime snapshot table "alice" distinct keys chain newer alice_performance found
