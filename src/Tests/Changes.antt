-- ===== src/Tests/Changes.antt =====
-- The commissions of two validators, and a snapshot in which one of them changes.
use delegation_strategy.Prelude.{
  ◌<◌, ◌≡◌, ◌⊎◌, refl, none, some, List, [], ◌∷◌, ◌++◌, All, arith, get, string_discrete,
  ℕ_discrete, DistinctKeys, ℕ, false,
}
use delegation_strategy.Collect.Performance.{ValidatorPerformance, ValidatorsPerformanceSnapshot}
use delegation_strategy.Store.Changes.{ChangeRow, changes_of, last_change, store_changes}
use delegation_strategy.Store.Changes.Appending.{store_changes-again}
use delegation_strategy.Store.Changes.Stored.{IsStored, store_changes-present}

abbrev performance : ℕ → ValidatorPerformance ℕ
performance commission = record {
  commission = commission;
  version = none;
  credits = 10;
  leader_slots = 4;
  blocks_produced = 3;
  skip_rate = 0;
  delinquent = false;
}

abbrev snapshot : ValidatorsPerformanceSnapshot ℕ
snapshot = record {
  epoch = 7;
  epoch_slot = 100;
  transaction_count = 1;
  created_at = 50;
  cluster_inflation = none;
  validators = ("alice", performance 8) ∷ ("bob", performance 5) ∷ [];
  rewards = none;
}

abbrev rows : List (ChangeRow ℕ)
rows =
    record { vote_account = "alice"; value = 5; epoch_slot = 10; epoch = 7; created_at = 20 }
    ∷ record { vote_account = "bob"; value = 5; epoch_slot = 10; epoch = 7; created_at = 20 }
    ∷ []

keys : DistinctKeys string_discrete snapshot.validators
unfolding get string_discrete
keys = (refl, (refl, tt))

found : get string_discrete "alice" snapshot.validators ≡ some (performance 8)
unfolding get string_discrete
found = refl

newer : All (λ x. x.created_at < snapshot.created_at) (changes_of "alice" rows)
unfolding string_discrete
newer = (omega arith, tt)

store_changes-present_example :
    (IsStored ℕ_discrete
        (λ v. v.commission)
        snapshot
        (last_change (changes_of "alice" rows))
        (performance 8)
      × (changes_of "alice" (store_changes ℕ_discrete (λ v. v.commission) snapshot rows)
          ≡ changes_of "alice" rows))
    ⊎ ((¬ IsStored ℕ_discrete
          (λ v. v.commission)
          snapshot
          (last_change (changes_of "alice" rows))
          (performance 8))
        × (changes_of "alice" (store_changes ℕ_discrete (λ v. v.commission) snapshot rows)
            ≡ changes_of "alice" rows
              ++ record {
                vote_account = "alice";
                value = 8;
                epoch_slot = 100;
                epoch = 7;
                created_at = 50;
              }
                ∷ []))
store_changes-present_example =
    store_changes-present ℕ_discrete (λ v. v.commission) snapshot rows "alice" (performance 8) keys
      found

store_changes-again_example :
    changes_of "alice" (
      store_changes ℕ_discrete
        (λ v. v.commission)
        snapshot
        (store_changes ℕ_discrete (λ v. v.commission) snapshot rows))
    ≡ changes_of "alice" (store_changes ℕ_discrete (λ v. v.commission) snapshot rows)
store_changes-again_example =
    store_changes-again ℕ_discrete (λ v. v.commission) snapshot rows "alice" (performance 8) keys
      found newer
