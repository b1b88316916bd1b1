-- ===== src/Tests/Store.antt =====
-- Ranks, statements, hints, aggregates and warnings at concrete inputs.
use delegation_strategy.Prelude.{
  ℕ, ◌≡◌, refl, ◌++◌, ◌↔◌, String, true, some, List, [], ◌∷◌, map, count, HashMap, All, Any, ltb,
  if◌then◌else◌, ◌==◌, DistinctKeys, get, string_discrete, IsSorted, descending,
}
use delegation_strategy.Store.Dto.Validators.{ValidatorEpochStats, ValidatorWarning}
use delegation_strategy.Store.Dto.Scores.{UnstakeHint}
use delegation_strategy.Store.Ranks.{Validators, EpochEntries, rank_epoch, update_validators_ranks}
use delegation_strategy.Store.Ranks.Counting.{write_all, counted_ranks, rank_epoch-eq-counted_ranks}
use delegation_strategy.Store.Ranks.Totality.{update_validators_ranks-total}
use delegation_strategy.Store.Query.{new_update, new_insert}
use delegation_strategy.Store.Query.Shown.{Row, Bound, add_updates, add_inserts, bind, rows_shown}
use delegation_strategy.Store.Query.Binding.{without_casts, add_updates-bind, add_inserts-bind}
use delegation_strategy.Store.Hints.{hints_of, is_low, max_allowed_commission}
use delegation_strategy.Store.Hints.Reasons.{has, has_entry, hints_of-reasons}
use delegation_strategy.Store.Averages.{average, warnings_of, has_low_uptime}
use delegation_strategy.Store.Averages.Warnings.{Has, IsHigh, warnings_of_iff}
use delegation_strategy.Store.Aggregates.{aggregate_validators, all_stats}
use delegation_strategy.Store.Aggregates.Epochs.{
  values_in, occurs, aggregate_validators-averages, aggregate_validators-epochs,
}
use delegation_strategy.Tests.Data.{nat_f64, alice, validators}

abbrev set_rank : ValidatorEpochStats ℕ → ℕ → ValidatorEpochStats ℕ
set_rank s rank = record s { rank_activated_stake = some rank }

-- Two validators share a stake.
abbrev entries : EpochEntries
entries = ("alice", 50) ∷ ("bob", 70) ∷ ("carol", 50) ∷ []

rank_epoch-eq-counted_ranks_example :
    rank_epoch set_rank 7 entries validators
    ≡ write_all set_rank 7 (counted_ranks entries) validators
rank_epoch-eq-counted_ranks_example = rank_epoch-eq-counted_ranks set_rank 7 entries validators

keys : DistinctKeys string_discrete validators
unfolding get string_discrete
keys = (refl, (refl, (refl, tt)))

update_validators_ranks-total_example :
    (vs : Validators ℕ) × (update_validators_ranks set_rank (λ s. s.activated_stake) validators
      ≡ some vs)
update_validators_ranks-total_example =
    update_validators_ranks-total set_rank (λ s. s.activated_stake) validators (λ s r. refl) keys

abbrev rows : List (Row ℕ)
rows = (10 ∷ 11 ∷ [], (0, "BIGINT") ∷ []) ∷ (20 ∷ 21 ∷ [], []) ∷ []

add_updates-bind_example :
    map
      (bind (add_updates rows (new_update "t" "a = u.a" "u(i, a)" "t.id = u.i")).params)
      (add_updates rows (new_update "t" "a = u.a" "u(i, a)" "t.id = u.i")).statement
    ≡ Bound.text "UPDATE "
      ∷ Bound.text "t"
      ∷ Bound.text " SET "
      ∷ Bound.text "a = u.a"
      ∷ Bound.text " FROM (VALUES"
      ∷ rows_shown 0 rows
add_updates-bind_example = add_updates-bind "t" "a = u.a" "u(i, a)" "t.id = u.i" rows

abbrev plain_rows : List (List ℕ)
plain_rows = (10 ∷ 11 ∷ []) ∷ (20 ∷ 21 ∷ []) ∷ []

add_inserts-bind_example :
    map
      (bind (add_inserts plain_rows (new_insert "t" "a, b")).params)
      (add_inserts plain_rows (new_insert "t" "a, b")).statement
    ≡ map (bind []) (new_insert {A = ℕ} "t" "a, b").statement
      ++ rows_shown 0 (without_casts plain_rows)
add_inserts-bind_example = add_inserts-bind "t" "a, b" plain_rows

abbrev commissions : HashMap String ℕ
commissions = ("alice", 12) ∷ ("bob", 10) ∷ []

abbrev blacklisted : HashMap String (List String)
blacklisted = ("bob", "LATE" ∷ []) ∷ []

hints_of-reasons_example :
    (has UnstakeHint.high_commission "alice" (hints_of nat_f64 commissions [] blacklisted [])
      ≡ has_entry (ltb max_allowed_commission) "alice" commissions)
    × (has UnstakeHint.high_commission_in_previous_epoch "alice"
          (hints_of nat_f64 commissions [] blacklisted [])
        ≡ has_entry (ltb max_allowed_commission) "alice" [])
    × (has UnstakeHint.blacklist "alice" (hints_of nat_f64 commissions [] blacklisted [])
        ≡ has_entry (λ _. true) "alice" blacklisted)
    × (has UnstakeHint.low_credits "alice" (hints_of nat_f64 commissions [] blacklisted [])
        ≡ has_entry (is_low nat_f64) "alice" [])
hints_of-reasons_example = hints_of-reasons nat_f64 commissions [] blacklisted [] "alice"

warnings_of_iff_example :
    (Has ValidatorWarning.superminority (warnings_of nat_f64 6 7 alice)
      ↔ (alice.superminority ≡ true))
    × (Has ValidatorWarning.low_uptime (warnings_of nat_f64 6 7 alice)
        ↔ (has_low_uptime nat_f64 alice ≡ true))
    × (Has ValidatorWarning.high_commission (warnings_of nat_f64 6 7 alice)
        ↔ Any (IsHigh nat_f64 6 7) alice.epoch_stats)
warnings_of_iff_example = warnings_of_iff nat_f64 6 7 alice refl

abbrev clock : String → ℕ → ℕ
clock vote_account epoch = 99

aggregate_validators-averages_example :
    All
      (λ a.
        (a.avg_marinade_score
          ≡ average nat_f64
              (values_in nat_f64 clock a.epoch (λ s. s.score) (all_stats nat_f64 clock validators)))
        × (a.avg_apy
            ≡ average nat_f64 (
                values_in nat_f64 clock a.epoch (λ s. s.apy) (all_stats nat_f64 clock validators))))
      (aggregate_validators nat_f64 clock validators)
aggregate_validators-averages_example = aggregate_validators-averages nat_f64 clock validators

aggregate_validators-epochs_example :
    ((k : ℕ)
      → count (λ a. a.epoch == k) (aggregate_validators nat_f64 clock validators)
        ≡ (if occurs nat_f64 clock k (all_stats nat_f64 clock validators) then 1 else 0))
    × IsSorted (descending (λ a. a.epoch)) (aggregate_validators nat_f64 clock validators)
aggregate_validators-epochs_example = aggregate_validators-epochs nat_f64 clock validators
