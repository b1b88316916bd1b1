-- ===== src/Tests/Collect.antt =====
-- The retries, the superminority and the checks at concrete inputs.
use delegation_strategy.Prelude.{
  ℕ, zero, suc, ◌/◌, ◌+◌, ◌<◌, ◌≤◌, ◌≡◌, refl, ◌↔◌, true, some, String, [], ◌∷◌, map, take, length,
  sum, arith, List, false,
}
use delegation_strategy.Store.Query.{Result, ok, err}
use delegation_strategy.Collect.Retry.{retry_blocking, iter_durations}
use delegation_strategy.Collect.Retry.Outcomes.{retry_blocking-succeeds, retry_blocking-fails}
use delegation_strategy.Collect.Superminority.{
  VoteAccountInfo, VoteAccountStatus, get_minimum_superminority_stake,
}
use delegation_strategy.Collect.Superminority.Threshold.{
  sum_ge, sum_gt, all_stakes, get_minimum_superminority_stake-IsThreshold,
}
use delegation_strategy.Check.{EpochInfo, StoredAt, last_stored, check_jito, check_block_rewards}
use delegation_strategy.Check.Decisions.{check_block_rewards_iff}
use delegation_strategy.Check.Latest.{Any, IsRecent, check_jito-last_stored}

-- A call that fails twice, and then gives its number.
abbrev flaky : ℕ → Result String ℕ
flaky zero = err "first"
flaky (suc zero) = err "second"
flaky (suc (suc n)) = ok n

flaky-Fail : (k : ℕ) → k < 2 → (e : String) × (flaky (0 + k) ≡ err e)
flaky-Fail zero lt = ("first", refl)
flaky-Fail (suc zero) lt = ("second", refl)
flaky-Fail (suc (suc k)) lt = absurd (omega arith)

enough : 2 ≤ length (iter_durations 3)
unfolding iter_durations
enough = omega arith

retry_blocking-succeeds_example :
    ((retry_blocking flaky (iter_durations 3)).0 ≡ ok 0)
    × (map (λ f. f.backoff) (retry_blocking flaky (iter_durations 3)).1 ≡ take 2 (iter_durations 3))
retry_blocking-succeeds_example =
    retry_blocking-succeeds flaky (iter_durations 3) 2 0 enough flaky-Fail refl

-- A call that always fails.
abbrev failing : ℕ → Result String ℕ
failing n = err "down"

retry_blocking-fails_example :
    ((retry_blocking failing (iter_durations 3)).0 ≡ err "down")
    × (map (λ f. f.backoff) (retry_blocking failing (iter_durations 3)).1 ≡ iter_durations 3)
retry_blocking-fails_example =
    retry_blocking-fails failing (iter_durations 3) "down" (λ k lt. ("down", refl)) refl

abbrev vote_account : String → ℕ → VoteAccountInfo
vote_account name stake = record {
  vote_pubkey = name;
  node_pubkey = name;
  activated_stake = stake;
  commission = 5;
}

abbrev vote_accounts : VoteAccountStatus
vote_accounts = record {
  current = vote_account "a" 10 ∷ vote_account "b" 40 ∷ [];
  delinquent = vote_account "c" 25 ∷ [];
}

get_minimum_superminority_stake-IsThreshold_example :
    (sum (all_stakes vote_accounts) / 3
      < sum_ge (get_minimum_superminority_stake vote_accounts) (all_stakes vote_accounts))
    × (sum_gt (get_minimum_superminority_stake vote_accounts) (all_stakes vote_accounts)
        ≤ sum (all_stakes vote_accounts) / 3)
get_minimum_superminority_stake-IsThreshold_example =
    get_minimum_superminority_stake-IsThreshold vote_accounts (omega arith) (omega arith)

abbrev current : EpochInfo
current = record { epoch = 700; slot_index = 130_000; slots_in_epoch = 432_000 }

abbrev stored : List StoredAt
stored = (698, 90_000) ∷ (699, 5_000) ∷ (699, 20_000) ∷ []

check_jito-last_stored_example :
    (check_jito {E = String} 120_000 (ok (last_stored stored)) (ok current) ≡ ok false)
    ↔ Any (IsRecent 120_000 current stored) stored
check_jito-last_stored_example = check_jito-last_stored 120_000 stored current

check_block_rewards_iff_example :
    (check_block_rewards {E = String} 10_000 (ok (some 698)) (ok current) ≡ ok true)
    ↔ ((698 + 1 < 700) × (10_000 < 130_000))
check_block_rewards_iff_example =
    check_block_rewards_iff 10_000 698 current (omega arith) (omega arith)
