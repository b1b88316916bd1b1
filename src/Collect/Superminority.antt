-- ===== src/Collect/Superminority.antt =====
-- collect/src/solana_service.rs: `get_total_activated_stake` and `get_minimum_superminority_stake`, and
-- the two fields of a validator's snapshot that come from the latter.
pub mod Threshold
use delegation_strategy.Prelude.{
  ℕ, ◌+◌, ◌-◌, ◌/◌, String, Bool, List, [], ◌∷◌, ◌++◌, map, ltb, leb, if◌then◌else◌, sort_by,
  descending, sum_u64, add_u64,
}

-- What is used of an `RpcVoteAccountInfo`, and the status that lists them.
pub record VoteAccountInfo : Type 0 where
  pub vote_pubkey : String
  pub node_pubkey : String
  pub activated_stake : ℕ
  pub commission : ℕ

pub record VoteAccountStatus : Type 0 where
  pub current : List VoteAccountInfo
  pub delinquent : List VoteAccountInfo

abbrev pub stakes : List VoteAccountInfo → List ℕ
stakes = map λ v. v.activated_stake

unfoldable pub get_total_activated_stake : VoteAccountStatus → ℕ × ℕ
get_total_activated_stake vote_accounts =
    (sum_u64 (stakes vote_accounts.current), sum_u64 (stakes vote_accounts.delinquent))

-- The loop over the sorted stakes; `break` is the branch that stops.
pub accumulate : ℕ → ℕ → ℕ → List ℕ → ℕ
accumulate threshold accumulated last_stake [] = last_stake
accumulate threshold accumulated last_stake (stake ∷ rest) =
    let accumulated' = add_u64 accumulated stake in
    let next = accumulate threshold accumulated' stake rest in
    if ltb threshold accumulated' then stake else next

unfoldable pub get_minimum_superminority_stake : VoteAccountStatus → ℕ
unfolding accumulate
get_minimum_superminority_stake vote_accounts =
    let activated_stakes = stakes (vote_accounts.current ++ vote_accounts.delinquent) in
    accumulate (sum_u64 activated_stakes / 3) 0 0 (sort_by (descending (λ s. s)) activated_stakes)

-- `superminority` and `stake_to_become_superminority` of a snapshot.
unfoldable pub superminority : ℕ → ℕ → Bool
superminority minimum_superminority_stake activated_stake =
    leb minimum_superminority_stake activated_stake

unfoldable pub stake_to_become_superminority : ℕ → ℕ → ℕ
stake_to_become_superminority minimum_superminority_stake activated_stake =
    minimum_superminority_stake - activated_stake
