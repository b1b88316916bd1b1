-- ===== src/Store/Ranks.antt =====
-- store/src/utils.rs: `update_validators_ranks`. An `unwrap` that fails is `none`. The type of the
-- ranked values is ℕ: the program ranks by a `Decimal` stake and by two `u64`.
pub mod Counting
pub mod Totality
pub mod Keys
use delegation_strategy.Prelude.{
  ℕ, ◌+◌, ◌-◌, String, Bool, Option, none, some, List, [], ◌∷◌, ◌++◌, HashMap, length, update, get,
  insert, ascending, sort_by, ◌==◌, if◌then◌else◌, string_discrete, ℕ_discrete, ◌>>=◌, map,
}
use delegation_strategy.Store.Dto.Validators.{ValidatorEpochStats, ValidatorRecord}

abbrev pub Validators : Type 0 → Type 0
Validators Float = HashMap String (ValidatorRecord Float)

-- The entries of one epoch: a vote account with the value that it is ranked by.
abbrev pub EpochEntries : Type 0
EpochEntries = List (String × ℕ)

abbrev pub stat : String × ℕ → ℕ
stat e = e.1

module _ {Float : Type 0} where
  -- The inner loop of the first pass: one validator's statistics.
  pub collect_stats :
      (ValidatorEpochStats Float → ℕ)
      → String
      → List (ValidatorEpochStats Float)
      → HashMap ℕ EpochEntries
      → HashMap ℕ EpochEntries
  collect_stats field_extractor vote_account [] m = m
  collect_stats field_extractor vote_account (s ∷ ss) m =
      collect_stats field_extractor vote_account ss
        (update ℕ_discrete s.epoch [] (λ l. l ++ (vote_account, field_extractor s) ∷ []) m)

  -- The first pass: the entries of all validators, by epoch.
  pub stats_by_epoch :
      (ValidatorEpochStats Float → ℕ)
      → Validators Float
      → HashMap ℕ EpochEntries
      → HashMap ℕ EpochEntries
  stats_by_epoch field_extractor [] m = m
  stats_by_epoch field_extractor ((vote_account, record') ∷ vs) m =
      stats_by_epoch field_extractor vs
        (collect_stats field_extractor vote_account record'.epoch_stats m)

-- `same_ranks` at the next entry.
pub next_same : Option ℕ → ℕ → ℕ → ℕ
next_same none value same_ranks = same_ranks
next_same (some previous) value same_ranks = if previous == value then same_ranks + 1 else 0

module _ {Float : Type 0} (rank_updater : ValidatorEpochStats Float → ℕ → ValidatorEpochStats Float)
    (epoch : ℕ) where
  -- `.iter_mut().find(|a| a.epoch == *epoch).unwrap()`, and the update of what it found.
  pub write_stat : ℕ → List (ValidatorEpochStats Float) → Option (List (ValidatorEpochStats Float))
  write_stat rank [] = none
  write_stat rank (s ∷ ss) =
      if s.epoch == epoch
      then some (rank_updater s rank ∷ ss)
      else (write_stat rank ss >>= λ rest. some (s ∷ rest))

  pub write_rank : String → ℕ → Validators Float → Option (Validators Float)
  unfolding write_stat
  write_rank vote_account rank vs = do
    r ← get string_discrete vote_account vs
    stats ← write_stat rank r.epoch_stats
    some (insert string_discrete vote_account (record r { epoch_stats = stats }) vs)

  -- The loop over the sorted entries of one epoch.
  pub rank_loop : ℕ → ℕ → Option ℕ → ℕ → EpochEntries → Validators Float → Option (Validators Float)
  unfolding next_same
  rank_loop total index previous same_ranks [] vs = some vs
  rank_loop total index previous same_ranks ((vote_account, value) ∷ rest) vs =
      let same_ranks' = next_same previous value same_ranks in
      (write_rank vote_account (total - index + same_ranks') vs
        >>= rank_loop total (index + 1) (some value) same_ranks' rest)

  -- The body of the second pass, for one epoch.
  pub rank_epoch : EpochEntries → Validators Float → Option (Validators Float)
  unfolding rank_loop
  rank_epoch stats vs =
      let sorted = sort_by (ascending stat) stats in rank_loop (length sorted) 0 none 0 sorted vs

module _ {Float : Type 0}
    (rank_updater : ValidatorEpochStats Float → ℕ → ValidatorEpochStats Float) where
  pub rank_epochs : HashMap ℕ EpochEntries → Validators Float → Option (Validators Float)
  rank_epochs [] vs = some vs
  rank_epochs ((epoch, stats) ∷ rest) vs =
      rank_epoch rank_updater epoch stats vs >>= rank_epochs rest

  unfoldable pub update_validators_ranks :
      (ValidatorEpochStats Float → ℕ) → Validators Float → Option (Validators Float)
  unfolding rank_epochs stats_by_epoch collect_stats
  update_validators_ranks field_extractor vs = rank_epochs (stats_by_epoch field_extractor vs []) vs
