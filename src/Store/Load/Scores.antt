-- ===== src/Store/Load/Scores.antt =====
-- store/src/utils.rs: `load_scores_in_epochs`, `update_validators_with_scores` and `load_scores`. The
-- scoring service is a parameter: the scores that it answers for an epoch, none if the request or the
-- reading of the answer fails. The answers of the epochs are put into a map in the order in which they
-- arrive; each epoch has one, so the map is the same for every order.
pub mod Written
use delegation_strategy.Prelude.{
  ℕ, zero, suc, ◌+◌, ◌-◌, String, Option, none, some, List, [], ◌∷◌, HashMap, keys, map, get,
  insert, maximum, ltb, if◌then◌else◌, ◌>>=◌, string_discrete, ℕ_discrete,
}
use delegation_strategy.Store.Dto.Validators.{ValidatorEpochStats, ValidatorRecord}
use delegation_strategy.Store.Dto.Scores.{ValidatorScoreRecord}
use delegation_strategy.Store.Ranks.{Validators}
use delegation_strategy.Store.Averages.{map_values}
use delegation_strategy.Store.Scores.{converts}

-- The scores of an answer, by vote account.
unfoldable pub insert_scores :
    {Float : Type 0} → List (String × Float) → HashMap String Float → HashMap String Float
insert_scores [] scores = scores
insert_scores (s ∷ ss) scores = insert_scores ss (insert string_discrete s.0 s.1 scores)

module _ {Float : Type 0} (service : ℕ → Option (List (String × Float))) where
  abbrev pub put_answer :
      ℕ
      → Option (List (String × Float))
      → HashMap ℕ (HashMap String Float)
      → HashMap ℕ (HashMap String Float)
  put_answer epoch none result = result
  put_answer epoch (some scores) result = insert ℕ_discrete epoch (insert_scores scores []) result

  -- The `n` epochs from `first` on.
  unfoldable pub answers :
      ℕ → ℕ → HashMap ℕ (HashMap String Float) → HashMap ℕ (HashMap String Float)
  unfolding insert_scores
  answers first zero result = result
  answers first (suc n) result = answers (first + 1) n (put_answer first (service first) result)

  unfoldable pub load_scores_in_epochs : ℕ → ℕ → HashMap ℕ (HashMap String Float)
  unfolding answers
  load_scores_in_epochs first last = answers first (last + 1 - first) []

-- `scores_per_epoch.keys().max()`
abbrev pub latest_epoch : {Float : Type 0} → HashMap ℕ (HashMap String Float) → Option ℕ
latest_epoch [] = none
latest_epoch (e ∷ es) = some (maximum (keys (e ∷ es)))

module _ {Float : Type 0} where
  abbrev pub stat_score :
      String → Option (HashMap String Float) → ValidatorEpochStats Float → ValidatorEpochStats Float
  stat_score vote_account none s = s
  stat_score vote_account (some scores) s = record s {
    score = get string_discrete vote_account scores;
  }

  unfoldable pub with_scores :
      HashMap ℕ (HashMap String Float)
      → HashMap String Float
      → ValidatorRecord Float
      → ValidatorRecord Float
  with_scores scores_per_epoch latest_scores v = record v {
    epoch_stats =
        map (λ s. stat_score v.vote_account (get ℕ_discrete s.epoch scores_per_epoch) s)
          v.epoch_stats;
    score = get string_discrete v.vote_account latest_scores;
  }

  abbrev pub with_latest :
      HashMap ℕ (HashMap String Float) → Option ℕ → Validators Float → Option (Validators Float)
  with_latest scores_per_epoch none validators = some validators
  with_latest scores_per_epoch (some epoch) validators =
      get ℕ_discrete epoch scores_per_epoch >>= λ latest_scores.
      some (map_values (with_scores scores_per_epoch latest_scores) validators)

  -- The `unwrap` of the latest scores is `none` where it panics.
  unfoldable pub update_validators_with_scores :
      (ℕ → Option (List (String × Float))) → ℕ → ℕ → Validators Float → Option (Validators Float)
  unfolding load_scores_in_epochs with_scores
  update_validators_with_scores service first last validators =
      let scores_per_epoch = load_scores_in_epochs service first last in
      with_latest scores_per_epoch (latest_epoch scores_per_epoch) validators

-- `load_scores`, over the rows of its query: the first row of a vote account is its record. Its
-- numbers are unwrapped.
abbrev pub put_first :
    {Float : Type 0}
    → ValidatorScoreRecord Float
    → Option (ValidatorScoreRecord Float)
    → HashMap String (ValidatorScoreRecord Float)
    → Option (HashMap String (ValidatorScoreRecord Float))
put_first row none records =
    if converts row then some (insert string_discrete row.vote_account row records) else none
put_first row (some r) records = some records

unfoldable pub load_scores :
    {Float : Type 0}
    → List (ValidatorScoreRecord Float)
    → HashMap String (ValidatorScoreRecord Float)
    → Option (HashMap String (ValidatorScoreRecord Float))
load_scores [] records = some records
load_scores (row ∷ rows) records =
    put_first row (get string_discrete row.vote_account records) records >>= load_scores rows
