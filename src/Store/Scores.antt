-- ===== src/Store/Scores.antt =====
-- store/src/scoring.rs: `load_all_scores`. The rows of its query are given, in the order of the rank;
-- a row is a score record whose NUMERIC columns are not converted yet.
pub mod Grouping
use delegation_strategy.Prelude.{
  ℕ, Bool, ◌&&◌, List, [], ◌∷◌, ◌++◌, HashMap, update, ltb, if◌then◌else◌, ℕ_discrete, u64_mod,
}
use delegation_strategy.Store.Query.{Result, ok, err}
use delegation_strategy.Store.Dto.Scalars.{Decimal}
use delegation_strategy.Store.Dto.Scores.{ValidatorScoreRecord}

module _ {Float : Type 0} where
  -- Whether each `try_into` to a u64 succeeds.
  unfoldable pub converts : ValidatorScoreRecord Float → Bool
  converts row =
      ltb row.vemnde_votes u64_mod
      && (ltb row.msol_votes u64_mod
          && (ltb row.target_stake_algo u64_mod
              && (ltb row.target_stake_vemnde u64_mod && ltb row.target_stake_msol u64_mod)))

  -- The loop over the rows, with the error of a failed conversion.
  pub group_scores :
      {E : Type 0}
      → E
      → List (ValidatorScoreRecord Float)
      → HashMap Decimal (List (ValidatorScoreRecord Float))
      → Result E (HashMap Decimal (List (ValidatorScoreRecord Float)))
  group_scores e [] records = ok records
  group_scores e (row ∷ rows) records =
      let rest =
        group_scores e rows
          (update ℕ_discrete row.scoring_run_id [] (λ l. l ++ row ∷ []) records) in
      if converts row then rest else err e

  unfoldable pub load_all_scores :
      {E : Type 0}
      → E
      → Result E (List (ValidatorScoreRecord Float))
      → Result E (HashMap Decimal (List (ValidatorScoreRecord Float)))
  unfolding group_scores converts
  load_all_scores e (err query_error) = err query_error
  load_all_scores e (ok rows) = group_scores e rows []
