-- ===== src/Api/Breakdowns.antt =====
-- api/src/handlers/validator_score_breakdown.rs and validator_score_breakdowns.rs: a validator's
-- score with the run that gave it. `none` is the panic of an `unwrap`, `err` the answer of an error.
pub mod Eligibility
use delegation_strategy.Prelude.{
  ℕ, String, Bool, Option, none, some, List, [], ◌∷◌, ◌++◌, map, flat_map, filter_map, keep, find,
  values, HashMap, get, insert, update, string_discrete, ℕ_discrete, holds, ltb, ◌==◌,
  if◌then◌else◌, ◌>>=◌, or_default, F64,
}
use delegation_strategy.Store.Query.{Result, ok, err}
use delegation_strategy.Store.Dto.Scalars.{Decimal, DateTime}
use delegation_strategy.Store.Dto.Scores.{ValidatorScoreRecord, ScoringRunRecord}
use delegation_strategy.Api.Cache.{CachedSingleRunScores, CachedMultiRunScores}
use delegation_strategy.Store.Fixed.{to_fixed_for_sort}

pub record ScoreBreakdown (Float : Type 0) : Type 0 where
  pub vote_account : String
  pub score : Float
  pub rank : ℕ
  pub min_score_eligible_algo : Option Float
  pub ui_hints : List String
  pub vemnde_votes : ℕ
  pub msol_votes : ℕ
  pub component_scores : List Float
  pub component_ranks : List ℕ
  pub component_values : List (Option String)
  pub component_weights : List Float
  pub components : List String
  pub eligible_stake_algo : Bool
  pub eligible_stake_vemnde : Bool
  pub eligible_stake_mnde : Bool
  pub eligible_stake_msol : Bool
  pub target_stake_algo : ℕ
  pub target_stake_vemnde : ℕ
  pub target_stake_mnde : ℕ
  pub target_stake_msol : ℕ
  pub scoring_run_id : ℕ
  pub created_at : DateTime
  pub epoch : ℕ
  pub ui_id : String

pub data ScoresError : Type 0 where
  no_scoring_run no_score no_scoring_runs : ScoresError

-- `Iterator::min_by` with a key: the first of the smallest.
abbrev pub min_from : {A : Type 0} → (A → ℕ) → A → List A → A
min_from key best [] = best
min_from key best (x ∷ xs) = min_from key (if ltb (key x) (key best) then x else best) xs

abbrev pub min_by : {A : Type 0} → (A → ℕ) → List A → Option A
min_by key [] = none
min_by key (x ∷ xs) = some (min_from key x xs)

-- The scores of the runs, by the run's id.
abbrev pub RunScores : Type 0 → Type 0
RunScores Float = HashMap Decimal (List (ValidatorScoreRecord Float))

module _ {Float : Type 0} where
  unfoldable pub breakdown :
      ScoringRunRecord Float → ValidatorScoreRecord Float → Option Float → ScoreBreakdown Float
  breakdown run score min_score_eligible_algo = record {
    vote_account = score.vote_account;
    score = score.score;
    rank = score.rank;
    min_score_eligible_algo = min_score_eligible_algo;
    ui_hints = score.ui_hints;
    vemnde_votes = score.vemnde_votes;
    msol_votes = score.msol_votes;
    component_scores = score.component_scores;
    component_ranks = score.component_ranks;
    component_values = score.component_values;
    component_weights = run.component_weights;
    components = run.components;
    eligible_stake_algo = score.eligible_stake_algo;
    eligible_stake_vemnde = score.eligible_stake_vemnde;
    eligible_stake_mnde = score.eligible_stake_vemnde;
    eligible_stake_msol = score.eligible_stake_msol;
    target_stake_algo = score.target_stake_algo;
    target_stake_vemnde = score.target_stake_vemnde;
    target_stake_mnde = score.target_stake_vemnde;
    target_stake_msol = score.target_stake_msol;
    scoring_run_id = score.scoring_run_id;
    created_at = score.created_at;
    epoch = run.epoch;
    ui_id = run.ui_id;
  }

  -- The body that the two filters share: a run without records left is dropped.
  abbrev pub filter_scores : (ValidatorScoreRecord Float → Bool) → RunScores Float → RunScores Float
  filter_scores p = filter_map λ e. elim (keep p e.1) [ [] ↦ none | x ∷ xs ↦ some (e.0, x ∷ xs) ]

  unfoldable pub filter_scores_by_date : DateTime → RunScores Float → RunScores Float
  filter_scores_by_date from_date = filter_scores λ v. ltb from_date v.created_at

  unfoldable pub filter_scores_by_vote_account : String → RunScores Float → RunScores Float
  filter_scores_by_vote_account vote_account =
      filter_scores λ v. holds (string_discrete v.vote_account vote_account)

  -- The records of a run by vote account: a later one replaces an earlier one.
  abbrev pub by_vote_account :
      List (ValidatorScoreRecord Float)
      → HashMap String (ValidatorScoreRecord Float)
      → HashMap String (ValidatorScoreRecord Float)
  by_vote_account [] m = m
  by_vote_account (r ∷ rs) m = by_vote_account rs (insert string_discrete r.vote_account r m)

module _ (f64 : F64) where
  -- The smallest score with a target stake.
  unfoldable pub min_eligible : HashMap String (ValidatorScoreRecord f64.Float) → Option f64.Float
  min_eligible scores =
      min_by (to_fixed_for_sort f64)
        (map (λ e. e.1.score) (keep (λ e. ltb 0 e.1.target_stake_algo) scores))

  -- The handler of validator_score_breakdown.rs.
  unfoldable pub score_breakdown :
      String → CachedSingleRunScores f64.Float → Result ScoresError (ScoreBreakdown f64.Float)
  unfolding min_eligible breakdown
  score_breakdown query_vote_account cached = elim cached.scoring_run [
    | none ↦ err ScoresError.no_scoring_run
    | some run ↦ elim (get string_discrete query_vote_account cached.scores) [
      | none ↦ err ScoresError.no_score
      | some score ↦ ok (breakdown run score (min_eligible cached.scores))
    ]
  ]

  -- The least eligible score of the run with an id.
  abbrev pub run_min : RunScores f64.Float → Decimal → Option f64.Float
  run_min validator_scores id =
      min_eligible (by_vote_account (or_default [] (get ℕ_discrete id validator_scores)) [])

  -- The loop of `compute_runs_min_elig_scores`, over the runs.
  pub runs_min_loop :
      RunScores f64.Float
      → List (ScoringRunRecord f64.Float)
      → HashMap Decimal (Option f64.Float)
      → HashMap Decimal (Option f64.Float)
  runs_min_loop validator_scores [] m = m
  runs_min_loop validator_scores (run ∷ runs) m = runs_min_loop validator_scores runs (
      update ℕ_discrete run.scoring_run_id (run_min validator_scores run.scoring_run_id) (λ v. v) m)

  unfoldable pub compute_runs_min_elig_scores :
      List (ScoringRunRecord f64.Float) → RunScores f64.Float → HashMap Decimal (Option f64.Float)
  unfolding runs_min_loop
  compute_runs_min_elig_scores scoring_runs validator_scores =
      runs_min_loop validator_scores scoring_runs []

  unfoldable pub compute_score_breakdowns :
      List (ScoringRunRecord f64.Float)
      → List (ValidatorScoreRecord f64.Float)
      → HashMap Decimal (Option f64.Float)
      → Option (List (ScoreBreakdown f64.Float))
  unfolding breakdown
  compute_score_breakdowns scoring_runs [] runs_min = some []
  compute_score_breakdowns scoring_runs (score ∷ scores) runs_min =
      let rest = compute_score_breakdowns scoring_runs scores runs_min in
      elim (find (λ run. run.scoring_run_id == score.scoring_run_id) scoring_runs) [
        | none ↦ rest
        | some run ↦ do
          least ← get ℕ_discrete run.scoring_run_id runs_min
          breakdowns ← rest
          some (breakdown run score least ∷ breakdowns)
      ]

  abbrev pub date_filtered : Option DateTime → RunScores f64.Float → RunScores f64.Float
  date_filtered none scores = scores
  date_filtered (some from_date) scores = filter_scores_by_date from_date scores

  abbrev pub vote_account_filtered : Option String → RunScores f64.Float → RunScores f64.Float
  vote_account_filtered none scores = scores
  vote_account_filtered (some vote_account) scores =
      filter_scores_by_vote_account vote_account scores

  -- The breakdowns of the selected scores, with the least eligible scores of all dated ones.
  abbrev pub answer :
      List (ScoringRunRecord f64.Float)
      → RunScores f64.Float
      → RunScores f64.Float
      → Option (Result ScoresError (List (ScoreBreakdown f64.Float)))
  answer scoring_runs dated selected =
      (compute_score_breakdowns scoring_runs (flat_map (λ v. v) (values selected))
          (compute_runs_min_elig_scores scoring_runs dated)
        >>= λ breakdowns. some (ok breakdowns))

  -- The handler of validator_score_breakdowns.rs.
  unfoldable pub score_breakdowns :
      Option DateTime
      → Option String
      → CachedMultiRunScores f64.Float
      → Option (Result ScoresError (List (ScoreBreakdown f64.Float)))
  score_breakdowns query_from_date query_vote_account cached = elim cached.scoring_runs [
    | none ↦ some (err ScoresError.no_scoring_runs)
    | some scoring_runs ↦
        let dated = date_filtered query_from_date cached.scores in
        answer scoring_runs dated (vote_account_filtered query_vote_account dated)
  ]
