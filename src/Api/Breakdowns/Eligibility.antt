-- ===== src/Api/Breakdowns/Eligibility.antt =====
-- The least eligible scores of the runs, and the lookup of them that is unwrapped.
use delegation_strategy.Prelude.{
  ℕ, ◌≡◌, refl, sym, ap, subst, String, Bool, true, false, Option, none, some, Option-cases, inl,
  inr, ◌⊎◌, List, [], ◌∷◌, HashMap, get, update, get-update, ℕ_discrete, find, any, ◌==◌, ◌>>=◌,
  if◌then◌else◌, flat_map, values, F64, arith,
}
use delegation_strategy.Store.Query.{Result, ok, err}
use delegation_strategy.Store.Dto.Scalars.{DateTime}
use delegation_strategy.Store.Dto.Scores.{ValidatorScoreRecord, ScoringRunRecord}
use delegation_strategy.Api.Cache.{CachedMultiRunScores}
use delegation_strategy.Api.Breakdowns.{
  RunScores, date_filtered, vote_account_filtered, answer, run_min, runs_min_loop,
  compute_runs_min_elig_scores, compute_score_breakdowns, score_breakdowns, ScoresError,
  ScoreBreakdown, breakdown,
}

module _ (f64 : F64) where
  runs_min_loop-kept :
      (scores : RunScores f64.Float) (k : ℕ) (v : Option f64.Float)
      (runs : List (ScoringRunRecord f64.Float)) (m : HashMap ℕ (Option f64.Float))
      → get ℕ_discrete k m ≡ some v
      → get ℕ_discrete k (runs_min_loop f64 scores runs m) ≡ some v
  unfolding runs_min_loop
  runs_min_loop-kept scores k v [] m h = h
  runs_min_loop-kept scores k v (run ∷ runs) m h = runs_min_loop-kept scores k v runs _ (
      ground (
        arith,
        get-update ℕ_discrete run.scoring_run_id k (run_min f64 scores run.scoring_run_id) (λ x. x)
            m,
      ))

  runs_min_loop-found :
      (scores : RunScores f64.Float) (k : ℕ) (runs : List (ScoringRunRecord f64.Float))
      (m : HashMap ℕ (Option f64.Float))
      → get ℕ_discrete k m ≡ none
      → any (λ run. run.scoring_run_id == k) runs ≡ true
      → get ℕ_discrete k (runs_min_loop f64 scores runs m) ≡ some (run_min f64 scores k)
  unfolding runs_min_loop
  runs_min_loop-found scores k [] m h a = cc
  runs_min_loop-found scores k (run ∷ runs) m h a = elim (ℕ_discrete run.scoring_run_id k) [
    | yes e ↦ runs_min_loop-kept scores k (run_min f64 scores k) runs _ (put run.scoring_run_id e)
    | no n ↦
        runs_min_loop-found scores k runs _
          (ground (
            arith,
            get-update ℕ_discrete run.scoring_run_id k (run_min f64 scores run.scoring_run_id)
                (λ v. v) m,
          ))
          (ground arith)
  ]
    where
      put :
          (i : ℕ)
          → i ≡ k
          → get ℕ_discrete k (update ℕ_discrete i (run_min f64 scores i) (λ v. v) m)
            ≡ some (run_min f64 scores k)
      put i e =
          subst
            (λ j.
              get ℕ_discrete k (update ℕ_discrete j (run_min f64 scores j) (λ v. v) m)
              ≡ some (run_min f64 scores k))
            (sym e) (ground (arith, get-update ℕ_discrete k k (run_min f64 scores k) (λ v. v) m))

  first_or_later :
      {A : Type 0} (b : Bool) (x y : A) (later : Option A)
      → (if b then some x else later) ≡ some y
      → (x ≡ y) ⊎ (later ≡ some y)
  first_or_later true x y later e = inl cc
  first_or_later false x y later e = inr e

  find-any :
      (id : ℕ) (runs : List (ScoringRunRecord f64.Float)) (run : ScoringRunRecord f64.Float)
      → find (λ r. r.scoring_run_id == id) runs ≡ some run
      → any (λ r. r.scoring_run_id == run.scoring_run_id) runs ≡ true
  find-any id [] run e = cc
  find-any id (r ∷ runs) run e =
      let later = find-any id runs run in
      elim (first_or_later (r.scoring_run_id == id) r run (find (λ x. x.scoring_run_id == id) runs)
        e) [
          | inl p ↦
              subst (λ x. any (λ y. y.scoring_run_id == x.scoring_run_id) (r ∷ runs) ≡ true) p
                (ground arith)
          | inr p ↦ ground (arith, later p)
        ]

  compute_score_breakdowns-some :
      (runs : List (ScoringRunRecord f64.Float)) (scores : List (ValidatorScoreRecord f64.Float))
      (runs_min : HashMap ℕ (Option f64.Float))
      → ((k : ℕ)
          → any (λ run. run.scoring_run_id == k) runs ≡ true
          → (v : Option f64.Float) × (get ℕ_discrete k runs_min ≡ some v))
      → (l : List (ScoreBreakdown f64.Float)) × (compute_score_breakdowns f64 runs scores runs_min
          ≡ some l)
  unfolding compute_score_breakdowns
  compute_score_breakdowns-some runs [] runs_min h = ([], refl)
  compute_score_breakdowns-some runs (score ∷ scores) runs_min h =
      let rest = compute_score_breakdowns-some runs scores runs_min h in
      elim (Option-cases (find (λ run. run.scoring_run_id == score.scoring_run_id) runs)) [
        | inl e ↦ rw (e, compute_score_breakdowns) rest
        | inr found ↦
            let least =
              h found.0.scoring_run_id (find-any score.scoring_run_id runs found.0 found.1) in
            rw (found.1, least.1, rest.1, compute_score_breakdowns)
              (breakdown found.0 score least.0 ∷ rest.0, refl)
      ]

  answer-some :
      (runs : List (ScoringRunRecord f64.Float)) (dated selected : RunScores f64.Float)
      → (r : Result ScoresError (List (ScoreBreakdown f64.Float))) × (answer f64 runs dated selected
          ≡ some r)
  unfolding compute_runs_min_elig_scores get
  answer-some runs dated selected =
      let l =
        compute_score_breakdowns-some runs (flat_map (λ v. v) (values selected))
          (compute_runs_min_elig_scores f64 runs dated)
          (λ k a. (run_min f64 dated k, runs_min_loop-found dated k runs [] (get_nil k) a)) in
      (ok l.0, ap (λ o. o >>= λ b. some (ok b)) l.1)
    where
      get_nil : (k : ℕ) → get {V = Option f64.Float} ℕ_discrete k [] ≡ none
      get_nil k = refl

  -- The handler of the score breakdowns never panics: whatever is cached and asked for, it answers
  -- with breakdowns, or with the error that no scoring runs are cached.
  pub score_breakdowns-answers :
      (from_date : Option DateTime) (vote_account : Option String)
      (cached : CachedMultiRunScores f64.Float)
      → (r : Result ScoresError (List (ScoreBreakdown f64.Float))) × (score_breakdowns f64 from_date
            vote_account cached
          ≡ some r)
  unfolding score_breakdowns
  score_breakdowns-answers from_date vote_account cached = elim (Option-cases cached.scoring_runs) [
    | inl e ↦ (err ScoresError.no_scoring_runs, rw (e, score_breakdowns) refl)
    | inr runs ↦
        rw (runs.1, score_breakdowns)
          (answer-some runs.0 (date_filtered f64 from_date cached.scores)
            (vote_account_filtered f64 vote_account (date_filtered f64 from_date cached.scores)))
  ]
