-- ===== src/Api/Cache/Invariants.antt =====
-- What holds of the cache after any passes.
use delegation_strategy.Prelude.{
  sort_by, ℕ, ◌≡◌, refl, subst, String, Option, none, some, List, [], ◌∷◌, HashMap, All, F64,
}
use delegation_strategy.Store.Query.{Result, ok, err}
use delegation_strategy.Store.Dto.Scalars.{DateTime}
use delegation_strategy.Store.Dto.Scores.{ValidatorScoreRecord, ScoringRunRecord}
use delegation_strategy.Store.Aggregates.{aggregate_validators, collect_all}
use delegation_strategy.Api.Cache.{
  Cache, Loads, CachedSingleRunScores, new, and_then, settle, warm_pass, warm_passes,
  warm_validators_cache, warm_scores_cache, warm_versions_cache, warm_commissions_cache,
  warm_uptimes_cache, warm_cluster_stats_cache, scores_of_run,
}

-- A warm-up that fails leaves the old value; one that succeeds has had every load succeed.
settle-then :
    {E A B : Type 0} (P : B → Type 0) (m : Result E A) (f : A → Result E B) (old : B)
    → ((a : A) → m ≡ ok a → P (settle (f a) old))
    → P old
    → P (settle (and_then m f) old)
settle-then P (ok a) f old h k = h a refl
settle-then P (err e) f old h k = k

module _ (f64 : F64) where
  -- The aggregates are those of the cached validators.
  abbrev pub AggregatesMatch : Cache f64.Float → Type 0
  AggregatesMatch c =
      (now : String → ℕ → DateTime) × (c.validators_aggregated
        ≡ aggregate_validators f64 now c.validators)

  -- The cached scores are those of the cached run, as the database has them: `scores_of`.
  abbrev pub ScoresMatch :
      (ℕ → HashMap String (ValidatorScoreRecord f64.Float))
      → CachedSingleRunScores f64.Float
      → Type 0
  ScoresMatch scores_of s =
      s.scores ≡ elim s.scoring_run [ none ↦ [] | some run ↦ scores_of run.scoring_run_id ]

  abbrev Matches : (ℕ → HashMap String (ValidatorScoreRecord f64.Float)) → Cache f64.Float → Type 0
  Matches scores_of c = ScoresMatch scores_of c.validators_single_run_scores

module _ (f64 : F64) {E : Type 0} where
  -- A property of the caches that the six warm-ups of a pass keep, the pass keeps.
  warm_pass-keeps :
      (P : Cache f64.Float → Type 0) (loads : Loads f64.Float E)
      → ((c : Cache f64.Float) → P c → P (settle (warm_scores_cache f64 loads c) c))
      → ((c : Cache f64.Float) → P c → P (settle (warm_versions_cache f64 loads c) c))
      → ((c : Cache f64.Float) → P c → P (settle (warm_commissions_cache f64 loads c) c))
      → ((c : Cache f64.Float) → P c → P (settle (warm_uptimes_cache f64 loads c) c))
      → ((c : Cache f64.Float) → P c → P (settle (warm_cluster_stats_cache f64 loads c) c))
      → ((c : Cache f64.Float) → P c → P (settle (warm_validators_cache f64 loads c) c))
      → (c : Cache f64.Float) → P c
      → P (warm_pass f64 loads c)
  unfolding warm_pass
  warm_pass-keeps P loads s v m u l r c h = r _ (l _ (u _ (m _ (v _ (s c h)))))

  warm_pass-AggregatesMatch :
      (loads : Loads f64.Float E) (c : Cache f64.Float)
      → (AggregatesMatch f64) c
      → (AggregatesMatch f64) (warm_pass f64 loads c)
  unfolding warm_scores_cache warm_versions_cache warm_commissions_cache warm_uptimes_cache
      warm_cluster_stats_cache warm_validators_cache
  warm_pass-AggregatesMatch loads =
      warm_pass-keeps (AggregatesMatch f64) loads
        (λ c h.
          settle-then (AggregatesMatch f64) loads.last_scoring_run _ c
            (λ run _.
              settle-then (AggregatesMatch f64) (scores_of_run f64 loads run) _ c
                (λ scores _.
                  settle-then (AggregatesMatch f64) loads.all_scores _ c
                    (λ multi _.
                      settle-then (AggregatesMatch f64) loads.last_scoring_run_again _ c
                        (λ again _.
                          settle-then (AggregatesMatch f64) loads.scoring_runs _ c (λ runs _. h) h)
                        h)
                    h)
                h)
            h)
        (λ c h. settle-then (AggregatesMatch f64) loads.versions _ c (λ _ _. h) h)
        (λ c h. settle-then (AggregatesMatch f64) loads.commissions _ c (λ _ _. h) h)
        (λ c h. settle-then (AggregatesMatch f64) loads.uptimes _ c (λ _ _. h) h)
        (λ c h. settle-then (AggregatesMatch f64) loads.cluster_stats _ c (λ _ _. h) h)
        (λ c h.
          settle-then (AggregatesMatch f64) (loads.validators _ _) _ c (λ _ _. (loads.now, refl)) h)

  -- After any passes over a new cache, failed loads among them, the cached aggregates are those of
  -- the cached validators.
  pub warm_passes-AggregatesMatch :
      (passes : List (Loads f64.Float E)) → (AggregatesMatch f64) (warm_passes f64 passes new)
  unfolding new aggregate_validators collect_all sort_by
  warm_passes-AggregatesMatch passes = from passes new at_new
    where
      at_new : (AggregatesMatch f64) new
      at_new = (λ _ _. 0, refl)

      from :
          (passes : List (Loads f64.Float E)) (c : Cache f64.Float)
          → (AggregatesMatch f64) c
          → (AggregatesMatch f64) (warm_passes f64 passes c)
      from [] c h = h
      from (loads ∷ rest) c h =
          from rest (warm_pass f64 loads c) (warm_pass-AggregatesMatch loads c h)

  -- A pass whose two reads of the last run agree, and that reads scores as the database has them.
  abbrev pub IsStable :
      (ℕ → HashMap String (ValidatorScoreRecord f64.Float)) → Loads f64.Float E → Type 0
  IsStable scores_of loads =
      (loads.last_scoring_run ≡ loads.last_scoring_run_again)
      × ((id : ℕ) (scores : HashMap String (ValidatorScoreRecord f64.Float))
          → loads.scores id ≡ ok scores
          → scores ≡ scores_of id)

  scores_of_run-eq :
      (scores_of : ℕ → HashMap String (ValidatorScoreRecord f64.Float)) (loads : Loads f64.Float E)
      → IsStable scores_of loads
      → (run : Option (ScoringRunRecord f64.Float))
        (scores : HashMap String (ValidatorScoreRecord f64.Float))
      → scores_of_run f64 loads run ≡ ok scores
      → ScoresMatch f64 scores_of (record { scoring_run = run; scores = scores })
  scores_of_run-eq scores_of loads s none scores e = cc
  scores_of_run-eq scores_of loads s (some run) scores e = s.1 run.scoring_run_id scores e

  warm_pass-ScoresMatch :
      (scores_of : ℕ → HashMap String (ValidatorScoreRecord f64.Float)) (loads : Loads f64.Float E)
      → IsStable scores_of loads
      → (c : Cache f64.Float) → Matches f64 scores_of c
      → Matches f64 scores_of (warm_pass f64 loads c)
  unfolding warm_scores_cache warm_versions_cache warm_commissions_cache warm_uptimes_cache
      warm_cluster_stats_cache warm_validators_cache
  warm_pass-ScoresMatch scores_of loads s =
      warm_pass-keeps P loads
        (λ c h.
          settle-then P loads.last_scoring_run _ c
            (λ run e.
              settle-then P (scores_of_run f64 loads run) _ c
                (λ scores f.
                  settle-then P loads.all_scores _ c
                    (λ multi _.
                      settle-then P loads.last_scoring_run_again _ c
                        (λ again g.
                          settle-then P loads.scoring_runs _ c
                            (λ runs _.
                              subst
                                (λ r.
                                  ScoresMatch f64 scores_of
                                    (record { scoring_run = r; scores = scores }))
                                (same_run run again e g)
                                (scores_of_run-eq scores_of loads s run scores f))
                            h)
                        h)
                    h)
                h)
            h)
        (λ c h. settle-then P loads.versions _ c (λ _ _. h) h)
        (λ c h. settle-then P loads.commissions _ c (λ _ _. h) h)
        (λ c h. settle-then P loads.uptimes _ c (λ _ _. h) h)
        (λ c h. settle-then P loads.cluster_stats _ c (λ _ _. h) h)
        (λ c h. settle-then P (loads.validators _ _) _ c (λ _ _. h) h)
    where
      P : Cache f64.Float → Type 0
      P = Matches f64 scores_of

      same_run :
          (run again : Option (ScoringRunRecord f64.Float))
          → loads.last_scoring_run ≡ ok run
          → loads.last_scoring_run_again ≡ ok again
          → run ≡ again
      same_run run again e g = cc

  -- Where in every pass the two reads of the last scoring run agree, and the scores read are those
  -- that the database has of a run, the cached scores are those of the cached run after any passes
  -- over a new cache, failed loads among them.
  pub warm_passes-ScoresMatch :
      (scores_of : ℕ → HashMap String (ValidatorScoreRecord f64.Float))
      (passes : List (Loads f64.Float E))
      → All (IsStable scores_of) passes
      → ScoresMatch f64 scores_of (warm_passes f64 passes new).validators_single_run_scores
  unfolding new
  warm_passes-ScoresMatch scores_of passes s = from passes new refl s
    where
      from :
          (passes : List (Loads f64.Float E)) (c : Cache f64.Float)
          → Matches f64 scores_of c
          → All (IsStable scores_of) passes
          → Matches f64 scores_of (warm_passes f64 passes c)
      from [] c h s = h
      from (loads ∷ rest) c h s =
          from rest (warm_pass f64 loads c) (warm_pass-ScoresMatch scores_of loads s.0 c h) s.1
