-- ===== src/Api/Cache.antt =====
-- api/src/cache.rs: the cache, its reads, and the passes that warm it. What a pass loads from the
-- database and from BigQuery is a record of results, one for each call, in the order of the calls.
pub mod Invariants
use delegation_strategy.Prelude.{
  ℕ, String, Bool, false, Option, none, some, List, [], ◌∷◌, HashMap, take, get, string_discrete,
  or_default, ◌==◌, if◌then◌else◌, F64,
}
use delegation_strategy.Store.Query.{Result, ok, err}
use delegation_strategy.Store.Dto.Scalars.{Decimal, DateTime}
use delegation_strategy.Store.Dto.Validators.{ValidatorsAggregated}
use delegation_strategy.Store.Dto.Records.{
  UptimeRecord, VersionRecord, CommissionRecord, ClusterStats,
}
use delegation_strategy.Store.Dto.Scores.{ValidatorScoreRecord, ScoringRunRecord}
use delegation_strategy.Store.Ranks.{Validators}
use delegation_strategy.Store.Aggregates.{aggregate_validators}

pub record CachedSingleRunScores (Float : Type 0) : Type 0 where
  pub scoring_run : Option (ScoringRunRecord Float)
  pub scores : HashMap String (ValidatorScoreRecord Float)

pub record CachedMultiRunScores (Float : Type 0) : Type 0 where
  pub scoring_runs : Option (List (ScoringRunRecord Float))
  pub scores : HashMap Decimal (List (ValidatorScoreRecord Float))

pub record PerEpochCache (Float : Type 0) : Type 0 where
  pub epoch : ℕ
  pub unique_delegators : HashMap String ℕ
  pub take_rates : HashMap String Float

pub record Cache (Float : Type 0) : Type 0 where
  pub validators : Validators Float
  pub commissions : HashMap String (List CommissionRecord)
  pub versions : HashMap String (List VersionRecord)
  pub uptimes : HashMap String (List UptimeRecord)
  pub cluster_stats : Option (ClusterStats Float)
  pub validators_aggregated : List (ValidatorsAggregated Float)
  pub validators_single_run_scores : CachedSingleRunScores Float
  pub validators_multi_run_scores : CachedMultiRunScores Float
  pub per_epoch : Option (PerEpochCache Float)

-- The results of one pass's calls. `load_last_scoring_run` is called twice.
pub record Loads (Float E : Type 0) : Type 0 where
  pub last_scoring_run : Result E (Option (ScoringRunRecord Float))
  pub scores : ℕ → Result E (HashMap String (ValidatorScoreRecord Float))
  pub all_scores : Result E (HashMap Decimal (List (ValidatorScoreRecord Float)))
  pub last_scoring_run_again : Result E (Option (ScoringRunRecord Float))
  pub scoring_runs : Result E (List (ScoringRunRecord Float))
  pub versions : Result E (HashMap String (List VersionRecord))
  pub commissions : Result E (HashMap String (List CommissionRecord))
  pub uptimes : Result E (HashMap String (List UptimeRecord))
  pub cluster_stats : Result E (ClusterStats Float)
  pub last_bigquery_epoch : Result E (Option ℕ)
  pub unique_delegators : Result E (HashMap String ℕ)
  pub take_rates : Result E (HashMap String Float)
  pub validators : HashMap String ℕ → HashMap String Float → Result E (Validators Float)
  pub now : String → ℕ → DateTime

-- `?` on a result.
abbrev pub and_then : {E A B : Type 0} → Result E A → (A → Result E B) → Result E B
and_then (ok a) f = f a
and_then (err e) f = err e

abbrev pub no_single_run : {Float : Type 0} → CachedSingleRunScores Float
no_single_run = record { scoring_run = none; scores = [] }

-- A failed warm-up is logged, and leaves the cache as it was.
abbrev pub settle : {E A : Type 0} → Result E A → A → A
settle (ok a) old = a
settle (err e) old = old

-- `Cache::new`
unfoldable pub new : {Float : Type 0} → Cache Float
new = record {
  validators = [];
  commissions = [];
  versions = [];
  uptimes = [];
  cluster_stats = none;
  validators_aggregated = [];
  validators_single_run_scores = no_single_run;
  validators_multi_run_scores = record { scoring_runs = none; scores = [] };
  per_epoch = none;
}

module _ {Float : Type 0} where
  unfoldable pub get_commissions : String → Cache Float → Option (List CommissionRecord)
  get_commissions vote_account c = get string_discrete vote_account c.commissions

  unfoldable pub get_versions : String → Cache Float → Option (List VersionRecord)
  get_versions vote_account c = get string_discrete vote_account c.versions

  unfoldable pub get_uptimes : String → Cache Float → Option (List UptimeRecord)
  get_uptimes vote_account c = get string_discrete vote_account c.uptimes

  unfoldable pub get_cluster_stats : ℕ → Cache Float → Option (ClusterStats Float)
  get_cluster_stats epochs c = elim c.cluster_stats [
    | none ↦ none
    | some stats ↦ some (record {
      block_production_stats = take epochs stats.block_production_stats;
      dc_concentration_stats = take epochs stats.dc_concentration_stats;
    })
  ]

-- `cached.map(|c| c.epoch) == Some(last_epoch)`
abbrev pub is_epoch : ℕ → Option ℕ → Bool
is_epoch last_epoch none = false
is_epoch last_epoch (some epoch) = epoch == last_epoch

module _ {Float : Type 0} where
  abbrev pub epoch_of : Option (PerEpochCache Float) → Option ℕ
  epoch_of none = none
  epoch_of (some c) = some c.epoch

  abbrev pub or_else :
      Option (PerEpochCache Float) → Option (PerEpochCache Float) → Option (PerEpochCache Float)
  or_else none b = b
  or_else (some a) b = some a

  abbrev pub delegators_of : Option (PerEpochCache Float) → HashMap String ℕ
  delegators_of none = []
  delegators_of (some c) = c.unique_delegators

  abbrev pub take_rates_of : Option (PerEpochCache Float) → HashMap String Float
  take_rates_of none = []
  take_rates_of (some c) = c.take_rates

module _ (f64 : F64) {E : Type 0} where
  abbrev pub refresh : Loads f64.Float E → ℕ → Option (PerEpochCache f64.Float)
  refresh loads last_epoch = elim loads.unique_delegators [
    | err e ↦ none
    | ok unique_delegators ↦ elim loads.take_rates [
      | err e ↦ none
      | ok take_rates ↦ some (record {
        epoch = last_epoch;
        unique_delegators = unique_delegators;
        take_rates = take_rates;
      })
    ]
  ]

  -- `PerEpochCache::load`
  unfoldable pub load :
      Loads f64.Float E → Option (PerEpochCache f64.Float) → Option (PerEpochCache f64.Float)
  load loads cached = elim loads.last_bigquery_epoch [
    | err e ↦ none
    | ok none ↦ none
    | ok (some last_epoch) ↦
        if is_epoch last_epoch (epoch_of cached) then none else refresh loads last_epoch
  ]

  unfoldable pub warm_validators_cache :
      Loads f64.Float E → Cache f64.Float → Result E (Cache f64.Float)
  unfolding load
  warm_validators_cache loads c =
      let refreshed = load loads c.per_epoch in
      let used = or_else refreshed c.per_epoch in
      and_then (loads.validators (delegators_of used) (take_rates_of used)) λ validators.
        ok (record c {
          per_epoch = or_else refreshed c.per_epoch;
          validators = validators;
          validators_aggregated = aggregate_validators f64 loads.now validators;
        })

  unfoldable pub warm_commissions_cache :
      Loads f64.Float E → Cache f64.Float → Result E (Cache f64.Float)
  warm_commissions_cache loads c =
      and_then loads.commissions λ commissions. ok (record c { commissions = commissions })

  unfoldable pub warm_versions_cache :
      Loads f64.Float E → Cache f64.Float → Result E (Cache f64.Float)
  warm_versions_cache loads c =
      and_then loads.versions λ versions. ok (record c { versions = versions })

  unfoldable pub warm_uptimes_cache :
      Loads f64.Float E → Cache f64.Float → Result E (Cache f64.Float)
  warm_uptimes_cache loads c = and_then loads.uptimes λ uptimes. ok (record c { uptimes = uptimes })

  unfoldable pub warm_cluster_stats_cache :
      Loads f64.Float E → Cache f64.Float → Result E (Cache f64.Float)
  warm_cluster_stats_cache loads c =
      and_then loads.cluster_stats λ stats. ok (record c { cluster_stats = some stats })

  abbrev pub scores_of_run :
      Loads f64.Float E
      → Option (ScoringRunRecord f64.Float)
      → Result E (HashMap String (ValidatorScoreRecord f64.Float))
  scores_of_run loads none = ok []
  scores_of_run loads (some run) = loads.scores run.scoring_run_id

  unfoldable pub warm_scores_cache :
      Loads f64.Float E → Cache f64.Float → Result E (Cache f64.Float)
  warm_scores_cache loads c = and_then loads.last_scoring_run λ run.
      and_then (scores_of_run loads run) λ scores. and_then loads.all_scores λ multi_run_scores.
        and_then loads.last_scoring_run_again λ last_scoring_run.
          and_then loads.scoring_runs λ scoring_runs. ok (record c {
            validators_single_run_scores = record {
              scoring_run = last_scoring_run;
              scores = scores;
            };
            validators_multi_run_scores = record {
              scoring_runs = some scoring_runs;
              scores = multi_run_scores;
            };
          })

  -- The body of the loop of `spawn_cache_warmer`.
  unfoldable pub warm_pass : Loads f64.Float E → Cache f64.Float → Cache f64.Float
  unfolding warm_scores_cache warm_versions_cache warm_commissions_cache warm_uptimes_cache
      warm_cluster_stats_cache warm_validators_cache
  warm_pass loads c =
      let scored = settle (warm_scores_cache loads c) c in
      let versioned = settle (warm_versions_cache loads scored) scored in
      let commissioned = settle (warm_commissions_cache loads versioned) versioned in
      let timed = settle (warm_uptimes_cache loads commissioned) commissioned in
      let clustered = settle (warm_cluster_stats_cache loads timed) timed in
      settle (warm_validators_cache loads clustered) clustered

  -- The passes of the loop, one after the other.
  abbrev pub warm_passes : List (Loads f64.Float E) → Cache f64.Float → Cache f64.Float
  warm_passes [] c = c
  warm_passes (loads ∷ rest) c = warm_passes rest (warm_pass loads c)
