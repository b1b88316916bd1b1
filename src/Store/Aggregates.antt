-- ===== src/Store/Aggregates.antt =====
-- store/src/utils.rs: `aggregate_validators`. The clock is read for each statistic without a start:
-- `now vote_account epoch` is what it then says.
pub mod Epochs
use delegation_strategy.Prelude.{
  ℕ, String, Option, none, some, List, [], ◌∷◌, ◌++◌, map, HashMap, get, update, insert, add,
  or_default, sort_by, descending, ℕ_discrete, F64,
}
use delegation_strategy.Store.Dto.Scalars.{DateTime}
use delegation_strategy.Store.Dto.Validators.{
  ValidatorEpochStats, ValidatorRecord, ValidatorsAggregated,
}
use delegation_strategy.Store.Ranks.{Validators}
use delegation_strategy.Store.Averages.{average}

module _ (f64 : F64) (now : String → ℕ → DateTime) where
  -- The four collections that the loop fills.
  pub record Collected : Type 0 where
    pub epochs : List ℕ
    pub epochs_start_dates : HashMap ℕ DateTime
    pub marinade_scores : HashMap ℕ (List f64.Float)
    pub apys : HashMap ℕ (List f64.Float)

  -- `if let Some(value) = value { map.entry(epoch).or_default().push(value) }`
  abbrev pub push_at :
      ℕ → Option f64.Float → HashMap ℕ (List f64.Float) → HashMap ℕ (List f64.Float)
  push_at epoch none m = m
  push_at epoch (some value) m = update ℕ_discrete epoch [] (λ l. l ++ value ∷ []) m

  -- The body of the inner loop.
  unfoldable pub collect_one : String → ValidatorEpochStats f64.Float → Collected → Collected
  collect_one vote_account s c = record {
    epochs = add ℕ_discrete s.epoch c.epochs;
    epochs_start_dates =
        insert ℕ_discrete s.epoch (or_default (now vote_account s.epoch) s.epoch_start_at)
          c.epochs_start_dates;
    marinade_scores = push_at s.epoch s.score c.marinade_scores;
    apys = push_at s.epoch s.apy c.apys;
  }

  unfoldable pub collect_all : List (String × ValidatorEpochStats f64.Float) → Collected → Collected
  unfolding collect_one
  collect_all [] c = c
  collect_all ((vote_account, s) ∷ rest) c = collect_all rest (collect_one vote_account s c)

  -- Both loops visit the statistics of all validators in the order of the map.
  abbrev pub all_stats : Validators f64.Float → List (String × ValidatorEpochStats f64.Float)
  all_stats [] = []
  all_stats ((vote_account, v) ∷ rest) =
      map (λ s. (vote_account, s)) v.epoch_stats ++ all_stats rest

  unfoldable pub aggregate_epoch : Collected → ℕ → ValidatorsAggregated f64.Float
  aggregate_epoch c epoch = record {
    epoch = epoch;
    epoch_start_date = get ℕ_discrete epoch c.epochs_start_dates;
    avg_marinade_score = average f64 (or_default [] (get ℕ_discrete epoch c.marinade_scores));
    avg_apy = average f64 (or_default [] (get ℕ_discrete epoch c.apys));
  }

  unfoldable pub aggregate_validators : Validators f64.Float → List (ValidatorsAggregated f64.Float)
  unfolding collect_all aggregate_epoch
  aggregate_validators validators =
      let c =
        collect_all (all_stats validators)
          (record { epochs = []; epochs_start_dates = []; marinade_scores = []; apys = [] }) in
      sort_by (descending (λ a. a.epoch)) (map (aggregate_epoch c) c.epochs)
