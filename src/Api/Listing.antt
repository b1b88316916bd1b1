-- ===== src/Api/Listing.antt =====
-- api/src/handlers/list_validators.rs: `get_validators` and the body of `handler`.
pub mod Order
pub mod Paging
use delegation_strategy.Prelude.{
  ℕ, ◌+◌, ◌-◌, String, Bool, Option, none, some, List, HashMap, map, take, drop, keep, ltb, leb,
  or_default, add_u64, sort_by, ascending, descending, F64,
}
use delegation_strategy.Store.Dto.Scalars.{DateTime}
use delegation_strategy.Store.Dto.Validators.{
  ValidatorEpochStats, ValidatorRecord, ValidatorsAggregated,
}
use delegation_strategy.Store.Ranks.{Validators}
use delegation_strategy.Api.Query.{
  QueryParams, GetValidatorsConfig, OrderField, OrderDirection, config_of, default_epochs,
}
use delegation_strategy.Store.Fixed.{to_fixed_for_sort}
use delegation_strategy.Api.Filter.{filter_validators, last_epoch_of, is_some_and}

module _ (f64 : F64) where
  unfoldable pub get_field_extractor : OrderField → ValidatorRecord f64.Float → ℕ
  get_field_extractor OrderField.stake a = a.activated_stake
  get_field_extractor OrderField.credits a = a.credits
  get_field_extractor OrderField.marinade_score a =
      to_fixed_for_sort f64 (or_default (f64.of_nat 0) a.score)
  get_field_extractor OrderField.apy a = to_fixed_for_sort f64 (or_default (f64.of_nat 0) a.avg_apy)
  get_field_extractor OrderField.commission a = or_default 100 a.commission_max_observed
  get_field_extractor OrderField.uptime a =
      to_fixed_for_sort f64 (or_default (f64.of_nat 0) a.avg_uptime_pct)

  -- The comparison that the sort is given.
  abbrev pub directed :
      OrderDirection
      → (ValidatorRecord f64.Float → ℕ)
      → ValidatorRecord f64.Float
      → ValidatorRecord f64.Float
      → Bool
  directed OrderDirection.asc key = ascending key
  directed OrderDirection.desc key = descending key

  unfoldable pub order_of :
      GetValidatorsConfig → ValidatorRecord f64.Float → ValidatorRecord f64.Float → Bool
  unfolding get_field_extractor
  order_of config = directed config.order_direction (get_field_extractor config.order_field)

  abbrev pub starts_after : DateTime → Option DateTime → Bool
  starts_after from_date = is_some_and (λ at. ltb from_date at)

  -- The statistics that a validator is returned with.
  unfoldable pub select_epochs :
      GetValidatorsConfig
      → ℕ
      → List (ValidatorEpochStats f64.Float)
      → List (ValidatorEpochStats f64.Float)
  select_epochs config min_epoch stats = elim config.query_from_date [
    | some from_date ↦ keep (λ es. starts_after from_date es.epoch_start_at) stats
    | none ↦ keep (λ es. leb min_epoch es.epoch) stats
  ]

  abbrev pub with_epochs :
      GetValidatorsConfig → ℕ → ValidatorRecord f64.Float → ValidatorRecord f64.Float
  with_epochs config min_epoch v = record v {
    epoch_stats = select_epochs config min_epoch v.epoch_stats;
  }

module _ (f64 : F64) (to_lowercase : String → String) (str_contains : String → String → Bool) where
  -- `max_epoch + 1` is u64.
  abbrev pub min_epoch_of : GetValidatorsConfig → List (ValidatorRecord f64.Float) → ℕ
  min_epoch_of config validators =
      add_u64 (last_epoch_of f64 to_lowercase str_contains validators) 1 - config.epochs

  unfoldable pub get_validators :
      Validators f64.Float → GetValidatorsConfig → List (ValidatorRecord f64.Float)
  unfolding order_of select_epochs
  get_validators cached config =
      let validators = filter_validators f64 to_lowercase str_contains cached config in
      let sorted = sort_by (order_of f64 config) validators in
      map (with_epochs f64 config (min_epoch_of config sorted))
        (take config.limit (drop config.offset sorted))

  -- The aggregates that go with the answer.
  unfoldable pub select_aggregated :
      QueryParams → List (ValidatorsAggregated f64.Float) → List (ValidatorsAggregated f64.Float)
  select_aggregated query_params validators_aggregated = elim query_params.query_from_date [
    | some from_date ↦
        keep (λ v. starts_after f64 from_date v.epoch_start_date) validators_aggregated
    | none ↦ take (or_default default_epochs query_params.epochs) validators_aggregated
  ]

  unfoldable pub handler :
      (String → List String)
      → QueryParams
      → Validators f64.Float
      → List (ValidatorsAggregated f64.Float)
      → List (ValidatorRecord f64.Float) × List (ValidatorsAggregated f64.Float)
  handler split query_params cached validators_aggregated = (
    get_validators cached (config_of split query_params),
    select_aggregated query_params validators_aggregated,
  )
