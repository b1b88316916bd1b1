-- ===== src/Store/Load/Yields.antt =====
-- store/src/utils.rs: `InflationApyCalculator` and `get_apy_calculators`.
use delegation_strategy.Prelude.{
  ℕ, ◌*◌, ◌/◌, ◌||◌, List, [], ◌∷◌, HashMap, insert, min, max, ◌==◌, if◌then◌else◌, ℕ_discrete, F64,
}
use delegation_strategy.Store.Query.{Result, ok, and_then}
use delegation_strategy.Store.Dto.Scalars.{Decimal}
use delegation_strategy.Store.Load.{to_u64, or_error}

module _ (f64 : F64) where
  pub record InflationApyCalculator : Type 0 where
    pub supply : ℕ
    pub duration : ℕ
    pub inflation : f64.Float
    pub total_weighted_credits : ℕ

  -- 365.25 days, in seconds.
  abbrev pub seconds_in_year : f64.Float
  seconds_in_year =
      f64.mul (f64.mul (f64.div (f64.of_nat 36525) (f64.of_nat 100)) (f64.of_nat 24))
        (f64.of_nat 3600)

  abbrev pub seconds_in_ideal_epoch : ℕ
  seconds_in_ideal_epoch = 432000 * 400 / 1000

  abbrev pub ideal_epochs_per_year : f64.Float
  ideal_epochs_per_year = f64.div seconds_in_year (f64.of_nat seconds_in_ideal_epoch)

  unfoldable pub estimate_yields : InflationApyCalculator → ℕ → ℕ → f64.Float × f64.Float
  estimate_yields c credits commission =
      let one = f64.of_nat 1 in
      let commission_share = f64.div (f64.of_nat (max 0 (min commission 100))) (f64.of_nat 100) in
      let staker_share = f64.sub one commission_share in
      let actual_epochs_per_year = f64.div seconds_in_year (f64.of_nat c.duration) in
      let cluster_rewards_per_year = f64.mul (f64.of_nat c.supply) c.inflation in
      let cluster_rewards_per_ideal_epoch =
        f64.div cluster_rewards_per_year ideal_epochs_per_year in
      let stake_fraction_per_epoch =
        f64.div
          (f64.mul (f64.mul staker_share cluster_rewards_per_ideal_epoch) (f64.of_nat credits))
          (f64.of_nat c.total_weighted_credits) in
      if (c.total_weighted_credits == 0) || (c.duration == 0)
      then (f64.of_nat 0, f64.of_nat 0)
      else (
        f64.mul stake_fraction_per_epoch actual_epochs_per_year,
        f64.sub (f64.powf (f64.add one stake_fraction_per_epoch) actual_epochs_per_year) one,
      )

  -- A row of the query, one per epoch, which is no shorter than 0 seconds. The weighted credits are a
  -- `Decimal`, below 2^96, so that they fit a u128.
  pub record ApyInfoRow : Type 0 where
    pub epoch : Decimal
    pub duration : ℕ
    pub supply : Decimal
    pub inflation : f64.Float
    pub total_weighted_credits : Decimal

  module _ {E : Type 0} (out_of_range : E) where
    unfoldable pub insert_calculators :
        List ApyInfoRow
        → HashMap ℕ InflationApyCalculator
        → Result E (HashMap ℕ InflationApyCalculator)
    insert_calculators [] result = ok result
    insert_calculators (row ∷ rows) result =
        and_then (or_error out_of_range (to_u64 row.epoch)) (λ epoch.
          and_then (or_error out_of_range (to_u64 row.supply)) (λ supply. insert_calculators rows (
            insert ℕ_discrete epoch
              (record {
                supply = supply;
                duration = row.duration;
                inflation = row.inflation;
                total_weighted_credits = row.total_weighted_credits;
              })
              result)))

    unfoldable pub get_apy_calculators :
        Result E (List ApyInfoRow) → Result E (HashMap ℕ InflationApyCalculator)
    unfolding insert_calculators
    get_apy_calculators apy_info_rows = and_then apy_info_rows (λ rows. insert_calculators rows [])
