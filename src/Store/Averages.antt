-- ===== src/Store/Averages.antt =====
-- store/src/utils.rs: `average`, `update_validators_with_avgs` and `update_with_warnings`.
pub mod Warnings
use delegation_strategy.Prelude.{
  ℕ, Bool, Option, none, some, List, [], ◌∷◌, ◌++◌, map, keep, filter_map, length, maximum, leb,
  ltb, not, ◌&&◌, or_default, if◌then◌else◌, F64,
}
use delegation_strategy.Store.Dto.Validators.{
  ValidatorEpochStats, ValidatorRecord, ValidatorWarning,
}
use delegation_strategy.Store.Ranks.{Validators}

-- `(first..=last).contains(&epoch)`
abbrev pub in_range : ℕ → ℕ → ℕ → Bool
in_range first last epoch = leb first epoch && leb epoch last

-- The values of a map, each replaced (`values_mut`).
abbrev pub map_values :
    {Float : Type 0}
    → (ValidatorRecord Float → ValidatorRecord Float)
    → Validators Float
    → Validators Float
map_values f = map λ e. (e.0, f e.1)

module _ (f64 : F64) where
  abbrev pub sum_f64 : f64.Float → List f64.Float → f64.Float
  sum_f64 acc [] = acc
  sum_f64 acc (n ∷ ns) = sum_f64 (f64.add acc n) ns

  unfoldable pub average : List f64.Float → Option f64.Float
  average [] = none
  average (n ∷ ns) =
      let numbers = keep (λ x. not (f64.is_nan x)) (n ∷ ns) in
      some (f64.div (sum_f64 (f64.of_nat 0) numbers) (f64.of_nat (length numbers)))

  -- The statistics of the epochs `first..=last`.
  abbrev pub stats_within : ℕ → ℕ → ValidatorRecord f64.Float → List (ValidatorEpochStats f64.Float)
  stats_within first last v = keep (λ stat. in_range first last stat.epoch) v.epoch_stats

  unfoldable pub with_avgs : ℕ → ℕ → ValidatorRecord f64.Float → ValidatorRecord f64.Float
  unfolding average
  with_avgs first last v = record v {
    avg_apy = average (filter_map (λ s. s.apy) (stats_within first last v));
    avg_uptime_pct = average (filter_map (λ s. s.uptime_pct) (stats_within first last v));
  }

  unfoldable pub update_validators_with_avgs : ℕ → ℕ → Validators f64.Float → Validators f64.Float
  unfolding with_avgs
  update_validators_with_avgs first last = map_values (with_avgs first last)

  -- `0.9`, as the nearest float.
  abbrev low_uptime_limit : f64.Float
  low_uptime_limit = f64.div (f64.of_nat 9) (f64.of_nat 10)

  abbrev pub has_low_uptime : ValidatorRecord f64.Float → Bool
  has_low_uptime v = f64.lt (or_default (f64.of_nat 0) v.avg_uptime_pct) low_uptime_limit

  -- The fold that takes the largest effective commission; a missing one counts as 0.
  abbrev pub max_effective_commission : ℕ → ℕ → ValidatorRecord f64.Float → ℕ
  max_effective_commission first last v =
      maximum (map (λ s. or_default 0 s.commission_effective) (stats_within first last v))

  -- `warnings.push(w)` under a condition.
  abbrev pub push_if : Bool → ValidatorWarning → List ValidatorWarning → List ValidatorWarning
  push_if c w ws = if c then ws ++ w ∷ [] else ws

  unfoldable pub warnings_of : ℕ → ℕ → ValidatorRecord f64.Float → List ValidatorWarning
  warnings_of first last v =
      let after_superminority = push_if v.superminority ValidatorWarning.superminority v.warnings in
      let after_uptime =
        push_if (has_low_uptime v) ValidatorWarning.low_uptime after_superminority in
      push_if (ltb 10 (max_effective_commission first last v)) ValidatorWarning.high_commission
        after_uptime

  unfoldable pub update_with_warnings : ℕ → ℕ → Validators f64.Float → Validators f64.Float
  unfolding warnings_of
  update_with_warnings first last = map_values λ v. record v { warnings = warnings_of first last v }
