-- ===== src/Store/Load/Loop.antt =====
-- store/src/utils.rs: what each row adds to its validator in the loop of `load_validators`.
pub mod Steps
pub mod Totality
pub mod Entries
use delegation_strategy.Prelude.{
  ℤ, ℕ, String, true, Option, none, some, List, [], ◌∷◌, ◌++◌, HashMap, get, update, or_default,
  ◌==◌, if◌then◌else◌, ◌>>=◌, string_discrete, F64,
}
use delegation_strategy.Store.Dto.Scalars.{DateTime}
use delegation_strategy.Store.Dto.Validators.{ValidatorEpochStats, ValidatorRecord, RugInfo}
use delegation_strategy.Store.Dto.Records.{RuggerRecord, DcConcentrationStats}
use delegation_strategy.Store.Ranks.{Validators}
use delegation_strategy.Store.Load.Yields.{InflationApyCalculator}
use delegation_strategy.Store.Load.Rows.{
  ValidatorRow, RowNumbers, numbers_of, rug_infos, yields_of, new_record,
}

module _ (f64 : F64) (show : ℤ → String) (now : ValidatorRow f64.Float → DateTime) (last_epoch : ℕ)
    (ruggers : HashMap String RuggerRecord)
    (apy_calculators : HashMap ℕ (InflationApyCalculator f64))
    (concentrations : Option (DcConcentrationStats f64.Float)) where
  unfoldable pub epoch_stats_of :
      ValidatorRow f64.Float → RowNumbers → ValidatorEpochStats f64.Float
  epoch_stats_of row n = record {
    epoch = n.epoch;
    epoch_start_at = some (or_default (now row) row.epoch_start);
    epoch_end_at = row.epoch_end;
    commission_max_observed = n.commission_max_observed;
    commission_min_observed = n.commission_min_observed;
    commission_advertised = n.commission_advertised;
    commission_effective = n.commission_effective;
    version = row.version;
    mev_commission_bps = row.mev_commission_bps;
    priority_commission_bps = row.priority_commission_bps;
    dc_asn = row.dc_asn;
    dc_aso = row.dc_aso;
    dc_city = row.dc_city;
    dc_country = row.dc_country;
    activated_stake = row.activated_stake;
    marinade_stake = row.marinade_stake;
    foundation_stake = row.foundation_stake;
    marinade_native_stake = row.marinade_native_stake;
    institutional_stake = row.institutional_stake;
    self_stake = row.self_stake;
    superminority = row.superminority;
    stake_to_become_superminority = row.stake_to_become_superminority;
    credits = n.credits;
    leader_slots = n.leader_slots;
    blocks_produced = n.blocks_produced;
    skip_rate = row.skip_rate;
    uptime_pct = row.uptime_pct;
    uptime = n.uptime;
    downtime = n.downtime;
    apr = (yields_of f64 show now last_epoch ruggers apy_calculators concentrations n).0;
    apy = (yields_of f64 show now last_epoch ruggers apy_calculators concentrations n).1;
    score = none;
    rank_score = none;
    rank_activated_stake = none;
    rank_apy = none;
  }

  -- The rug information of a validator, none if it is no rugger.
  abbrev pub rug_of : Option RuggerRecord → Option (Option (ℕ × List RugInfo))
  rug_of none = some none
  rug_of (some r) = rug_infos r.epochs r.observed_commissions r.min_commissions >>= λ infos.
      some (some (r.occurrences, infos))

  abbrev pub with_rug :
      Option (ℕ × List RugInfo) → ValidatorRecord f64.Float → ValidatorRecord f64.Float
  with_rug none v = v
  with_rug (some rug) v = record v {
    rugged_commission = true;
    rugged_commission_occurrences = rug.0;
    rugged_commission_info = rug.1;
  }

  -- What follows the entry of the record, in the order of the code.
  unfoldable pub extend_record :
      ValidatorRow f64.Float
      → RowNumbers
      → Option (ℕ × List RugInfo)
      → ValidatorRecord f64.Float
      → ValidatorRecord f64.Float
  unfolding epoch_stats_of
  extend_record row n rug v =
      let rugged = with_rug rug v in
      record rugged {
        has_last_epoch_stats = if last_epoch == n.epoch then true else rugged.has_last_epoch_stats;
        epoch_stats = rugged.epoch_stats ++ epoch_stats_of row n ∷ [];
      }

  unfoldable pub add_row :
      ValidatorRow f64.Float → Validators f64.Float → Option (Validators f64.Float)
  unfolding numbers_of new_record extend_record
  add_row row records = do
    n ← numbers_of row
    rug ← rug_of (get string_discrete row.vote_account ruggers)
    some (
        update string_discrete row.vote_account
          (new_record f64 show now last_epoch ruggers apy_calculators concentrations row n)
          (extend_record row n rug) records)

  unfoldable pub add_rows :
      List (ValidatorRow f64.Float) → Validators f64.Float → Option (Validators f64.Float)
  unfolding add_row
  add_rows [] records = some records
  add_rows (row ∷ rows) records = add_row row records >>= add_rows rows
