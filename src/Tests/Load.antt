-- ===== src/Tests/Load.antt =====
-- The loading of the validators at concrete inputs. Natural numbers stand for floats.
use delegation_strategy.Prelude.{
  ℤ, ℕ, ◌+◌, ◌-◌, ◌≡◌, refl, String, Option, none, some, false, List, [], ◌∷◌, map, min, get, All,
  string_discrete, update, suc, zero, pos, negsuc, arith, HashMap, ◌<◌,
}
use delegation_strategy.Store.Query.{Result, ok, map_rows}
use delegation_strategy.Store.Dto.Rows.{Validator}
use delegation_strategy.Store.Dto.Records.{DcConcentrationStats, RuggerRecord}
use delegation_strategy.Store.Dto.Validators.{IncidentRecord}
use delegation_strategy.Store.Ranks.{Validators}
use delegation_strategy.Store.Load.{get_last_epoch}
use delegation_strategy.Store.Load.Concentrations.{load_dc_concentration_stats}
use delegation_strategy.Store.Load.Concentrations.Sums.{
  down_to, IsGiven, load_dc_concentration_stats-IsGiven,
}
use delegation_strategy.Store.Load.Yields.{InflationApyCalculator, ApyInfoRow, get_apy_calculators}
use delegation_strategy.Store.Load.Grouped.{
  load_ruggers, RuggerRow, IncidentRow, UptimeRow, VersionRow, CommissionRow, incident_of,
  uptime_of, version_of, commission_of, load_incidents, load_uptimes, load_versions,
  load_commissions,
}
use delegation_strategy.Store.Load.Grouped.Listed.{IsGrouping, loaders-IsGrouping}
use delegation_strategy.Store.Load.Rows.{ValidatorRow}
use delegation_strategy.Store.Load.Loop.{add_rows}
use delegation_strategy.Store.Load.Loop.Steps.{rows_of}
use delegation_strategy.Store.Load.Loop.Entries.{IsEntry, add_rows-IsEntry}
use delegation_strategy.Store.Load.Scores.{update_validators_with_scores}
use delegation_strategy.Store.Load.Scores.Written.{IsScored, update_validators_with_scores-IsScored}
use delegation_strategy.Store.Load.Validators.{
  first_entry, attach, Answers, Clock, computed, load_validators,
}
use delegation_strategy.Store.Load.Fits.{StakesFit, last_epoch_in}
use delegation_strategy.Store.Load.Loop.Totality.{RowFits}
use delegation_strategy.Store.Load.Validators.Totality.{load_validators-total}
use delegation_strategy.Tests.Data.{nat_f64, table_row, stats_with, validator_with}

abbrev show : ℤ → String
show n = "n"

abbrev table : Result String (List (Validator ℕ))
table = ok (table_row "a" 4 30 ∷ table_row "b" 4 50 ∷ [])

abbrev table_at : ℕ → Result String (List (Validator ℕ))
table_at epoch = table

last_is_4 : get_last_epoch table ≡ ok (some 4)
unfolding get_last_epoch
last_is_4 = refl

abbrev one_epoch : DcConcentrationStats ℕ
one_epoch = record {
  epoch = 4;
  total_activated_stake = 80;
  dc_concentration_by_aso = ("Unknown", 1) ∷ [];
  dc_stake_by_aso = ("Unknown", 80) ∷ [];
  dc_concentration_by_asn = ("n", 1) ∷ [];
  dc_stake_by_asn = ("n", 80) ∷ [];
  dc_concentration_by_city = ("EU/a/", 0) ∷ ("EU/b/", 0) ∷ [];
  dc_stake_by_city = ("EU/a/", 30) ∷ ("EU/b/", 50) ∷ [];
  dc_concentration_by_country = ("a", 0) ∷ ("b", 0) ∷ [];
  dc_stake_by_country = ("a", 30) ∷ ("b", 50) ∷ [];
}

stats_loaded :
    load_dc_concentration_stats nat_f64 show "range" table table_at 1 ≡ ok (one_epoch ∷ [])
unfolding load_dc_concentration_stats string_discrete update
stats_loaded = refl

load_dc_concentration_stats-IsGiven_example :
    (map (λ c. c.epoch) (one_epoch ∷ []) ≡ down_to (4 + 1 - min 1 4) (min 1 4))
    × All (IsGiven nat_f64 show "range" table_at) (one_epoch ∷ [])
load_dc_concentration_stats-IsGiven_example =
    load_dc_concentration_stats-IsGiven nat_f64 show "range" table_at table 1 4 (one_epoch ∷ [])
      last_is_4 (omega arith) stats_loaded

abbrev incidents : List IncidentRow
incidents =
    record { vote_account = "a"; epoch = 3; start_at = 1; end_at = 2; downtime_seconds = pos 60 }
    ∷ record {
      vote_account = "a";
      epoch = 4;
      start_at = 3;
      end_at = 3;
      downtime_seconds = negsuc 0;
    }
    ∷ []

abbrev uptimes : List UptimeRow
uptimes =
    record {
      vote_account = "a";
      status = "UP";
      epoch = 3;
      epoch_start = none;
      epoch_end = some 8;
      start_at = 1;
      end_at = 2;
    }
    ∷ []

abbrev versions : List VersionRow
versions = record { vote_account = "b"; version = some "1.18"; epoch = 3; created_at = 1 } ∷ []

abbrev commissions : List CommissionRow
commissions =
    record {
      vote_account = "b";
      commission = pos 5;
      epoch = 3;
      epoch_start = none;
      epoch_end = none;
      epoch_slot = 10;
      created_at = 1;
    }
    ∷ []

abbrev range_error : String
range_error = "range"

loaders-IsGrouping_example :
    IsGrouping
      (λ r. r.vote_account)
      (incident_of range_error)
      incidents
      (map_rows (incident_of range_error) incidents)
      (load_incidents range_error (ok incidents))
    × IsGrouping
        (λ r. r.vote_account)
        (uptime_of range_error (λ r. 9) (λ r. 9))
        uptimes
        (map_rows (uptime_of range_error (λ r. 9) (λ r. 9)) uptimes)
        (load_uptimes range_error (λ r. 9) (λ r. 9) (ok uptimes))
    × IsGrouping
        (λ r. r.vote_account)
        (version_of range_error)
        versions
        (map_rows (version_of range_error) versions)
        (load_versions range_error (ok versions))
    × IsGrouping
        (λ r. r.vote_account)
        (commission_of range_error (λ r. 9) (λ r. 9))
        commissions
        (map_rows (commission_of range_error (λ r. 9) (λ r. 9)) commissions)
        (load_commissions range_error (λ r. 9) (λ r. 9) (ok commissions))
loaders-IsGrouping_example =
    loaders-IsGrouping range_error incidents uptimes versions commissions (λ r. 9) (λ r. 9) (λ r. 9)
      (λ r. 9)

abbrev query_row : String → ℕ → ValidatorRow ℕ
query_row vote_account epoch = record {
  identity = "identity";
  vote_account = vote_account;
  epoch = epoch;
  epoch_start = none;
  epoch_end = none;
  starting_epoch = 2;
  starting_epoch_date = none;
  info_name = none;
  info_url = none;
  info_keybase = none;
  info_icon_url = none;
  node_ip = none;
  dc_coordinates_lat = none;
  dc_coordinates_lon = none;
  dc_continent = none;
  dc_country_iso = none;
  dc_country = none;
  dc_city = none;
  dc_asn = none;
  dc_aso = none;
  dc_full_city = none;
  commission_max_observed = none;
  commission_min_observed = none;
  commission_advertised = some (pos 5);
  commission_effective = none;
  version = none;
  mev_commission_bps = none;
  priority_commission_bps = none;
  activated_stake = 30;
  marinade_stake = 0;
  foundation_stake = 0;
  marinade_native_stake = 0;
  institutional_stake = 0;
  self_stake = 0;
  superminority = false;
  stake_to_become_superminority = 0;
  credits = 100;
  leader_slots = 4;
  blocks_produced = 4;
  skip_rate = 0;
  uptime_pct = none;
  uptime = none;
  downtime = none;
  first_epoch = 2;
}

abbrev query_rows : List (ValidatorRow ℕ)
query_rows = query_row "a" 4 ∷ query_row "b" 4 ∷ query_row "a" 3 ∷ []

-- What a result holds, and an empty map if it holds nothing.
abbrev held : Option (Validators ℕ) → Validators ℕ
held none = []
held (some records) = records

abbrev loaded : Option (Validators ℕ)
loaded = add_rows nat_f64 show (λ r. 9) 4 [] [] none query_rows []

loaded-some : loaded ≡ some (held loaded)
unfolding add_rows string_discrete update get
loaded-some = refl

add_rows-IsEntry_example :
    IsEntry nat_f64 show
      (λ r. 9)
      4
      []
      []
      none
      "a"
      (rows_of nat_f64 show (λ r. 9) 4 [] [] none "a" query_rows)
      (get string_discrete "a" (held loaded))
add_rows-IsEntry_example =
    add_rows-IsEntry nat_f64 show (λ r. 9) 4 [] [] none "a" query_rows (held loaded) loaded-some

-- A service that has scores of the epoch 3 only.
abbrev service : ℕ → Option (List (String × ℕ))
service (suc (suc (suc zero))) = some (("a", 77) ∷ [])
service n = none

abbrev two_validators : Validators ℕ
two_validators =
    ("a", validator_with "a" 30 (stats_with 4 30 1 5 ∷ stats_with 3 20 1 5 ∷ []))
    ∷ ("b", validator_with "b" 50 (stats_with 4 50 1 5 ∷ []))
    ∷ []

update_validators_with_scores-IsScored_example :
    IsScored service 2 4 two_validators (update_validators_with_scores service 2 4 two_validators)
update_validators_with_scores-IsScored_example =
    update_validators_with_scores-IsScored service 2 4 two_validators

abbrev rugger_rows : List RuggerRow
rugger_rows =
    record {
      vote_account = "a";
      events_count = pos 2;
      epochs = 2 ∷ 3 ∷ [];
      commission_observed_values = pos 100 ∷ pos 90 ∷ [];
      commission_min_observed_values = pos 5 ∷ pos 7 ∷ [];
    }
    ∷ []

abbrev apy_infos : List (ApyInfoRow nat_f64)
apy_infos =
    record { epoch = 4; duration = 100; supply = 1000; inflation = 1; total_weighted_credits = 50 }
    ∷ []

abbrev fitting_incidents : List IncidentRow
fitting_incidents =
    record { vote_account = "a"; epoch = 3; start_at = 1; end_at = 2; downtime_seconds = pos 60 }
    ∷ []

abbrev db_answers : Answers nat_f64 String
db_answers = record {
  validators = table;
  ruggers = ok rugger_rows;
  apy_infos = ok apy_infos;
  validators_at = table_at;
  rows = ok query_rows;
  validators_later = table;
  incidents = ok fitting_incidents;
}

abbrev clock : Clock nat_f64
clock = record { at_row = λ r. 9; at_rugger = λ r. 9 }

stakes_fit : (epoch : ℕ) → StakesFit nat_f64 range_error (table_at epoch)
stakes_fit epoch =
    (table_row "a" 4 30 ∷ table_row "b" 4 50 ∷ [], refl, (omega arith, (omega arith, tt)))

row_fits :
    (vote_account : String) (epoch : ℕ) → epoch < 5 → RowFits ℕ (query_row vote_account epoch)
row_fits vote_account epoch h = record {
  epoch = omega arith;
  first_epoch = omega arith;
  starting_epoch = omega arith;
  credits = omega arith;
  leader_slots = omega arith;
  blocks_produced = omega arith;
  commission_max_observed = tt;
  commission_min_observed = tt;
  commission_advertised = omega arith;
  commission_effective = tt;
  uptime = tt;
  downtime = tt;
}

rows_fit : All (RowFits ℕ) query_rows
rows_fit = (
  row_fits "a" 4 (omega arith),
  (row_fits "b" 4 (omega arith), (row_fits "a" 3 (omega arith), tt)),
)

load_validators-total_example :
    (ruggers : HashMap String RuggerRecord) × (calculators : HashMap ℕ
      (InflationApyCalculator nat_f64))
    × (stats : List (DcConcentrationStats ℕ)) × (records : Validators ℕ) × (incidents : HashMap
        String
        (List IncidentRecord))
    × (finished : Validators ℕ) × (load_ruggers range_error (λ r. 9) (ok rugger_rows) ≡ ok ruggers)
    × (get_apy_calculators nat_f64 range_error (ok apy_infos) ≡ ok calculators)
    × (load_dc_concentration_stats nat_f64 show range_error table table_at 1 ≡ ok stats)
    × (add_rows nat_f64 show
          (λ r. 9)
          (last_epoch_in (table_row "a" 4 30 ∷ table_row "b" 4 50 ∷ []))
          ruggers
          calculators
          (first_entry stats)
          query_rows
          []
        ≡ some records)
    × (load_incidents range_error (ok fitting_incidents) ≡ ok incidents)
    × (computed nat_f64 range_error "joined" "panicked" show clock db_answers service 80 10 [] []
          (last_epoch_in (table_row "a" 4 30 ∷ table_row "b" 4 50 ∷ []))
          records
        ≡ ok finished)
    × (load_validators nat_f64 range_error "joined" "panicked" show clock db_answers service 80 10
          [] []
        ≡ ok (attach nat_f64 [] incidents [] finished))
load_validators-total_example =
    load_validators-total nat_f64 range_error "joined" "panicked" show clock db_answers service 80
      10 [] [] (table_row "a" 4 30 ∷ table_row "b" 4 50 ∷ [])
      (table_row "a" 4 30 ∷ table_row "b" 4 50 ∷ []) rugger_rows apy_infos query_rows
      fitting_incidents refl refl refl ((tt, omega arith, omega arith), tt) refl
      ((omega arith, omega arith), tt) stakes_fit refl rows_fit refl ((omega arith, tt), tt)
