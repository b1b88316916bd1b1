-- ===== src/Tests/Data.antt =====
-- The constants that the tests share. Natural numbers stand for floats.
use delegation_strategy.Prelude.{
  pos, ℕ, ◌+◌, ◌-◌, ◌*◌, ◌/◌, ◌^◌, String, false, none, some, List, [], ◌∷◌, F64, ltb,
}
use delegation_strategy.Store.Dto.Rows.{Validator}
use delegation_strategy.Store.Dto.Validators.{ValidatorEpochStats, ValidatorRecord}
use delegation_strategy.Store.Ranks.{Validators}

abbrev pub nat_f64 : F64
nat_f64 = record {
  Float = ℕ;
  of_nat = λ n. n;
  add = λ a b. a + b;
  sub = λ a b. a - b;
  mul = λ a b. a * b;
  div = λ a b. a / b;
  powf = λ a b. a ^ b;
  powi = λ a n. a ^ n;
  lt = ltb;
  is_nan = λ _. false;
  round_u64 = λ a. a;
}

-- Statistics of an epoch with a stake, credits and an effective commission.
abbrev pub stats_with : ℕ → ℕ → ℕ → ℕ → ValidatorEpochStats ℕ
stats_with epoch stake credits commission = record {
  epoch = epoch;
  epoch_start_at = none;
  epoch_end_at = none;
  commission_max_observed = none;
  commission_min_observed = none;
  commission_advertised = none;
  commission_effective = some commission;
  version = none;
  mev_commission_bps = none;
  priority_commission_bps = none;
  dc_asn = none;
  dc_aso = none;
  dc_city = none;
  dc_country = none;
  activated_stake = stake;
  marinade_stake = 0;
  foundation_stake = 0;
  marinade_native_stake = 0;
  institutional_stake = 0;
  self_stake = 0;
  superminority = false;
  stake_to_become_superminority = 0;
  credits = credits;
  leader_slots = 0;
  blocks_produced = 0;
  skip_rate = 0;
  uptime_pct = none;
  uptime = none;
  downtime = none;
  apr = none;
  apy = some credits;
  score = some stake;
  rank_score = none;
  rank_activated_stake = none;
  rank_apy = none;
}

-- A validator with a vote account, an activated stake and statistics.
abbrev pub validator_with : String → ℕ → List (ValidatorEpochStats ℕ) → ValidatorRecord ℕ
validator_with vote_account stake stats = record {
  identity = vote_account;
  vote_account = vote_account;
  start_epoch = 0;
  start_date = none;
  info_name = none;
  info_url = none;
  info_keybase = none;
  info_icon_url = none;
  node_ip = none;
  dc_coordinates_lat = none;
  dc_coordinates_lon = none;
  dc_continent = none;
  dc_country_iso = none;
  dc_country = none;
  dc_city = none;
  dc_full_city = none;
  dc_asn = none;
  dc_aso = none;
  dcc_full_city = none;
  dcc_asn = none;
  dcc_aso = none;
  dcc_country = none;
  commission_max_observed = none;
  commission_min_observed = none;
  commission_advertised = none;
  commission_effective = none;
  commission_aggregated = none;
  rugged_commission_occurrences = 0;
  rugged_commission = false;
  rugged_commission_info = [];
  version = none;
  activated_stake = stake;
  marinade_stake = 0;
  foundation_stake = 0;
  marinade_native_stake = 0;
  institutional_stake = 0;
  self_stake = 0;
  superminority = false;
  credits = 0;
  score = none;
  warnings = [];
  epoch_stats = stats;
  epochs_count = 0;
  has_last_epoch_stats = false;
  avg_uptime_pct = none;
  avg_apy = none;
  unique_delegators = none;
  avg_take_rate = none;
  incidents = [];
}

-- Three validators over the epochs 6 and 7.
abbrev pub alice : ValidatorRecord ℕ
alice = validator_with "alice" 50 (stats_with 7 50 3 5 ∷ stats_with 6 40 3 12 ∷ [])

abbrev pub bob : ValidatorRecord ℕ
bob = validator_with "bob" 70 (stats_with 7 70 0 5 ∷ stats_with 6 60 2 5 ∷ [])

abbrev pub carol : ValidatorRecord ℕ
carol = validator_with "carol" 20 (stats_with 7 0 0 0 ∷ stats_with 6 20 1 0 ∷ [])

abbrev pub validators : Validators ℕ
validators = ("alice", alice) ∷ ("bob", bob) ∷ ("carol", carol) ∷ []

-- A row of the table of validators.
abbrev pub table_row : String → ℕ → ℕ → Validator ℕ
table_row vote_account epoch stake = record {
  identity = vote_account;
  vote_account = vote_account;
  epoch = epoch;
  info_name = none;
  info_url = none;
  info_keybase = none;
  info_icon_url = none;
  node_ip = none;
  dc_coordinates_lat = none;
  dc_coordinates_lon = none;
  dc_continent = some "EU";
  dc_country_iso = none;
  dc_country = some vote_account;
  dc_city = none;
  dc_asn = some (pos 7);
  dc_aso = none;
  commission_max_observed = none;
  commission_min_observed = none;
  commission_advertised = none;
  commission_effective = none;
  version = none;
  activated_stake = stake;
  marinade_stake = 0;
  foundation_stake = 0;
  marinade_native_stake = 0;
  institutional_stake = 0;
  self_stake = 0;
  superminority = false;
  stake_to_become_superminority = 0;
  credits = 0;
  leader_slots = 0;
  blocks_produced = 0;
  skip_rate = 0;
  uptime_pct = none;
  uptime = none;
  downtime = none;
  updated_at = none;
}
