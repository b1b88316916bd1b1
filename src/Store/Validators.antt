-- ===== src/Store/Validators.antt =====
-- store/src/validators.rs: `store_validators`, over the upsert of Store/Upsert, and in store/src/dto.rs
-- `Validator::new_from_snapshot`. A row of the table has the fields of the record.
pub mod Stored
pub mod ColumnWise
pub mod Described
use delegation_strategy.Prelude.{
  ℕ, String, Option, none, some, List, [], ◌∷◌, HashMap, insert, map_option, or_else, ℤ, to_i32,
  ◌≡◌, refl, string_discrete,
}
use delegation_strategy.Store.Query.{Result}
use delegation_strategy.Store.Dto.Scalars.{DateTime}
use delegation_strategy.Store.Dto.Rows.{Validator}
use delegation_strategy.Store.Upsert.{Upsert, Columns, upsert}
use delegation_strategy.Collect.Validators.{ValidatorDataCenter, ValidatorSnapshot, Snapshot}

-- `unwrap_or_default`
abbrev pub data_center_or_none :
    {Float : Type 0} → Option (ValidatorDataCenter Float) → ValidatorDataCenter Float
data_center_or_none none = record {
  coordinates = none;
  continent = none;
  country_iso = none;
  country = none;
  city = none;
  asn = none;
  aso = none;
}
data_center_or_none (some d) = d

-- The pair of coordinates is taken as a latitude and a longitude here.
unfoldable pub new_from_snapshot : {Float : Type 0} → ValidatorSnapshot Float → ℕ → Validator Float
unfolding to_i32
new_from_snapshot v epoch =
    let d = data_center_or_none v.data_center in
    record {
      identity = v.identity;
      vote_account = v.vote_account;
      epoch = epoch;
      info_name = v.info_name;
      info_url = v.info_url;
      info_keybase = v.info_keybase;
      info_icon_url = v.info_icon_url;
      node_ip = v.node_ip;
      dc_coordinates_lat = map_option (λ c. c.0) d.coordinates;
      dc_coordinates_lon = map_option (λ c. c.1) d.coordinates;
      dc_continent = d.continent;
      dc_country_iso = d.country_iso;
      dc_country = d.country;
      dc_city = d.city;
      dc_asn = map_option to_i32 d.asn;
      dc_aso = d.aso;
      commission_max_observed = none;
      commission_min_observed = none;
      commission_advertised = some v.performance.commission;
      commission_effective = none;
      version = v.performance.version;
      activated_stake = v.activated_stake;
      marinade_stake = v.marinade_stake;
      foundation_stake = v.foundation_stake;
      marinade_native_stake = v.marinade_native_stake;
      institutional_stake = v.institutional_stake;
      self_stake = v.self_stake;
      superminority = v.superminority;
      stake_to_become_superminority = v.stake_to_become_superminority;
      credits = v.performance.credits;
      leader_slots = v.performance.leader_slots;
      blocks_produced = v.performance.blocks_produced;
      skip_rate = v.performance.skip_rate;
      uptime_pct = none;
      uptime = none;
      downtime = none;
      updated_at = none;
    }

or_else-twice : {A : Type 0} (a b : Option A) → or_else a (or_else a b) ≡ or_else a b
or_else-twice none b = refl
or_else-twice (some x) b = refl

-- UPDATE, whose values give the longitude for `dc_coordinates_lat` and the latitude for
-- `dc_coordinates_lon`, as those of INSERT do. The observed commissions, the effective one and the
-- uptimes stay; a version stays where the snapshot has none.
abbrev pub revised :
    {Float : Type 0} → DateTime → Validator Float → Validator Float → Validator Float
revised created_at r v = record r {
  identity = v.identity;
  vote_account = v.vote_account;
  epoch = v.epoch;
  info_name = v.info_name;
  info_url = v.info_url;
  info_keybase = v.info_keybase;
  info_icon_url = v.info_icon_url;
  node_ip = v.node_ip;
  dc_coordinates_lat = v.dc_coordinates_lon;
  dc_coordinates_lon = v.dc_coordinates_lat;
  dc_continent = v.dc_continent;
  dc_country_iso = v.dc_country_iso;
  dc_country = v.dc_country;
  dc_city = v.dc_city;
  dc_asn = v.dc_asn;
  dc_aso = v.dc_aso;
  commission_advertised = v.commission_advertised;
  version = or_else v.version r.version;
  activated_stake = v.activated_stake;
  marinade_stake = v.marinade_stake;
  foundation_stake = v.foundation_stake;
  marinade_native_stake = v.marinade_native_stake;
  institutional_stake = v.institutional_stake;
  self_stake = v.self_stake;
  superminority = v.superminority;
  stake_to_become_superminority = v.stake_to_become_superminority;
  credits = v.credits;
  leader_slots = v.leader_slots;
  blocks_produced = v.blocks_produced;
  skip_rate = v.skip_rate;
  updated_at = some created_at;
}

abbrev pub inserted_validator : {Float : Type 0} → DateTime → Validator Float → Validator Float
inserted_validator created_at v = record v {
  dc_coordinates_lat = v.dc_coordinates_lon;
  dc_coordinates_lon = v.dc_coordinates_lat;
  updated_at = some created_at;
}

pub revised-twice :
    {Float : Type 0} (created_at : DateTime) (r v : Validator Float)
    → revised created_at (revised created_at r v) v ≡ revised created_at r v
revised-twice created_at r v = rw (or_else-twice v.version r.version) refl

abbrev pub validator_columns :
    {Float : Type 0} → DateTime → Columns (Validator Float) (Validator Float)
validator_columns created_at = record {
  row_account = λ r. r.vote_account;
  row_epoch = λ r. r.epoch;
  vote_account = λ v. v.vote_account;
  epoch = λ v. v.epoch;
  revise = revised created_at;
  inserted = inserted_validator created_at;
  revise_account = λ r v. refl;
  revise_epoch = λ r v. refl;
  revise_twice = revised-twice created_at;
}

-- `collect` into a map: of two validators with one vote account, the later one.
unfoldable pub validators_by_account :
    {Float : Type 0}
    → ℕ
    → List (ValidatorSnapshot Float)
    → HashMap String (Validator Float)
    → HashMap String (Validator Float)
validators_by_account epoch [] m = m
validators_by_account epoch (v ∷ vs) m =
    validators_by_account epoch vs
      (insert string_discrete v.vote_account (new_from_snapshot v epoch) m)

unfoldable pub validators_upsert : {Float : Type 0} → Snapshot Float → Upsert (Validator Float)
unfolding validators_by_account new_from_snapshot
validators_upsert s = record {
  epoch = s.epoch;
  validators = validators_by_account s.epoch s.validators [];
}

unfoldable pub store_validators :
    {Float E : Type 0}
    → (ℕ → Option E)
    → Snapshot Float
    → List (Validator Float)
    → List (Validator Float) × Result E Unit
unfolding validators_upsert
store_validators fails s rows =
    upsert (validator_columns s.created_at) (validators_upsert s) fails rows
