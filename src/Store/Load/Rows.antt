-- ===== src/Store/Load/Rows.antt =====
-- store/src/utils.rs: the loop of `load_validators` over the rows of its query, which runs in a task of
-- its own. A conversion that the code unwraps, and an index out of bounds, make it panic: `none`.
-- `now` is the clock as it is read for a row.
use delegation_strategy.Prelude.{
  ℤ, ℕ, String, Bool, false, Option, none, some, List, [], ◌∷◌, HashMap, get, or_default, add_u64,
  sub_u64, ◌>>=◌, string_discrete, ℕ_discrete, F64,
}
use delegation_strategy.Store.Dto.Scalars.{Decimal, DateTime}
use delegation_strategy.Store.Dto.Validators.{ValidatorRecord, RugInfo}
use delegation_strategy.Store.Dto.Records.{RuggerRecord, DcConcentrationStats}
use delegation_strategy.Store.Load.{to_u64, signed_to_u8, in_option}
use delegation_strategy.Store.Load.Yields.{InflationApyCalculator, estimate_yields}

-- The columns of the query.
pub record ValidatorRow (Float : Type 0) : Type 0 where
  pub identity : String
  pub vote_account : String
  pub epoch : Decimal
  pub epoch_start : Option DateTime
  pub epoch_end : Option DateTime
  pub starting_epoch : Decimal
  pub starting_epoch_date : Option DateTime
  pub info_name : Option String
  pub info_url : Option String
  pub info_keybase : Option String
  pub info_icon_url : Option String
  pub node_ip : Option String
  pub dc_coordinates_lat : Option Float
  pub dc_coordinates_lon : Option Float
  pub dc_continent : Option String
  pub dc_country_iso : Option String
  pub dc_country : Option String
  pub dc_city : Option String
  pub dc_asn : Option ℤ
  pub dc_aso : Option String
  pub dc_full_city : Option String
  pub commission_max_observed : Option ℤ
  pub commission_min_observed : Option ℤ
  pub commission_advertised : Option ℤ
  pub commission_effective : Option ℤ
  pub version : Option String
  pub mev_commission_bps : Option ℤ
  pub priority_commission_bps : Option ℤ
  pub activated_stake : Decimal
  pub marinade_stake : Decimal
  pub foundation_stake : Decimal
  pub marinade_native_stake : Decimal
  pub institutional_stake : Decimal
  pub self_stake : Decimal
  pub superminority : Bool
  pub stake_to_become_superminority : Decimal
  pub credits : Decimal
  pub leader_slots : Decimal
  pub blocks_produced : Decimal
  pub skip_rate : Float
  pub uptime_pct : Option Float
  pub uptime : Option Decimal
  pub downtime : Option Decimal
  pub first_epoch : Decimal

-- The numbers of a row that are converted.
pub record RowNumbers : Type 0 where
  pub epoch : ℕ
  pub first_epoch : ℕ
  pub starting_epoch : ℕ
  pub credits : ℕ
  pub leader_slots : ℕ
  pub blocks_produced : ℕ
  pub commission_max_observed : Option ℕ
  pub commission_min_observed : Option ℕ
  pub commission_advertised : Option ℕ
  pub commission_effective : Option ℕ
  pub uptime : Option ℕ
  pub downtime : Option ℕ

unfoldable pub numbers_of : {Float : Type 0} → ValidatorRow Float → Option RowNumbers
numbers_of row = do
  epoch ← to_u64 row.epoch
  first_epoch ← to_u64 row.first_epoch
  starting_epoch ← to_u64 row.starting_epoch
  credits ← to_u64 row.credits
  leader_slots ← to_u64 row.leader_slots
  blocks_produced ← to_u64 row.blocks_produced
  commission_max_observed ← in_option signed_to_u8 row.commission_max_observed
  commission_min_observed ← in_option signed_to_u8 row.commission_min_observed
  commission_advertised ← in_option signed_to_u8 row.commission_advertised
  commission_effective ← in_option signed_to_u8 row.commission_effective
  uptime ← in_option to_u64 row.uptime
  downtime ← in_option to_u64 row.downtime
  some (record {
    epoch = epoch;
    first_epoch = first_epoch;
    starting_epoch = starting_epoch;
    credits = credits;
    leader_slots = leader_slots;
    blocks_produced = blocks_produced;
    commission_max_observed = commission_max_observed;
    commission_min_observed = commission_min_observed;
    commission_advertised = commission_advertised;
    commission_effective = commission_effective;
    uptime = uptime;
    downtime = downtime;
  })

-- The entries of `epochs`, with those at the same index of the two other lists.
unfoldable pub rug_infos : List ℕ → List ℕ → List ℕ → Option (List RugInfo)
rug_infos [] observed mins = some []
rug_infos (e ∷ es) [] mins = none
rug_infos (e ∷ es) (o ∷ os) [] = none
rug_infos (e ∷ es) (o ∷ os) (m ∷ ms) =
    rug_infos es os ms >>= λ infos. some (record { epoch = e; after = o; before = m } ∷ infos)

-- `.as_ref().and_then(|c| c.….get(&key).cloned())`
abbrev pub concentration_at :
    {Float : Type 0}
    → (DcConcentrationStats Float → HashMap String Float)
    → String
    → Option (DcConcentrationStats Float)
    → Option Float
concentration_at field key none = none
concentration_at field key (some c) = get string_discrete key (field c)

module _ (f64 : F64) (show : ℤ → String) (now : ValidatorRow f64.Float → DateTime) (last_epoch : ℕ)
    (ruggers : HashMap String RuggerRecord)
    (apy_calculators : HashMap ℕ (InflationApyCalculator f64))
    (concentrations : Option (DcConcentrationStats f64.Float)) where
  abbrev pub yields_from :
      ℕ → Option ℕ → Option (InflationApyCalculator f64) → Option f64.Float × Option f64.Float
  yields_from credits commission none = (none, none)
  yields_from credits commission (some c) =
      let yields = estimate_yields f64 c credits (or_default 100 commission) in
      (some yields.0, some yields.1)

  abbrev pub yields_of : RowNumbers → Option f64.Float × Option f64.Float
  yields_of n =
      yields_from n.credits n.commission_effective (get ℕ_discrete n.epoch apy_calculators)

  abbrev pub shown_asn : Option ℤ → String
  shown_asn none = "Unknown"
  shown_asn (some asn) = show asn

  -- The commissions are those of the row, which add to it only after they are converted to u8.
  unfoldable pub new_record : ValidatorRow f64.Float → RowNumbers → ValidatorRecord f64.Float
  new_record row n = record {
    identity = row.identity;
    vote_account = row.vote_account;
    start_epoch = n.starting_epoch;
    start_date = row.starting_epoch_date;
    info_name = row.info_name;
    info_url = row.info_url;
    info_keybase = row.info_keybase;
    info_icon_url = row.info_icon_url;
    node_ip = row.node_ip;
    dc_coordinates_lat = row.dc_coordinates_lat;
    dc_coordinates_lon = row.dc_coordinates_lon;
    dc_continent = row.dc_continent;
    dc_country_iso = row.dc_country_iso;
    dc_country = row.dc_country;
    dc_city = row.dc_city;
    dc_full_city = row.dc_full_city;
    dc_asn = row.dc_asn;
    dc_aso = row.dc_aso;
    dcc_full_city =
        concentration_at (λ c. c.dc_concentration_by_city) (or_default "Unknown" row.dc_full_city)
          concentrations;
    dcc_asn =
        concentration_at (λ c. c.dc_concentration_by_asn) (shown_asn row.dc_asn) concentrations;
    dcc_aso =
        concentration_at (λ c. c.dc_concentration_by_aso) (or_default "Unknown" row.dc_aso)
          concentrations;
    dcc_country =
        concentration_at (λ c. c.dc_concentration_by_country) (or_default "Unknown" row.dc_country)
          concentrations;
    commission_max_observed = n.commission_max_observed;
    commission_min_observed = n.commission_min_observed;
    commission_advertised = n.commission_advertised;
    commission_effective = n.commission_effective;
    commission_aggregated = none;
    rugged_commission_occurrences = 0;
    rugged_commission = false;
    rugged_commission_info = [];
    version = row.version;
    activated_stake = row.activated_stake;
    marinade_stake = row.marinade_stake;
    foundation_stake = row.foundation_stake;
    marinade_native_stake = row.marinade_native_stake;
    institutional_stake = row.institutional_stake;
    self_stake = row.self_stake;
    superminority = row.superminority;
    credits = n.credits;
    score = none;
    warnings = [];
    epoch_stats = [];
    epochs_count = add_u64 (sub_u64 n.epoch n.first_epoch) 1;
    has_last_epoch_stats = false;
    avg_uptime_pct = none;
    avg_apy = none;
    unique_delegators = none;
    avg_take_rate = none;
    incidents = [];
  }
