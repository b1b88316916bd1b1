-- ===== src/Store/Dto/Validators.antt =====
-- store/src/dto.rs: the validator records that the API serves. `Float` stands for `f64`.
use delegation_strategy.Prelude.{ℤ, ℕ, String, Bool, List, Option}
use delegation_strategy.Store.Dto.Scalars.{Decimal, DateTime}

pub record IncidentRecord : Type 0 where
  pub epoch : ℕ
  pub start_at : DateTime
  pub end_at : DateTime
  pub downtime_seconds : ℕ

pub record RugInfo : Type 0 where
  pub epoch : ℕ
  pub after : ℕ
  pub before : ℕ

pub data ValidatorWarning : Type 0 where
  high_commission superminority low_uptime : ValidatorWarning

pub record ValidatorEpochStats (Float : Type 0) : Type 0 where
  pub epoch : ℕ
  pub epoch_start_at : Option DateTime
  pub epoch_end_at : Option DateTime
  pub commission_max_observed : Option ℕ
  pub commission_min_observed : Option ℕ
  pub commission_advertised : Option ℕ
  pub commission_effective : Option ℕ
  pub version : Option String
  pub mev_commission_bps : Option ℤ
  pub priority_commission_bps : Option ℤ
  pub dc_asn : Option ℤ
  pub dc_aso : Option String
  pub dc_city : Option String
  pub dc_country : Option String
  pub activated_stake : Decimal
  pub marinade_stake : Decimal
  pub foundation_stake : Decimal
  pub marinade_native_stake : Decimal
  pub institutional_stake : Decimal
  pub self_stake : Decimal
  pub superminority : Bool
  pub stake_to_become_superminority : Decimal
  pub credits : ℕ
  pub leader_slots : ℕ
  pub blocks_produced : ℕ
  pub skip_rate : Float
  pub uptime_pct : Option Float
  pub uptime : Option ℕ
  pub downtime : Option ℕ
  pub apr : Option Float
  pub apy : Option Float
  pub score : Option Float
  pub rank_score : Option ℕ
  pub rank_activated_stake : Option ℕ
  pub rank_apy : Option ℕ

-- The commissions are i32 in the source; a record is only made of a row whose commissions convert to u8.
pub record ValidatorRecord (Float : Type 0) : Type 0 where
  pub identity : String
  pub vote_account : String
  pub start_epoch : ℕ
  pub start_date : Option DateTime
  pub info_name : Option String
  pub info_url : Option String
  pub info_keybase : Option String
  pub info_icon_url : Option String
  pub node_ip : Option String
  pub dc_coordinates_lat : Option Float
  pub dc_coordinates_lon : Option Float
  pub dc_continent : Option String
  pub dc_country_iso : Option String
  pub dc_country : Option String
  pub dc_city : Option String
  pub dc_full_city : Option String
  pub dc_asn : Option ℤ
  pub dc_aso : Option String
  pub dcc_full_city : Option Float
  pub dcc_asn : Option Float
  pub dcc_aso : Option Float
  pub dcc_country : Option Float
  pub commission_max_observed : Option ℕ
  pub commission_min_observed : Option ℕ
  pub commission_advertised : Option ℕ
  pub commission_effective : Option ℕ
  pub commission_aggregated : Option ℕ
  pub rugged_commission_occurrences : ℕ
  pub rugged_commission : Bool
  pub rugged_commission_info : List RugInfo
  pub version : Option String
  pub activated_stake : Decimal
  pub marinade_stake : Decimal
  pub foundation_stake : Decimal
  pub marinade_native_stake : Decimal
  pub institutional_stake : Decimal
  pub self_stake : Decimal
  pub superminority : Bool
  pub credits : ℕ
  pub score : Option Float
  pub warnings : List ValidatorWarning
  pub epoch_stats : List (ValidatorEpochStats Float)
  pub epochs_count : ℕ
  pub has_last_epoch_stats : Bool
  pub avg_uptime_pct : Option Float
  pub avg_apy : Option Float
  pub unique_delegators : Option ℕ
  pub avg_take_rate : Option Float
  pub incidents : List IncidentRecord

pub record ValidatorsAggregated (Float : Type 0) : Type 0 where
  pub epoch : ℕ
  pub epoch_start_date : Option DateTime
  pub avg_marinade_score : Option Float
  pub avg_apy : Option Float
