-- ===== src/Store/Dto/Rows.antt =====
-- store/src/dto.rs: the rows that are written to the tables, as Rust structs. `Float` stands for `f64`.
use delegation_strategy.Prelude.{ℕ, ℤ, String, Bool, Option}
use delegation_strategy.Store.Dto.Scalars.{Decimal, DateTime}

pub record ValidatorJitoMevInfo : Type 0 where
  pub vote_account : String
  pub mev_commission : ℕ
  pub epoch : Decimal
  pub total_epoch_rewards : Option Decimal
  pub claimed_epoch_rewards : Option Decimal
  pub total_epoch_claimants : Option ℤ
  pub epoch_active_claimants : Option ℤ

pub record ValidatorJitoPriorityFeeInfo : Type 0 where
  pub vote_account : String
  pub priority_commission : ℕ
  pub total_lamports_transferred : Decimal
  pub epoch : Decimal
  pub total_epoch_rewards : Option Decimal
  pub claimed_epoch_rewards : Option Decimal
  pub total_epoch_claimants : Option ℤ
  pub epoch_active_claimants : Option ℤ

pub record Validator (Float : Type 0) : Type 0 where
  pub identity : String
  pub vote_account : String
  pub epoch : Decimal
  pub info_name : Option String
  pub info_url : Option String
  pub info_keybase : Option String
  pub info_icon_url : Option String
  pub node_ip : Option String
  pub dc_coordinates_lat : Option Float
  pub dc_coordinates_lon : Option Float
  pub dc_continent : Option String
  pub dc_country_iso : Option String
  pub dc_country : Option String
  pub dc_city : Option String
  pub dc_asn : Option ℤ
  pub dc_aso : Option String
  pub commission_max_observed : Option ℕ
  pub commission_min_observed : Option ℕ
  pub commission_advertised : Option ℕ
  pub commission_effective : Option ℕ
  pub version : Option String
  pub activated_stake : Decimal
  pub marinade_stake : Decimal
  pub foundation_stake : Decimal
  pub marinade_native_stake : Decimal
  pub institutional_stake : Decimal
  pub self_stake : Decimal
  pub superminority : Bool
  pub stake_to_become_superminority : Decimal
  pub credits : Decimal
  pub leader_slots : Decimal
  pub blocks_produced : Decimal
  pub skip_rate : Float
  pub uptime_pct : Option Float
  pub uptime : Option Decimal
  pub downtime : Option Decimal
  pub updated_at : Option DateTime
