-- ===== src/Store/Dto/Records.antt =====
-- store/src/dto.rs: per-epoch records of uptimes, versions, commissions, Jito accounts and clusters. `Float` stands for `f64`.
use delegation_strategy.Prelude.{ℕ, String, List, Option, HashMap}
use delegation_strategy.Store.Dto.Scalars.{Decimal, DateTime}

pub record UptimeRecord : Type 0 where
  pub epoch : ℕ
  pub epoch_start_at : DateTime
  pub epoch_end_at : DateTime
  pub status : String
  pub start_at : DateTime
  pub end_at : DateTime

pub record VersionRecord : Type 0 where
  pub epoch : ℕ
  pub version : Option String
  pub created_at : DateTime

pub record CommissionRecord : Type 0 where
  pub epoch : ℕ
  pub epoch_start_at : DateTime
  pub epoch_end_at : DateTime
  pub epoch_slot : ℕ
  pub commission : ℕ
  pub created_at : DateTime

pub record JitoMevRecord : Type 0 where
  pub epoch : Decimal
  pub vote_account : String
  pub mev_commission_bps : ℕ

pub record JitoPriorityFeeRecord : Type 0 where
  pub epoch : Decimal
  pub priority_commission_bps : ℕ
  pub vote_account : String
  pub total_lamports_transferred : ℕ

pub record JitoRecord : Type 0 where
  pub epoch : Decimal
  pub vote_account : String
  pub mev_commission_bps : Option ℕ
  pub priority_commission_bps : Option ℕ
  pub priority_total_lamports_transferred : Option ℕ

pub record RuggerRecord : Type 0 where
  pub epochs : List ℕ
  pub occurrences : ℕ
  pub observed_commissions : List ℕ
  pub min_commissions : List ℕ
  pub created_at : DateTime

pub record DcConcentrationStats (Float : Type 0) : Type 0 where
  pub epoch : ℕ
  pub total_activated_stake : ℕ
  pub dc_concentration_by_aso : HashMap String Float
  pub dc_stake_by_aso : HashMap String ℕ
  pub dc_concentration_by_asn : HashMap String Float
  pub dc_stake_by_asn : HashMap String ℕ
  pub dc_concentration_by_city : HashMap String Float
  pub dc_stake_by_city : HashMap String ℕ
  pub dc_concentration_by_country : HashMap String Float
  pub dc_stake_by_country : HashMap String ℕ

pub record BlockProductionStats (Float : Type 0) : Type 0 where
  pub epoch : ℕ
  pub blocks_produced : ℕ
  pub leader_slots : ℕ
  pub avg_skip_rate : Float

pub record ClusterStats (Float : Type 0) : Type 0 where
  pub block_production_stats : List (BlockProductionStats Float)
  pub dc_concentration_stats : List (DcConcentrationStats Float)
