-- ===== src/Collect/Performance.antt =====
-- collect/src/validators_performance.rs: the snapshot of the validators' performance. Its `created_at`
-- is a text that every reader parses at once; here it is the parsed time.
use delegation_strategy.Prelude.{ℕ, String, Bool, Option, HashMap}
use delegation_strategy.Store.Dto.Scalars.{DateTime}

pub record ValidatorRewards : Type 0 where
  pub commission_effective : Option ℕ

pub record ClusterInflation (Float : Type 0) : Type 0 where
  pub sol_total_supply : ℕ
  pub inflation : Float
  pub inflation_taper : Float

pub record ValidatorPerformance (Float : Type 0) : Type 0 where
  pub commission : ℕ
  pub version : Option String
  pub credits : ℕ
  pub leader_slots : ℕ
  pub blocks_produced : ℕ
  pub skip_rate : Float
  pub delinquent : Bool

pub record ValidatorsPerformanceSnapshot (Float : Type 0) : Type 0 where
  pub epoch : ℕ
  pub epoch_slot : ℕ
  pub transaction_count : ℕ
  pub created_at : DateTime
  pub cluster_inflation : Option (ClusterInflation Float)
  pub validators : HashMap String (ValidatorPerformance Float)
  pub rewards : Option (HashMap String ValidatorRewards)
