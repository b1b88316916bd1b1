-- ===== src/Store/Dto/Scores.antt =====
-- store/src/dto.rs: scores, scoring runs and unstake hints. `Float` stands for `f64`.
use delegation_strategy.Prelude.{ℕ, String, Bool, List, Option}
use delegation_strategy.Store.Dto.Scalars.{Decimal, DateTime}

pub record ValidatorScoreRecord (Float : Type 0) : Type 0 where
  pub vote_account : String
  pub score : Float
  pub rank : ℕ
  pub vemnde_votes : ℕ
  pub msol_votes : ℕ
  pub ui_hints : List String
  pub component_scores : List Float
  pub component_ranks : List ℕ
  pub component_values : List (Option String)
  pub eligible_stake_algo : Bool
  pub eligible_stake_vemnde : Bool
  pub eligible_stake_msol : Bool
  pub target_stake_algo : ℕ
  pub target_stake_vemnde : ℕ
  pub target_stake_msol : ℕ
  pub scoring_run_id : ℕ
  pub created_at : DateTime

pub record ScoringRunRecord (Float : Type 0) : Type 0 where
  pub scoring_run_id : Decimal
  pub created_at : DateTime
  pub epoch : ℕ
  pub components : List String
  pub component_weights : List Float
  pub ui_id : String

pub data UnstakeHint : Type 0 where
  high_commission high_commission_in_previous_epoch blacklist low_credits : UnstakeHint

pub record UnstakeHintRecord (Float : Type 0) : Type 0 where
  pub vote_account : String
  pub marinade_stake : Float
  pub hints : List UnstakeHint

pub record GlobalUnstakeHintRecord : Type 0 where
  pub vote_account : String
  pub hints : List UnstakeHint

pub record BlacklistRecord : Type 0 where
  pub vote_account : String
  pub code : String
