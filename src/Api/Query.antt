-- ===== src/Api/Query.antt =====
-- api/src/handlers/list_validators.rs: the query of a listing, and what the handler makes of it.
use delegation_strategy.Prelude.{ℕ, String, Bool, Option, none, some, List, or_default}
use delegation_strategy.Store.Dto.Scalars.{DateTime}

abbrev pub default_epochs : ℕ
default_epochs = 15

abbrev pub default_limit : ℕ
default_limit = 100

pub data OrderField : Type 0 where
  stake credits marinade_score apy commission uptime : OrderField

pub data OrderDirection : Type 0 where
  asc desc : OrderDirection

abbrev pub default_order_field : OrderField
default_order_field = OrderField.stake

abbrev pub default_order_direction : OrderDirection
default_order_direction = OrderDirection.desc

pub record QueryParams : Type 0 where
  pub epochs : Option ℕ
  pub query : Option String
  pub query_from_date : Option DateTime
  pub query_vote_accounts : Option String
  pub query_identities : Option String
  pub order_field : Option OrderField
  pub order_direction : Option OrderDirection
  pub query_superminority : Option Bool
  pub query_score : Option Bool
  pub query_marinade_stake : Option Bool
  pub query_with_names : Option Bool
  pub query_sfdp : Option Bool
  pub query_incident_free : Option Bool
  pub search_properties : Option Bool
  pub offset : Option ℕ
  pub limit : Option ℕ

pub record GetValidatorsConfig : Type 0 where
  pub order_direction : OrderDirection
  pub order_field : OrderField
  pub offset : ℕ
  pub limit : ℕ
  pub query : Option String
  pub query_identities : Option (List String)
  pub query_vote_accounts : Option (List String)
  pub query_superminority : Option Bool
  pub query_score : Option Bool
  pub query_marinade_stake : Option Bool
  pub query_with_names : Option Bool
  pub query_sfdp : Option Bool
  pub query_incident_free : Option Bool
  pub search_properties : Option Bool
  pub query_from_date : Option DateTime
  pub epochs : ℕ

abbrev pub option_map : {A B : Type 0} → (A → B) → Option A → Option B
option_map f none = none
option_map f (some a) = some (f a)

-- The configuration that the handler reads off the query; `split` is `split(",")`.
unfoldable pub config_of : (String → List String) → QueryParams → GetValidatorsConfig
config_of split p = record {
  order_direction = or_default default_order_direction p.order_direction;
  order_field = or_default default_order_field p.order_field;
  offset = or_default 0 p.offset;
  limit = or_default default_limit p.limit;
  query = p.query;
  query_vote_accounts = option_map split p.query_vote_accounts;
  query_identities = option_map split p.query_identities;
  query_superminority = p.query_superminority;
  query_score = p.query_score;
  query_marinade_stake = p.query_marinade_stake;
  query_with_names = p.query_with_names;
  query_sfdp = p.query_sfdp;
  query_incident_free = p.query_incident_free;
  search_properties = p.search_properties;
  query_from_date = p.query_from_date;
  epochs = or_default default_epochs p.epochs;
}
