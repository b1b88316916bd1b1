-- ===== src/Collect/Validators.antt =====
-- collect/src/validators.rs and collect/src/whois_service.rs: the snapshot of the validators. Its
-- `created_at` is a text that the reader parses at once; here it is the parsed time.
pub mod Collected
use delegation_strategy.Prelude.{ℕ, String, Bool, Option, List, map_option}
use delegation_strategy.Store.Dto.Scalars.{DateTime}
use delegation_strategy.Collect.Performance.{ValidatorPerformance}

pub record Coordinates (Float : Type 0) : Type 0 where
  pub lat : Float
  pub lon : Float

-- What whois answers for an address.
pub record IpInfo (Float : Type 0) : Type 0 where
  pub asn : Option ℕ
  pub aso : Option String
  pub coordinates : Option (Coordinates Float)
  pub continent : Option String
  pub country_iso : Option String
  pub country : Option String
  pub city : Option String

-- The coordinates are a pair of a longitude and a latitude.
pub record ValidatorDataCenter (Float : Type 0) : Type 0 where
  pub coordinates : Option (Float × Float)
  pub continent : Option String
  pub country_iso : Option String
  pub country : Option String
  pub city : Option String
  pub asn : Option ℕ
  pub aso : Option String

-- `ValidatorDataCenter::new`
unfoldable pub data_center_of : {Float : Type 0} → IpInfo Float → ValidatorDataCenter Float
data_center_of ip_info = record {
  coordinates = map_option (λ c. (c.lon, c.lat)) ip_info.coordinates;
  continent = ip_info.continent;
  country_iso = ip_info.country_iso;
  country = ip_info.country;
  city = ip_info.city;
  asn = ip_info.asn;
  aso = ip_info.aso;
}

pub record ValidatorSnapshot (Float : Type 0) : Type 0 where
  pub identity : String
  pub vote_account : String
  pub node_ip : Option String
  pub info_name : Option String
  pub info_url : Option String
  pub info_details : Option String
  pub info_keybase : Option String
  pub info_icon_url : Option String
  pub data_center : Option (ValidatorDataCenter Float)
  pub activated_stake : ℕ
  pub foundation_stake : ℕ
  pub self_stake : ℕ
  pub marinade_stake : ℕ
  pub marinade_native_stake : ℕ
  pub institutional_stake : ℕ
  pub superminority : Bool
  pub stake_to_become_superminority : ℕ
  pub performance : ValidatorPerformance Float

pub record Snapshot (Float : Type 0) : Type 0 where
  pub epoch : ℕ
  pub created_at : DateTime
  pub validators : List (ValidatorSnapshot Float)
