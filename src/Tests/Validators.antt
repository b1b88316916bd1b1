-- ===== src/Tests/Validators.antt =====
-- The collection and the storing of a validator at concrete inputs. Natural numbers stand for floats.
use delegation_strategy.Prelude.{
  List, ℕ, ◌≡◌, refl, String, Option, none, some, false, [], ◌∷◌, ◌++◌, All, get, string_discrete,
}
use delegation_strategy.Store.Query.{ok}
use delegation_strategy.Store.Dto.Rows.{Validator}
use delegation_strategy.Store.Upsert.Merged.{merged}
use delegation_strategy.Collect.Performance.{ValidatorPerformance}
use delegation_strategy.Collect.Superminority.{VoteAccountInfo}
use delegation_strategy.Collect.Validators.{IpInfo, ValidatorSnapshot, Snapshot}
use delegation_strategy.Collect.Validators.Collected.{Sources, snapshot_of, snapshot_with, no_info}
use delegation_strategy.Store.Validators.{
  new_from_snapshot, validator_columns, validators_upsert, store_validators, revised,
  inserted_validator,
}
use delegation_strategy.Store.Validators.Stored.{
  latitude, longitude, whois_of, store_validators-twice, snapshot_of-coordinates,
}
use delegation_strategy.Store.Validators.ColumnWise.{AreAfter, IsAdded}
use delegation_strategy.Store.Validators.Described.{store_validators-IsDescribed}
use delegation_strategy.Tests.Data.{table_row}

abbrev whois_info : IpInfo ℕ
whois_info = record {
  asn = some 7;
  aso = none;
  coordinates = some (record { lat = 50; lon = 14 });
  continent = some "EU";
  country_iso = some "CZ";
  country = none;
  city = none;
}

abbrev performance : ValidatorPerformance ℕ
performance = record {
  commission = 5;
  version = none;
  credits = 100;
  leader_slots = 4;
  blocks_produced = 4;
  skip_rate = 0;
  delinquent = false;
}

abbrev sources : Sources ℕ
sources = record {
  data_centers = ("node", ("1.2.3.4", whois_info)) ∷ [];
  validators_info = [];
  marinade_stake = [];
  foundation_stake = [];
  self_stake = [];
  marinade_native_stake = [];
  institutional_stake = [];
  performance = ("a", performance) ∷ [];
}

abbrev vote_account : VoteAccountInfo
vote_account = record {
  vote_pubkey = "a";
  node_pubkey = "node";
  activated_stake = 30;
  commission = 5;
}

abbrev a_snapshot : ValidatorSnapshot ℕ
a_snapshot = snapshot_with sources 40 vote_account no_info performance

a_snapshot-found : snapshot_of sources 40 vote_account ≡ some a_snapshot
unfolding snapshot_of string_discrete get
a_snapshot-found = refl

abbrev snapshot : Snapshot ℕ
snapshot = record { epoch = 9; created_at = 5; validators = a_snapshot ∷ [] }

abbrev no_failure : ℕ → Option String
no_failure n = none

abbrev rows : List (Validator ℕ)
rows = table_row "a" 9 30 ∷ table_row "a" 8 20 ∷ []

store_validators-IsDescribed_example :
    (old : List (Validator ℕ)) × (new : List (Validator ℕ)) × (store_validators no_failure snapshot
        rows
      ≡ (old ++ new, ok tt))
    × (old ++ new
        ≡ merged (validator_columns snapshot.created_at) (validators_upsert snapshot) rows)
    × AreAfter snapshot rows old
    × All (IsAdded snapshot) new
store_validators-IsDescribed_example =
    store_validators-IsDescribed snapshot no_failure rows (λ k. refl)

store_validators-twice_example :
    store_validators no_failure snapshot (store_validators no_failure snapshot rows).0
    ≡ store_validators no_failure snapshot rows
store_validators-twice_example = store_validators-twice no_failure snapshot rows (λ k. refl)

snapshot_of-coordinates_example :
    ((revised 5 (table_row "a" 9 30) (new_from_snapshot a_snapshot 9)).dc_coordinates_lat
      ≡ latitude (whois_of sources vote_account))
    × ((revised 5 (table_row "a" 9 30) (new_from_snapshot a_snapshot 9)).dc_coordinates_lon
        ≡ longitude (whois_of sources vote_account))
    × ((inserted_validator 5 (new_from_snapshot a_snapshot 9)).dc_coordinates_lat
        ≡ latitude (whois_of sources vote_account))
    × ((inserted_validator 5 (new_from_snapshot a_snapshot 9)).dc_coordinates_lon
        ≡ longitude (whois_of sources vote_account))
snapshot_of-coordinates_example =
    snapshot_of-coordinates sources 40 9 vote_account a_snapshot 5 (table_row "a" 9 30)
      a_snapshot-found
