-- ===== src/Store/Validators/Stored.antt =====
-- The table after a snapshot of the validators is stored.
use delegation_strategy.Prelude.{
  or_else, ℕ, ◌≡◌, refl, String, Option, none, some, List, [], ◌∷◌, HashMap, insert, get,
  >>=-eq-some, map_option, All, All-insert, DistinctKeys, DistinctKeys-insert, string_discrete,
}
use delegation_strategy.Store.Query.{ok}
use delegation_strategy.Store.Dto.Scalars.{DateTime}
use delegation_strategy.Store.Dto.Rows.{Validator}
use delegation_strategy.Store.Upsert.Merged.{IsOwn, merged}
use delegation_strategy.Store.Upsert.Merging.{upsert-eq-merged}
use delegation_strategy.Store.Upsert.Repeated.{upsert-twice}
use delegation_strategy.Collect.Validators.{
  Coordinates, IpInfo, ValidatorSnapshot, Snapshot, data_center_of,
}
use delegation_strategy.Collect.Superminority.{VoteAccountInfo}
use delegation_strategy.Collect.Validators.Collected.{Sources, snapshot_of}
use delegation_strategy.Store.Validators.{
  new_from_snapshot, validator_columns, validators_by_account, validators_upsert, store_validators,
  revised, inserted_validator,
}

module _ {Float : Type 0} where
  pub validators_by_account-IsOwn :
      (s : Snapshot Float) (vs : List (ValidatorSnapshot Float))
      (m : HashMap String (Validator Float))
      → DistinctKeys string_discrete m
      → All (IsOwn (validator_columns s.created_at) (validators_upsert s)) m
      → DistinctKeys string_discrete (validators_by_account s.epoch vs m)
        × All
            (IsOwn (validator_columns s.created_at) (validators_upsert s))
            (validators_by_account s.epoch vs m)
  unfolding validators_by_account new_from_snapshot validators_upsert
  validators_by_account-IsOwn s [] m d h = (d, h)
  validators_by_account-IsOwn s (v ∷ vs) m d h =
      let new = new_from_snapshot v s.epoch in
      validators_by_account-IsOwn s vs (insert string_discrete v.vote_account new m)
        (DistinctKeys-insert string_discrete v.vote_account new m d)
        (All-insert string_discrete (IsOwn (validator_columns s.created_at) (validators_upsert s))
          v.vote_account new m (refl, refl) h)

  -- When no statement fails, a snapshot is merged into the table of the validators: each row of its epoch
  -- takes the values of its validator, without the observed and effective commissions and the uptimes,
  -- each validator without such a row has a new one at the end, and all other rows stay.
  pub store_validators-eq-merged :
      {E : Type 0} (fails : ℕ → Option E) (s : Snapshot Float) (rows : List (Validator Float))
      → ((k : ℕ) → fails k ≡ none)
      → store_validators fails s rows
        ≡ (merged (validator_columns s.created_at) (validators_upsert s) rows, ok tt)
  unfolding store_validators validators_upsert
  store_validators-eq-merged fails s rows h =
      let (keys, own) = validators_by_account-IsOwn s s.validators [] tt tt in
      upsert-eq-merged (validator_columns s.created_at) (validators_upsert s) own keys fails rows h

  pub inserted-revised :
      (created_at : DateTime) (v : Validator Float)
      → revised created_at (inserted_validator created_at v) v ≡ inserted_validator created_at v
  inserted-revised created_at v = rw (same v.version) refl
    where
      same : (o : Option String) → or_else o o ≡ o
      same none = refl
      same (some x) = refl

  -- When no statement fails, storing the same snapshot of the validators again changes nothing.
  pub store_validators-twice :
      {E : Type 0} (fails : ℕ → Option E) (s : Snapshot Float) (rows : List (Validator Float))
      → ((k : ℕ) → fails k ≡ none)
      → store_validators fails s (store_validators fails s rows).0 ≡ store_validators fails s rows
  unfolding store_validators validators_upsert
  store_validators-twice fails s rows h =
      let (keys, own) = validators_by_account-IsOwn s s.validators [] tt tt in
      upsert-twice (validator_columns s.created_at) (validators_upsert s) own keys
        (λ v e. (refl, e, inserted-revised s.created_at v)) fails rows h

  abbrev pub latitude : Option (IpInfo Float) → Option Float
  latitude none = none
  latitude (some i) = map_option (λ c. c.lat) i.coordinates

  abbrev pub longitude : Option (IpInfo Float) → Option Float
  longitude none = none
  longitude (some i) = map_option (λ c. c.lon) i.coordinates

  -- The coordinates that whois gave for the identity of a vote account.
  abbrev pub whois_of : Sources Float → VoteAccountInfo → Option (IpInfo Float)
  whois_of sources vote_account =
      map_option (λ c. c.1) (get string_discrete vote_account.node_pubkey sources.data_centers)

  coordinates-of :
      (o : Option (String × IpInfo Float)) (v : ValidatorSnapshot Float) (epoch : ℕ)
      → v.data_center ≡ map_option (λ c. data_center_of c.1) o
      → ((new_from_snapshot v epoch).dc_coordinates_lon ≡ latitude (map_option (λ c. c.1) o))
        × ((new_from_snapshot v epoch).dc_coordinates_lat ≡ longitude (map_option (λ c. c.1) o))
  unfolding new_from_snapshot data_center_of
  coordinates-of none v epoch h = rw h (refl, refl)
  coordinates-of (some (ip, info)) v epoch h = rw h (same info.coordinates)
    where
      same :
          (o : Option (Coordinates Float))
          → (map_option
                (λ (p : Float × Float). p.1)
                (map_option (λ (c : Coordinates Float). (c.lon, c.lat)) o)
              ≡ map_option (λ c. c.lat) o)
            × (map_option
                  (λ (p : Float × Float). p.0)
                  (map_option (λ (c : Coordinates Float). (c.lon, c.lat)) o)
                ≡ map_option (λ c. c.lon) o)
      same none = (refl, refl)
      same (some c) = (refl, refl)

  -- The latitude and the longitude that whois gives for a validator's node stand in the columns of
  -- those names after its snapshot is stored, in an updated row and in a new one, although the record in
  -- between has them exchanged: it is exchanged again when it is written.
  pub snapshot_of-coordinates :
      (sources : Sources Float) (minimum epoch : ℕ) (vote_account : VoteAccountInfo)
      (v : ValidatorSnapshot Float) (created_at : DateTime) (r : Validator Float)
      → snapshot_of sources minimum vote_account ≡ some v
      → ((revised created_at r (new_from_snapshot v epoch)).dc_coordinates_lat
          ≡ latitude (whois_of sources vote_account))
        × ((revised created_at r (new_from_snapshot v epoch)).dc_coordinates_lon
            ≡ longitude (whois_of sources vote_account))
        × ((inserted_validator created_at (new_from_snapshot v epoch)).dc_coordinates_lat
            ≡ latitude (whois_of sources vote_account))
        × ((inserted_validator created_at (new_from_snapshot v epoch)).dc_coordinates_lon
            ≡ longitude (whois_of sources vote_account))
  unfolding snapshot_of
  snapshot_of-coordinates sources minimum epoch vote_account v created_at r h =
      let (performance, _, e) =
        >>=-eq-some (get string_discrete vote_account.vote_pubkey sources.performance) _ h in
      let (lat, lon) =
        coordinates-of (get string_discrete vote_account.node_pubkey sources.data_centers) v epoch
          (center e) in
      (lat, lon, lat, lon)
    where
      center : {s t : ValidatorSnapshot Float} → some s ≡ some t → t.data_center ≡ s.data_center
      center e = cc
