-- ===== src/Store/Validators/ColumnWise.antt =====
-- store/src/validators.rs: the rows after a snapshot of the validators is stored, described column by
-- column from the snapshot, apart from the record and the statements of the code.
use delegation_strategy.Prelude.{
  or_else, to_i32, ℕ, ◌≡◌, ◌≢◌, ◌⊎◌, refl, ap, subst, String, Option, none, some, List, [], ◌∷◌,
  map_option, ◌>>=◌, holds, if◌then◌else◌, string_discrete,
}
use delegation_strategy.Store.Dto.Rows.{Validator}
use delegation_strategy.Collect.Validators.{ValidatorDataCenter, ValidatorSnapshot, Snapshot}
use delegation_strategy.Store.Validators.{
  data_center_or_none, new_from_snapshot, revised, inserted_validator,
}
use delegation_strategy.Store.Validators.Stored.{inserted-revised}

module _ {Float : Type 0} where
  -- Of the validators with a vote account, the last one.
  unfoldable pub last_listed :
      String → List (ValidatorSnapshot Float) → Option (ValidatorSnapshot Float)
  last_listed va [] = none
  last_listed va (v ∷ vs) =
      or_else (last_listed va vs)
        (if holds (string_discrete v.vote_account va) then some v else none)

  -- The columns that a snapshot determines, but for the version. The pair of a validator's coordinates
  -- is its longitude and its latitude.
  pub record IsDescribed (s : Snapshot Float) (v : ValidatorSnapshot Float) (r : Validator Float)
      : Type 0 where
    pub identity : r.identity ≡ v.identity
    pub vote_account : r.vote_account ≡ v.vote_account
    pub epoch : r.epoch ≡ s.epoch
    pub info_name : r.info_name ≡ v.info_name
    pub info_url : r.info_url ≡ v.info_url
    pub info_keybase : r.info_keybase ≡ v.info_keybase
    pub info_icon_url : r.info_icon_url ≡ v.info_icon_url
    pub node_ip : r.node_ip ≡ v.node_ip
    pub dc_coordinates_lon :
        r.dc_coordinates_lon ≡ map_option (λ c. c.0) (v.data_center >>= λ d. d.coordinates)
    pub dc_coordinates_lat :
        r.dc_coordinates_lat ≡ map_option (λ c. c.1) (v.data_center >>= λ d. d.coordinates)
    pub dc_continent : r.dc_continent ≡ (v.data_center >>= λ d. d.continent)
    pub dc_country_iso : r.dc_country_iso ≡ (v.data_center >>= λ d. d.country_iso)
    pub dc_country : r.dc_country ≡ (v.data_center >>= λ d. d.country)
    pub dc_city : r.dc_city ≡ (v.data_center >>= λ d. d.city)
    pub dc_asn : r.dc_asn ≡ map_option to_i32 (v.data_center >>= λ d. d.asn)
    pub dc_aso : r.dc_aso ≡ (v.data_center >>= λ d. d.aso)
    pub commission_advertised : r.commission_advertised ≡ some v.performance.commission
    pub activated_stake : r.activated_stake ≡ v.activated_stake
    pub marinade_stake : r.marinade_stake ≡ v.marinade_stake
    pub foundation_stake : r.foundation_stake ≡ v.foundation_stake
    pub marinade_native_stake : r.marinade_native_stake ≡ v.marinade_native_stake
    pub institutional_stake : r.institutional_stake ≡ v.institutional_stake
    pub self_stake : r.self_stake ≡ v.self_stake
    pub superminority : r.superminority ≡ v.superminority
    pub stake_to_become_superminority :
        r.stake_to_become_superminority ≡ v.stake_to_become_superminority
    pub credits : r.credits ≡ v.performance.credits
    pub leader_slots : r.leader_slots ≡ v.performance.leader_slots
    pub blocks_produced : r.blocks_produced ≡ v.performance.blocks_produced
    pub skip_rate : r.skip_rate ≡ v.performance.skip_rate
    pub updated_at : r.updated_at ≡ some s.created_at

  -- The columns that other commands compute.
  abbrev pub computed_columns :
      Validator Float → Option ℕ × Option ℕ × Option ℕ × Option Float × Option ℕ × Option ℕ
  computed_columns r = (
    r.commission_max_observed, r.commission_min_observed, r.commission_effective, r.uptime_pct,
    r.uptime, r.downtime,
  )

  -- A row before, and after.
  abbrev pub IsAfter : Snapshot Float → Validator Float → Validator Float → Type 0
  IsAfter s r r' =
      ((v : ValidatorSnapshot Float) × (r.epoch ≡ s.epoch)
        × (last_listed r.vote_account s.validators ≡ some v)
        × IsDescribed s v r'
        × (r'.version ≡ or_else v.performance.version r.version)
        × (computed_columns r' ≡ computed_columns r))
      ⊎ (((r.epoch ≢ s.epoch) ⊎ (last_listed r.vote_account s.validators ≡ none)) × (r' ≡ r))

  abbrev pub AreAfter : Snapshot Float → List (Validator Float) → List (Validator Float) → Type 0
  AreAfter s [] [] = Unit
  AreAfter s [] (r' ∷ rs') = ⊥
  AreAfter s (r ∷ rs) [] = ⊥
  AreAfter s (r ∷ rs) (r' ∷ rs') = IsAfter s r r' × AreAfter s rs rs'

  abbrev pub IsAdded : Snapshot Float → Validator Float → Type 0
  IsAdded s r =
      (v : ValidatorSnapshot Float) × (last_listed r.vote_account s.validators ≡ some v)
      × IsDescribed s v r
      × (r.version ≡ v.performance.version)
      × (computed_columns r ≡ (none, none, none, none, none, none))

  of_center :
      {A : Type 0} (field : ValidatorDataCenter Float → Option A)
      → field (data_center_or_none none) ≡ none
      → (o : Option (ValidatorDataCenter Float)) → field (data_center_or_none o) ≡ (o >>= field)
  of_center field h none = h
  of_center field h (some d) = refl

  -- The two rows that the code makes of a validator.
  pub revised-IsDescribed :
      (s : Snapshot Float) (v : ValidatorSnapshot Float) (r : Validator Float)
      → IsDescribed s v (revised s.created_at r (new_from_snapshot v s.epoch))
  unfolding new_from_snapshot
  revised-IsDescribed s v r = record {
    identity = refl;
    vote_account = refl;
    epoch = refl;
    info_name = refl;
    info_url = refl;
    info_keybase = refl;
    info_icon_url = refl;
    node_ip = refl;
    dc_coordinates_lon =
        ap (map_option (λ (c : Float × Float). c.0))
          (of_center (λ d. d.coordinates) refl v.data_center);
    dc_coordinates_lat =
        ap (map_option (λ (c : Float × Float). c.1))
          (of_center (λ d. d.coordinates) refl v.data_center);
    dc_continent = of_center (λ d. d.continent) refl v.data_center;
    dc_country_iso = of_center (λ d. d.country_iso) refl v.data_center;
    dc_country = of_center (λ d. d.country) refl v.data_center;
    dc_city = of_center (λ d. d.city) refl v.data_center;
    dc_asn = ap (map_option to_i32) (of_center (λ d. d.asn) refl v.data_center);
    dc_aso = of_center (λ d. d.aso) refl v.data_center;
    commission_advertised = refl;
    activated_stake = refl;
    marinade_stake = refl;
    foundation_stake = refl;
    marinade_native_stake = refl;
    institutional_stake = refl;
    self_stake = refl;
    superminority = refl;
    stake_to_become_superminority = refl;
    credits = refl;
    leader_slots = refl;
    blocks_produced = refl;
    skip_rate = refl;
    updated_at = refl;
  }

  pub inserted-IsDescribed :
      (s : Snapshot Float) (v : ValidatorSnapshot Float)
      → IsDescribed s v (inserted_validator s.created_at (new_from_snapshot v s.epoch))
  inserted-IsDescribed s v =
      let new = new_from_snapshot v s.epoch in
      subst (IsDescribed s v) (inserted-revised s.created_at new)
        (revised-IsDescribed s v (inserted_validator s.created_at new))
