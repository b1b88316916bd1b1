-- ===== src/Collect/Validators/Collected.antt =====
-- collect/src/validators.rs: the loop of `collect_validators_info` over the vote accounts, and
-- collect/src/whois_service.rs: `get_data_centers`. What the node and the other services answer is given.
use delegation_strategy.Prelude.{
  ℕ, String, Option, none, some, List, [], ◌∷◌, ◌++◌, HashMap, get, insert, map_option, or_default,
  ◌>>=◌, holds, if◌then◌else◌, string_discrete,
}
use delegation_strategy.Store.Query.{Result, ok, err}
use delegation_strategy.Collect.Performance.{ValidatorPerformance}
use delegation_strategy.Collect.Superminority.{
  VoteAccountInfo, VoteAccountStatus, get_minimum_superminority_stake, superminority,
  stake_to_become_superminority,
}
use delegation_strategy.Collect.Validators.{IpInfo, ValidatorSnapshot, data_center_of}

pub record ValidatorInfo : Type 0 where
  pub name : Option String
  pub url : Option String
  pub details : Option String
  pub keybase : Option String
  pub icon_url : Option String

abbrev pub no_info : ValidatorInfo
no_info = record { name = none; url = none; details = none; keybase = none; icon_url = none }

module _ {Float E : Type 0} (whois : String → Result E (IpInfo Float)) where
  abbrev pub put_center :
      String
      → String
      → Result E (IpInfo Float)
      → HashMap String (String × IpInfo Float)
      → HashMap String (String × IpInfo Float)
  put_center node ip (ok info) data_centers = insert string_discrete node (ip, info) data_centers
  put_center node ip (err e) data_centers = data_centers

  -- The loop over the nodes; a local address is skipped, an address that whois fails for is left out.
  unfoldable pub get_data_centers :
      HashMap String String
      → HashMap String (String × IpInfo Float)
      → HashMap String (String × IpInfo Float)
  get_data_centers [] data_centers = data_centers
  get_data_centers ((node, ip) ∷ nodes) data_centers =
      let skipped = get_data_centers nodes data_centers in
      let asked = get_data_centers nodes (put_center node ip (whois ip) data_centers) in
      if holds (string_discrete ip "127.0.0.1") then skipped else asked

-- What is looked up for a vote account.
pub record Sources (Float : Type 0) : Type 0 where
  pub data_centers : HashMap String (String × IpInfo Float)
  pub validators_info : HashMap String ValidatorInfo
  pub marinade_stake : HashMap String ℕ
  pub foundation_stake : HashMap String ℕ
  pub self_stake : HashMap String ℕ
  pub marinade_native_stake : HashMap String ℕ
  pub institutional_stake : HashMap String ℕ
  pub performance : HashMap String (ValidatorPerformance Float)

module _ {Float : Type 0} (sources : Sources Float) (minimum_superminority_stake : ℕ) where
  abbrev pub stake_in : HashMap String ℕ → String → ℕ
  stake_in stakes vote_pubkey = or_default 0 (get string_discrete vote_pubkey stakes)

  abbrev pub snapshot_with :
      VoteAccountInfo → ValidatorInfo → ValidatorPerformance Float → ValidatorSnapshot Float
  snapshot_with vote_account info performance =
      let center = get string_discrete vote_account.node_pubkey sources.data_centers in
      record {
        identity = vote_account.node_pubkey;
        vote_account = vote_account.vote_pubkey;
        node_ip = map_option (λ c. c.0) center;
        info_name = info.name;
        info_url = info.url;
        info_details = info.details;
        info_keybase = info.keybase;
        info_icon_url = info.icon_url;
        data_center = map_option (λ c. data_center_of c.1) center;
        activated_stake = vote_account.activated_stake;
        foundation_stake = stake_in sources.foundation_stake vote_account.vote_pubkey;
        self_stake = stake_in sources.self_stake vote_account.vote_pubkey;
        marinade_stake = stake_in sources.marinade_stake vote_account.vote_pubkey;
        marinade_native_stake = stake_in sources.marinade_native_stake vote_account.vote_pubkey;
        institutional_stake = stake_in sources.institutional_stake vote_account.vote_pubkey;
        superminority = superminority minimum_superminority_stake vote_account.activated_stake;
        stake_to_become_superminority =
            stake_to_become_superminority minimum_superminority_stake vote_account.activated_stake;
        performance = performance;
      }

  -- The performance is unwrapped.
  unfoldable pub snapshot_of : VoteAccountInfo → Option (ValidatorSnapshot Float)
  unfolding data_center_of superminority stake_to_become_superminority
  snapshot_of vote_account =
      get string_discrete vote_account.vote_pubkey sources.performance >>= λ performance. some (
        snapshot_with vote_account
          (or_default no_info
            (get string_discrete vote_account.node_pubkey sources.validators_info))
          performance)

  unfoldable pub snapshots_of : List VoteAccountInfo → Option (List (ValidatorSnapshot Float))
  unfolding snapshot_of
  snapshots_of [] = some []
  snapshots_of (v ∷ vs) = snapshot_of v >>= λ s. snapshots_of vs >>= λ ss. some (s ∷ ss)

unfoldable pub collect_validators :
    {Float : Type 0} → Sources Float → VoteAccountStatus → Option (List (ValidatorSnapshot Float))
unfolding snapshots_of get_minimum_superminority_stake
collect_validators sources vote_accounts =
    snapshots_of sources (get_minimum_superminority_stake vote_accounts)
      (vote_accounts.current ++ vote_accounts.delinquent)
