-- ===== src/Api/Filter.antt =====
-- api/src/handlers/list_validators.rs: `filter_validators`. Lower-casing and the search in a text are
-- the standard library's, and parameters here.
pub mod Matching
pub mod Liveness
use delegation_strategy.Prelude.{
  ℕ, zero, suc, ◌+◌, ◌-◌, String, Bool, true, false, ◌&&◌, ◌||◌, Option, none, some, List, [], ◌∷◌,
  HashMap, values, map, flat_map, keep, find, any, all, maximum, ltb, ◌==◌, or_default, holds,
  is_some, contains, string_discrete, if◌then◌else◌, F64,
}
use delegation_strategy.Store.Dto.Validators.{ValidatorEpochStats, ValidatorRecord, IncidentRecord}
use delegation_strategy.Store.Ranks.{Validators}
use delegation_strategy.Api.Query.{GetValidatorsConfig}

abbrev pub min_required_epochs_in_the_past : ℕ
min_required_epochs_in_the_past = 1

abbrev pub min_required_epochs_with_credits_or_stake : ℕ
min_required_epochs_with_credits_or_stake = 1

-- `n` numbers from `first` on, and `first..=last`.
abbrev pub numbers_from : ℕ → ℕ → List ℕ
numbers_from first zero = []
numbers_from first (suc n) = first ∷ numbers_from (suc first) n

abbrev pub range_inclusive : ℕ → ℕ → List ℕ
range_inclusive first last = numbers_from first (last + 1 - first)

abbrev pub is_some_and {ℓ} : {A : Type ℓ} → (A → Bool) → Option A → Bool
is_some_and p none = false
is_some_and p (some a) = p a

abbrev pub is_empty {ℓ} : {A : Type ℓ} → List A → Bool
is_empty [] = true
is_empty (x ∷ xs) = false

-- Equality of Booleans.
abbrev pub same : Bool → Bool → Bool
same true b = b
same false true = false
same false false = true

-- `retain` under an option: nothing is dropped without one.
abbrev pub retain_by {ℓ} : {A B : Type ℓ} → Option B → (B → A → Bool) → List A → List A
retain_by none p xs = xs
retain_by (some b) p xs = keep (p b) xs

module _ (f64 : F64) (to_lowercase : String → String) (str_contains : String → String → Bool) where
  -- A vote account with its record, as the map holds it.
  abbrev pub Entry : Type 0
  Entry = String × ValidatorRecord f64.Float

  abbrev pub has_stats : ValidatorRecord f64.Float → ℕ → Bool
  has_stats v epoch = any (λ s. s.epoch == epoch) v.epoch_stats

  abbrev pub has_credits_or_stake : ValidatorRecord f64.Float → ℕ → Bool
  has_credits_or_stake v epoch =
      is_some_and (λ s. ltb 0 s.activated_stake || ltb 0 s.credits)
        (find (λ s. s.epoch == epoch) v.epoch_stats)

  -- The first `retain`.
  unfoldable pub is_live : ℕ → Entry → Bool
  is_live last_epoch (_, v) =
      let min_required_epoch = last_epoch - min_required_epochs_in_the_past in
      let last_epochs_start = last_epoch - min_required_epochs_with_credits_or_stake in
      if all (has_stats v) (range_inclusive min_required_epoch last_epoch)
      then all (has_credits_or_stake v) (range_inclusive last_epochs_start last_epoch)
      else false

  -- The text search; `query` is in lower case already.
  unfoldable pub matches_query : Bool → String → Entry → Bool
  matches_query search_properties query (_, v) =
      let matches =
        λ (field : Option String). is_some_and (λ s. str_contains (to_lowercase s) query) field in
      str_contains (to_lowercase v.vote_account) query
      || str_contains (to_lowercase v.identity) query
      || matches v.info_name
      || (search_properties
          && (matches v.dc_country || matches v.dc_city || matches v.dc_full_city))

  abbrev pub last_epoch_of : List (ValidatorRecord f64.Float) → ℕ
  last_epoch_of vs = maximum (map (λ s. s.epoch) (flat_map (λ v. v.epoch_stats) vs))

  -- `score.unwrap_or(0.0) > 0.0`
  abbrev pub has_score : ValidatorRecord f64.Float → Bool
  has_score v = f64.lt (f64.of_nat 0) (or_default (f64.of_nat 0) v.score)

  unfoldable pub filter_validators :
      Validators f64.Float → GetValidatorsConfig → List (ValidatorRecord f64.Float)
  unfolding is_live matches_query
  filter_validators validators config =
      let live = keep (is_live (last_epoch_of (values validators))) validators in
      let by_sfdp = retain_by config.query_sfdp (λ _ e. ltb 0 e.1.foundation_stake) live in
      let by_vote_account =
        retain_by config.query_vote_accounts (λ q e. contains string_discrete e.0 q) by_sfdp in
      let by_identity =
        retain_by config.query_identities (λ q e. contains string_discrete e.1.identity q)
          by_vote_account in
      let by_query =
        retain_by config.query
          (λ q. matches_query (or_default false config.search_properties) (to_lowercase q))
          by_identity in
      let by_superminority =
        retain_by config.query_superminority (λ q e. same e.1.superminority q) by_query in
      let by_marinade_stake =
        retain_by config.query_marinade_stake (λ q e. same (ltb 0 e.1.marinade_stake) q)
          by_superminority in
      let by_name =
        retain_by config.query_with_names (λ q e. same q (is_some e.1.info_name))
          by_marinade_stake in
      let by_score = retain_by config.query_score (λ q e. same (has_score e.1) q) by_name in
      let by_incidents =
        retain_by config.query_incident_free (λ q e. same (is_empty e.1.incidents) q) by_score in
      values by_incidents
