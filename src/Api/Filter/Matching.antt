-- ===== src/Api/Filter/Matching.antt =====
-- The chain of `retain`s as one test.
use delegation_strategy.Prelude.{
  is_some, ℕ, ◌≡◌, refl, sym, all, ap, ◌∙◌, String, Bool, true, false, ◌&&◌, Option, none, some,
  List, [], ◌∷◌, values, keep, ltb, or_default, contains, string_discrete, F64, arith,
}
use delegation_strategy.Store.Ranks.{Validators}
use delegation_strategy.Api.Query.{GetValidatorsConfig}
use delegation_strategy.Api.Filter.{
  Entry, is_live, matches_query, last_epoch_of, has_score, filter_validators, retain_by, same,
  is_empty,
}

-- A test that applies only where the option is set.
abbrev pub unless_none : {A B : Type 0} → Option B → (B → A → Bool) → A → Bool
unless_none none p a = true
unless_none (some b) p a = p b a

-- Retain by every test in turn.
abbrev retain_all : {A : Type 0} → List (A → Bool) → List A → List A
retain_all [] xs = xs
retain_all (p ∷ ps) xs = retain_all ps (keep p xs)

module _ {A : Type 0} where
  keep-keep : (p q : A → Bool) (xs : List A) → keep p (keep q xs) ≡ keep (λ x. q x && p x) xs
  keep-keep p q [] = refl
  keep-keep p q (x ∷ xs) = ground (arith, keep-keep p q xs)

  keep_all : (xs : List A) → keep (λ _. true) xs ≡ xs
  keep_all [] = refl
  keep_all (x ∷ xs) = ap (λ l. x ∷ l) (keep_all xs)

  retain_all-eq_keep :
      (ps : List (A → Bool)) (xs : List A) → retain_all ps xs ≡ keep (λ x. all (λ p. p x) ps) xs
  retain_all-eq_keep [] xs = sym (keep_all xs)
  retain_all-eq_keep (p ∷ ps) xs =
      retain_all-eq_keep ps (keep p xs) ∙ keep-keep (λ x. all (λ q. q x) ps) p xs

  retain_by-eq_keep :
      {B : Type 0} (o : Option B) (p : B → A → Bool) (xs : List A)
      → retain_by o p xs ≡ keep (unless_none o p) xs
  retain_by-eq_keep none p xs = sym (keep_all xs)
  retain_by-eq_keep (some b) p xs = refl

module _ (f64 : F64) (to_lowercase : String → String) (str_contains : String → String → Bool) where
  -- The conditions that a configuration puts on an entry, `last` being the last epoch of all.
  abbrev pub conditions :
      ℕ → GetValidatorsConfig → List (Entry f64 to_lowercase str_contains → Bool)
  conditions last config =
      is_live f64 to_lowercase str_contains last
      ∷ unless_none config.query_sfdp (λ _ e. ltb 0 e.1.foundation_stake)
      ∷ unless_none config.query_vote_accounts (λ q e. contains string_discrete e.0 q)
      ∷ unless_none config.query_identities (λ q e. contains string_discrete e.1.identity q)
      ∷ unless_none config.query (λ q.
        matches_query f64 to_lowercase str_contains (or_default false config.search_properties)
          (to_lowercase q))
      ∷ unless_none config.query_superminority (λ q e. same e.1.superminority q)
      ∷ unless_none config.query_marinade_stake (λ q e. same (ltb 0 e.1.marinade_stake) q)
      ∷ unless_none config.query_with_names (λ q e. same q (is_some e.1.info_name))
      ∷ unless_none config.query_score (λ q e. same (has_score f64 to_lowercase str_contains e.1) q)
      ∷ unless_none config.query_incident_free (λ q e. same (is_empty e.1.incidents) q)
      ∷ []

  abbrev conditions_on :
      Validators f64.Float → GetValidatorsConfig → List (Entry f64 to_lowercase str_contains → Bool)
  conditions_on validators =
      conditions (last_epoch_of f64 to_lowercase str_contains (values validators))

  filter_validators-eq_retain_all :
      (validators : Validators f64.Float) (config : GetValidatorsConfig)
      → filter_validators f64 to_lowercase str_contains validators config
        ≡ values (retain_all (conditions_on validators config) validators)
  unfolding filter_validators
  filter_validators-eq_retain_all validators config = simp (retain_by-eq_keep)

  -- The validators listed are those, in the map's order, that meet every condition of the
  -- configuration: a condition that is not set holds of all.
  pub filter_validators-eq_conditions :
      (validators : Validators f64.Float) (config : GetValidatorsConfig)
      → filter_validators f64 to_lowercase str_contains validators config
        ≡ values (keep (λ e. all (λ p. p e) (conditions_on validators config)) validators)
  filter_validators-eq_conditions validators config =
      filter_validators-eq_retain_all validators config
      ∙ ap values (retain_all-eq_keep (conditions_on validators config) validators)
