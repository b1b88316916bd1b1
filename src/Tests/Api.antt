-- ===== src/Tests/Api.antt =====
-- The cache, the listing and the breakdowns at concrete inputs.
use delegation_strategy.Prelude.{
  ℕ, ◌+◌, ◌-◌, ◌≡◌, refl, min, String, Bool, true, none, some, List, [], ◌∷◌, ◌++◌, HashMap, values,
  keep, all, length,
}
use delegation_strategy.Store.Query.{Result, ok, err}
use delegation_strategy.Store.Dto.Scores.{ValidatorScoreRecord, ScoringRunRecord}
use delegation_strategy.Store.Scores.{converts, load_all_scores}
use delegation_strategy.Store.Scores.Grouping.{scores_at, rows_of, load_all_scores-ok}
use delegation_strategy.Api.Query.{
  GetValidatorsConfig, default_order_field, default_order_direction,
}
use delegation_strategy.Api.Filter.{filter_validators}
use delegation_strategy.Api.Filter.Matching.{conditions, filter_validators-eq_conditions}
use delegation_strategy.Api.Listing.{get_validators}
use delegation_strategy.Api.Listing.Order.{IsOrdered}
use delegation_strategy.Api.Listing.Paging.{
  page, length-get_validators, get_validators-page, get_validators-IsSorted,
}
use delegation_strategy.Api.Cache.{CachedMultiRunScores, Loads, new, warm_passes}
use delegation_strategy.Api.Cache.Invariants.{
  AggregatesMatch, ScoresMatch, IsStable, warm_passes-AggregatesMatch, warm_passes-ScoresMatch,
}
use delegation_strategy.Api.Breakdowns.{score_breakdowns, ScoresError, ScoreBreakdown}
use delegation_strategy.Api.Breakdowns.Eligibility.{score_breakdowns-answers}
use delegation_strategy.Tests.Data.{nat_f64, validators}

abbrev unchanged : String → String
unchanged s = s

abbrev always : String → String → Bool
always s query = true

abbrev config : GetValidatorsConfig
config = record {
  order_direction = default_order_direction;
  order_field = default_order_field;
  offset = 1;
  limit = 2;
  query = some "a";
  query_identities = none;
  query_vote_accounts = none;
  query_superminority = none;
  query_score = none;
  query_marinade_stake = none;
  query_with_names = none;
  query_sfdp = none;
  query_incident_free = some true;
  search_properties = none;
  query_from_date = none;
  epochs = 15;
}

filter_validators-eq_conditions_example :
    filter_validators nat_f64 unchanged always validators config
    ≡ values (keep (λ e. all (λ p. p e) (conditions nat_f64 unchanged always 7 config)) validators)
filter_validators-eq_conditions_example =
    filter_validators-eq_conditions nat_f64 unchanged always validators config

length-get_validators_example :
    length (get_validators nat_f64 unchanged always validators config)
    ≡ min 2 (length (filter_validators nat_f64 unchanged always validators config) - 1)
length-get_validators_example = length-get_validators nat_f64 unchanged always validators config

get_validators-page_example :
    get_validators nat_f64 unchanged always validators
      (page nat_f64 unchanged always 0 (1 + 1) config)
    ≡ get_validators nat_f64 unchanged always validators (page nat_f64 unchanged always 0 1 config)
      ++ get_validators nat_f64 unchanged always validators
          (page nat_f64 unchanged always (0 + 1) 1 config)
get_validators-page_example = get_validators-page nat_f64 unchanged always validators config 0 1 1

get_validators-IsSorted_example :
    IsOrdered nat_f64 config.order_direction config.order_field
      (get_validators nat_f64 unchanged always validators config)
get_validators-IsSorted_example = get_validators-IsSorted nat_f64 unchanged always validators config

abbrev run : ScoringRunRecord ℕ
run = record {
  scoring_run_id = 3;
  created_at = 5;
  epoch = 7;
  components = [];
  component_weights = [];
  ui_id = "ui";
}

abbrev score_of_alice : ValidatorScoreRecord ℕ
score_of_alice = record {
  vote_account = "alice";
  score = 9;
  rank = 1;
  vemnde_votes = 0;
  msol_votes = 0;
  ui_hints = [];
  component_scores = [];
  component_ranks = [];
  component_values = [];
  eligible_stake_algo = true;
  eligible_stake_vemnde = true;
  eligible_stake_msol = true;
  target_stake_algo = 4;
  target_stake_vemnde = 0;
  target_stake_msol = 0;
  scoring_run_id = 3;
  created_at = 6;
}

abbrev score_rows : List (ValidatorScoreRecord ℕ)
score_rows = score_of_alice ∷ record score_of_alice { scoring_run_id = 2 } ∷ []

abbrev no_u64 : String
no_u64 = "no u64"

converted : all converts score_rows ≡ true
unfolding converts
converted = refl

load_all_scores-ok_example :
    (records : HashMap ℕ (List (ValidatorScoreRecord ℕ))) × (load_all_scores no_u64 (ok score_rows)
      ≡ ok records)
    × ((id : ℕ) → scores_at id records ≡ rows_of id score_rows)
load_all_scores-ok_example = load_all_scores-ok no_u64 score_rows converted

abbrev scores_of : ℕ → HashMap String (ValidatorScoreRecord ℕ)
scores_of id = ("alice", score_of_alice) ∷ []

-- A pass that loads all but the uptimes.
abbrev loads : Loads ℕ String
loads = record {
  last_scoring_run = ok (some run);
  scores = λ id. ok (scores_of id);
  all_scores = ok [];
  last_scoring_run_again = ok (some run);
  scoring_runs = ok (run ∷ []);
  versions = ok [];
  commissions = ok [];
  uptimes = err "down";
  cluster_stats = err "down";
  last_bigquery_epoch = ok (some 7);
  unique_delegators = ok [];
  take_rates = ok [];
  validators = λ delegators take_rates. ok validators;
  now = λ vote_account epoch. 99;
}

warm_passes-AggregatesMatch_example :
    AggregatesMatch nat_f64 (warm_passes nat_f64 (loads ∷ loads ∷ []) new)
warm_passes-AggregatesMatch_example = warm_passes-AggregatesMatch nat_f64 (loads ∷ loads ∷ [])

stable : IsStable nat_f64 scores_of loads
stable = (refl, λ id scores e. cc)

warm_passes-ScoresMatch_example :
    ScoresMatch nat_f64 scores_of
      (warm_passes nat_f64 (loads ∷ []) new).validators_single_run_scores
warm_passes-ScoresMatch_example =
    warm_passes-ScoresMatch nat_f64 scores_of (loads ∷ []) (stable, tt)

abbrev cached : CachedMultiRunScores ℕ
cached = record { scoring_runs = some (run ∷ []); scores = (3, score_of_alice ∷ []) ∷ [] }

score_breakdowns-answers_example :
    (r : Result ScoresError (List (ScoreBreakdown ℕ))) × (score_breakdowns nat_f64
        (some 5)
        (some "alice")
        cached
      ≡ some r)
score_breakdowns-answers_example = score_breakdowns-answers nat_f64 (some 5) (some "alice") cached
