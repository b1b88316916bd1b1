-- ===== src/Store/Load/Validators.antt =====
-- store/src/utils.rs: `load_validators`. What it asks the database and the scoring service is given.
-- A panic of the loop over the rows ends its task, which is the error `joined` here; one outside of it
-- is `panicked`.
pub mod Totality
use delegation_strategy.Prelude.{
  ℤ, ℕ, ◌+◌, ◌-◌, String, Option, none, some, List, [], ◌∷◌, HashMap, map, get, or_default,
  string_discrete, F64,
}
use delegation_strategy.Store.Query.{Result, ok, err, and_then}
use delegation_strategy.Store.Dto.Scalars.{DateTime}
use delegation_strategy.Store.Dto.Rows.{Validator}
use delegation_strategy.Store.Dto.Validators.{ValidatorEpochStats, ValidatorRecord, IncidentRecord}
use delegation_strategy.Store.Dto.Records.{DcConcentrationStats, RuggerRecord}
use delegation_strategy.Store.Ranks.{Validators, update_validators_ranks}
use delegation_strategy.Store.Averages.{update_validators_with_avgs, update_with_warnings}
use delegation_strategy.Store.Fixed.{to_fixed_for_sort}
use delegation_strategy.Store.Load.{get_last_epoch, first_of, or_error}
use delegation_strategy.Store.Load.Yields.{ApyInfoRow, get_apy_calculators}
use delegation_strategy.Store.Load.Concentrations.{load_dc_concentration_stats}
use delegation_strategy.Store.Load.Grouped.{IncidentRow, RuggerRow, load_incidents, load_ruggers}
use delegation_strategy.Store.Load.Rows.{ValidatorRow}
use delegation_strategy.Store.Load.Loop.{add_rows}
use delegation_strategy.Store.Load.Scores.{update_validators_with_scores}

-- `.first().cloned()`
abbrev pub first_entry : {A : Type 0} → List A → Option A
first_entry [] = none
first_entry (x ∷ xs) = some x

module _ (f64 : F64) where
  -- The three rankings, in order.
  abbrev pub by_stake : ValidatorEpochStats f64.Float → ℕ
  by_stake s = s.activated_stake

  abbrev pub set_rank_stake : ValidatorEpochStats f64.Float → ℕ → ValidatorEpochStats f64.Float
  set_rank_stake s rank = record s { rank_activated_stake = some rank }

  abbrev pub by_score : ValidatorEpochStats f64.Float → ℕ
  by_score s = to_fixed_for_sort f64 (or_default (f64.of_nat 0) s.score)

  abbrev pub set_rank_score : ValidatorEpochStats f64.Float → ℕ → ValidatorEpochStats f64.Float
  set_rank_score s rank = record s { rank_score = some rank }

  abbrev pub by_apy : ValidatorEpochStats f64.Float → ℕ
  by_apy s = to_fixed_for_sort f64 (or_default (f64.of_nat 0) s.apy)

  abbrev pub set_rank_apy : ValidatorEpochStats f64.Float → ℕ → ValidatorEpochStats f64.Float
  set_rank_apy s rank = record s { rank_apy = some rank }

  -- The three loops over all validators at the end.
  abbrev pub attach :
      HashMap String ℕ
      → HashMap String (List IncidentRecord)
      → HashMap String f64.Float
      → Validators f64.Float
      → Validators f64.Float
  attach unique_delegators incidents take_rates = map (λ e. (
    e.0,
    record e.1 {
      unique_delegators = get string_discrete e.0 unique_delegators;
      incidents = or_default [] (get string_discrete e.0 incidents);
      avg_take_rate = get string_discrete e.0 take_rates;
    },
  ))

  -- What the database answers: the tables and queries, in the order in which they are first asked.
  pub record Answers (E : Type 0) : Type 0 where
    pub validators : Result E (List (Validator f64.Float))
    pub ruggers : Result E (List RuggerRow)
    pub apy_infos : Result E (List (ApyInfoRow f64))
    pub validators_at : ℕ → Result E (List (Validator f64.Float))
    pub rows : Result E (List (ValidatorRow f64.Float))
    pub validators_later : Result E (List (Validator f64.Float))
    pub incidents : Result E (List IncidentRow)

  pub record Clock : Type 0 where
    pub at_row : ValidatorRow f64.Float → DateTime
    pub at_rugger : RuggerRow → DateTime

  module _ {E : Type 0} (out_of_range joined panicked : E) (show : ℤ → String) (clock : Clock)
      (answers : Answers E) (service : ℕ → Option (List (String × f64.Float)))
      (display_epochs computing_epochs : ℕ) (unique_delegators : HashMap String ℕ)
      (take_rates : HashMap String f64.Float) where
    -- What is computed from the records, up to the warnings.
    unfoldable pub computed : ℕ → Validators f64.Float → Result E (Validators f64.Float)
    unfolding update_validators_with_scores update_validators_with_avgs update_validators_ranks
        update_with_warnings
    computed last_epoch records =
        let first_epoch = first_of last_epoch computing_epochs in
        and_then
          (or_error panicked (
            update_validators_with_scores service (first_of last_epoch display_epochs) last_epoch
              records))
          (λ scored.
            let averaged = update_validators_with_avgs f64 first_epoch last_epoch scored in
            and_then (or_error panicked (update_validators_ranks set_rank_stake by_stake averaged))
              (λ by_stakes.
                and_then
                  (or_error panicked (update_validators_ranks set_rank_score by_score by_stakes))
                  (λ by_scores.
                    and_then
                      (or_error panicked (update_validators_ranks set_rank_apy by_apy by_scores))
                      (λ ranked. ok (update_with_warnings f64 first_epoch last_epoch ranked)))))

    -- All but the early return; the last epoch is asked for again after the loop over the rows.
    unfoldable pub load_from : ℕ → Result E (Validators f64.Float)
    unfolding load_ruggers get_apy_calculators load_dc_concentration_stats add_rows get_last_epoch
        computed load_incidents
    load_from last_epoch =
        and_then (load_ruggers out_of_range clock.at_rugger answers.ruggers) (λ ruggers.
          and_then (get_apy_calculators f64 out_of_range answers.apy_infos) (λ apy_calculators.
            and_then
              (load_dc_concentration_stats f64 show out_of_range answers.validators
                answers.validators_at 1)
              (λ stats. and_then answers.rows (λ rows.
                and_then
                  (or_error joined (
                    add_rows f64 show clock.at_row last_epoch ruggers apy_calculators
                      (first_entry stats) rows []))
                  (λ records. and_then (get_last_epoch answers.validators_later) (λ last.
                    and_then (computed (or_default 0 last) records) (λ finished.
                      and_then (load_incidents out_of_range answers.incidents) (λ incidents.
                        ok (attach unique_delegators incidents take_rates finished)))))))))

    abbrev pub load_at : Option ℕ → Result E (Validators f64.Float)
    load_at none = ok []
    load_at (some last_epoch) = load_from last_epoch

    unfoldable pub load_validators : Result E (Validators f64.Float)
    unfolding load_from
    load_validators = and_then (get_last_epoch answers.validators) load_at
