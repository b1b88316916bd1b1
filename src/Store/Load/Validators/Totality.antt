-- ===== src/Store/Load/Validators/Totality.antt =====
-- Once everything is read, nothing panics.
use delegation_strategy.Prelude.{
  ℤ, ℕ, ◌≡◌, refl, ap, ◌∙◌, String, Option, some, inl, inr, List, [], HashMap, string_discrete,
  DistinctKeys, DistinctKeys-map, Each-value, F64, All,
}
use delegation_strategy.Store.Query.{ok, and_then-ok}
use delegation_strategy.Store.Dto.Validators.{ValidatorEpochStats, IncidentRecord}
use delegation_strategy.Store.Dto.Records.{DcConcentrationStats, RuggerRecord}
use delegation_strategy.Store.Ranks.{Validators, update_validators_ranks}
use delegation_strategy.Store.Ranks.Totality.{update_validators_ranks-total}
use delegation_strategy.Store.Ranks.Keys.{update_validators_ranks-DistinctKeys}
use delegation_strategy.Store.Averages.{
  with_avgs, update_validators_with_avgs, update_with_warnings,
}
use delegation_strategy.Store.Load.{get_last_epoch, first_of, or_error}
use delegation_strategy.Store.Load.Yields.{InflationApyCalculator, ApyInfoRow, get_apy_calculators}
use delegation_strategy.Store.Load.Concentrations.{load_dc_concentration_stats}
use delegation_strategy.Store.Load.Grouped.{IncidentRow, RuggerRow, load_incidents, load_ruggers}
use delegation_strategy.Store.Load.Rows.{ValidatorRow}
use delegation_strategy.Store.Load.Fits.{
  RuggerFits, IncidentFits, ApyInfoFits, StakesFit, last_epoch_in, get_last_epoch-ok,
  load_ruggers-total, load_incidents-total, get_apy_calculators-total,
  load_dc_concentration_stats-total,
}
use delegation_strategy.Store.Load.Loop.Totality.{RowFits, add_rows-total}
use delegation_strategy.Store.Dto.Rows.{Validator}
use delegation_strategy.Store.Load.Loop.{add_rows}
use delegation_strategy.Store.Load.Loop.Steps.{add_rows-DistinctKeys}
use delegation_strategy.Store.Load.Scores.{update_validators_with_scores}
use delegation_strategy.Store.Load.Scores.Written.{
  scored_by, update_validators_with_scores-IsScored,
}
use delegation_strategy.Store.Load.Validators.{
  first_entry, by_stake, set_rank_stake, by_score, set_rank_score, by_apy, set_rank_apy, attach,
  Answers, Clock, computed, load_from, load_validators,
}

ranked-total :
    {Float : Type 0} (rank_updater : ValidatorEpochStats Float → ℕ → ValidatorEpochStats Float)
    (field_extractor : ValidatorEpochStats Float → ℕ) (vs : Validators Float)
    → ((s : ValidatorEpochStats Float) (r : ℕ) → (rank_updater s r).epoch ≡ s.epoch)
    → DistinctKeys string_discrete vs
    → (vs' : Validators Float) × (update_validators_ranks rank_updater field_extractor vs
        ≡ some vs')
      × DistinctKeys string_discrete vs'
ranked-total rank_updater field_extractor vs same_epoch d =
    let (vs', e) = update_validators_ranks-total rank_updater field_extractor vs same_epoch d in
    (
      vs',
      e,
      Each-value (DistinctKeys string_discrete) _ vs'
          (update_validators_ranks-DistinctKeys rank_updater field_extractor vs d) e,
    )

scored-total :
    {Float : Type 0} (service : ℕ → Option (List (String × Float))) (first last : ℕ)
    (vs : Validators Float)
    → DistinctKeys string_discrete vs
    → (vs' : Validators Float) × (update_validators_with_scores service first last vs ≡ some vs')
      × DistinctKeys string_discrete vs'
scored-total service first last vs d =
    elim (update_validators_with_scores-IsScored service first last vs) [
      | inl unchanged ↦ (vs, unchanged.1, d)
      | inr (e, latest, _, written) ↦
          (_, written, DistinctKeys-map string_discrete (scored_by service first last latest) vs d)
    ]

module _ (f64 : F64) {E : Type 0} (out_of_range joined panicked : E) (show : ℤ → String)
    (clock : Clock f64) (answers : Answers f64 E) (service : ℕ → Option (List (String × f64.Float)))
    (display_epochs computing_epochs : ℕ) (unique_delegators : HashMap String ℕ)
    (take_rates : HashMap String f64.Float) where
  computed-total :
      (last_epoch : ℕ) (records : Validators f64.Float)
      → DistinctKeys string_discrete records
      → (finished : Validators f64.Float) × (computed f64 out_of_range joined panicked show clock
            answers service display_epochs computing_epochs unique_delegators take_rates last_epoch
            records
          ≡ ok finished)
  unfolding computed update_validators_with_avgs
  computed-total last_epoch records d =
      let first_epoch = first_of last_epoch computing_epochs in
      let (scored, e0, d0) =
        scored-total service (first_of last_epoch display_epochs) last_epoch records d in
      let averaged = update_validators_with_avgs f64 first_epoch last_epoch scored in
      let d1 = DistinctKeys-map string_discrete (with_avgs f64 first_epoch last_epoch) scored d0 in
      let (by_stakes, e2, d2) =
        ranked-total (set_rank_stake f64) (by_stake f64) averaged (λ s r. refl) d1 in
      let (by_scores, e3, d3) =
        ranked-total (set_rank_score f64) (by_score f64) by_stakes (λ s r. refl) d2 in
      let (ranked, e4, d4) =
        ranked-total (set_rank_apy f64) (by_apy f64) by_scores (λ s r. refl) d3 in
      (update_with_warnings f64 first_epoch last_epoch ranked, rw (e0, e2, e3, e4) refl)

  -- The stages one after the other.
  load_validators-stages :
      (last_epoch later_epoch : ℕ) (ruggers : HashMap String RuggerRecord)
      (calculators : HashMap ℕ (InflationApyCalculator f64))
      (stats : List (DcConcentrationStats f64.Float)) (rows : List (ValidatorRow f64.Float))
      (records : Validators f64.Float) (incidents : HashMap String (List IncidentRecord))
      → get_last_epoch answers.validators ≡ ok (some last_epoch)
      → load_ruggers out_of_range clock.at_rugger answers.ruggers ≡ ok ruggers
      → get_apy_calculators f64 out_of_range answers.apy_infos ≡ ok calculators
      → load_dc_concentration_stats f64 show out_of_range answers.validators answers.validators_at 1
        ≡ ok stats
      → answers.rows ≡ ok rows
      → add_rows f64 show clock.at_row last_epoch ruggers calculators (first_entry stats) rows []
        ≡ some records
      → get_last_epoch answers.validators_later ≡ ok (some later_epoch)
      → load_incidents out_of_range answers.incidents ≡ ok incidents
      → (finished : Validators f64.Float) × (computed f64 out_of_range joined panicked show clock
            answers service display_epochs computing_epochs unique_delegators take_rates later_epoch
            records
          ≡ ok finished)
        × (load_validators f64 out_of_range joined panicked show clock answers service
              display_epochs computing_epochs unique_delegators take_rates
            ≡ ok (attach f64 unique_delegators incidents take_rates finished))
  unfolding load_validators load_from
  load_validators-stages last_epoch later_epoch ruggers calculators stats rows records incidents h0
        h1 h2 h3 h4 h5 h7 h6 =
      let d =
        add_rows-DistinctKeys f64 show clock.at_row last_epoch ruggers calculators
          (first_entry stats) rows [] records h5 tt in
      let (finished, e) = computed-total later_epoch records d in
      (
        finished,
        e,
        and_then-ok _ _ (some last_epoch) h0
            ∙ and_then-ok _ _ ruggers h1
            ∙ and_then-ok _ _ calculators h2
            ∙ and_then-ok _ _ stats h3
            ∙ and_then-ok _ _ rows h4
            ∙ and_then-ok _ _ records (ap (or_error joined) h5)
            ∙ and_then-ok _ _ (some later_epoch) h7
            ∙ and_then-ok _ _ finished e
            ∙ and_then-ok _ _ incidents h6,
      )

  -- If the queries succeed, the numbers of their rows are in the ranges that the code converts them to,
  -- no count is negative, and a rugger's three lists are of one length, then `load_validators` succeeds:
  -- no loader fails, and no `unwrap` or index of the loop over the rows, of the scores or of the ranks
  -- panics, whatever the scoring service answers. What it returns are the records of the loop, as computed
  -- for the epoch that is the last one after the loop, with the delegators, the incidents and the take
  -- rates attached.
  pub load_validators-total :
      (table later : List (Validator f64.Float)) (rugger_rows : List RuggerRow)
      (infos : List (ApyInfoRow f64)) (rows : List (ValidatorRow f64.Float))
      (incident_rows : List IncidentRow)
      → answers.validators ≡ ok table
      → answers.validators_later ≡ ok later
      → answers.ruggers ≡ ok rugger_rows
      → All RuggerFits rugger_rows
      → answers.apy_infos ≡ ok infos
      → All (ApyInfoFits f64 out_of_range) infos
      → ((epoch : ℕ) → StakesFit f64 out_of_range (answers.validators_at epoch))
      → answers.rows ≡ ok rows
      → All (RowFits f64.Float) rows
      → answers.incidents ≡ ok incident_rows
      → All IncidentFits incident_rows
      → (ruggers : HashMap String RuggerRecord) × (calculators : HashMap ℕ
          (InflationApyCalculator f64))
        × (stats : List (DcConcentrationStats f64.Float)) × (records : Validators f64.Float)
        × (incidents : HashMap String (List IncidentRecord)) × (finished : Validators f64.Float)
        × (load_ruggers out_of_range clock.at_rugger answers.ruggers ≡ ok ruggers)
        × (get_apy_calculators f64 out_of_range answers.apy_infos ≡ ok calculators)
        × (load_dc_concentration_stats f64 show out_of_range answers.validators
              answers.validators_at 1
            ≡ ok stats)
        × (add_rows f64 show clock.at_row
              (last_epoch_in table)
              ruggers
              calculators
              (first_entry stats)
              rows
              []
            ≡ some records)
        × (load_incidents out_of_range answers.incidents ≡ ok incidents)
        × (computed f64 out_of_range joined panicked show clock answers service display_epochs
              computing_epochs unique_delegators take_rates
              (last_epoch_in later)
              records
            ≡ ok finished)
        × (load_validators f64 out_of_range joined panicked show clock answers service
              display_epochs computing_epochs unique_delegators take_rates
            ≡ ok (attach f64 unique_delegators incidents take_rates finished))
  load_validators-total table later rugger_rows infos rows incident_rows h0 h7 h1 f1 h2 f2 f3 h4 f4
        h6 f6 =
      let (ruggers, e1, indexed) =
        load_ruggers-total out_of_range clock.at_rugger answers.ruggers rugger_rows h1 f1 in
      let (calculators, e2) =
        get_apy_calculators-total f64 out_of_range answers.apy_infos infos h2 f2 in
      let (stats, e3) =
        load_dc_concentration_stats-total f64 out_of_range show answers.validators table
          answers.validators_at 1 h0 f3 in
      let (records, e5) =
        add_rows-total f64 show clock.at_row (last_epoch_in table) ruggers calculators
          (first_entry stats) indexed rows [] f4 in
      let (incidents, e6) =
        load_incidents-total out_of_range answers.incidents incident_rows h6 f6 in
      let (finished, done, all) =
        load_validators-stages (last_epoch_in table) (last_epoch_in later) ruggers calculators stats
          rows records incidents (get_last_epoch-ok answers.validators table h0) e1 e2 e3 h4 e5
          (get_last_epoch-ok answers.validators_later later h7) e6 in
      (ruggers, calculators, stats, records, incidents, finished, e1, e2, e3, e5, e6, done, all)
