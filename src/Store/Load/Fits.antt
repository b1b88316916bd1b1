-- ===== src/Store/Load/Fits.antt =====
-- store/src/utils.rs: rows with which the loaders that `load_validators` calls succeed.
use delegation_strategy.Prelude.{
  ℤ, pos, negsuc, ℕ, zero, suc, ◌+◌, ◌-◌, ◌<◌, ◌≡◌, refl, ◌∙◌, String, some, List, [], ◌∷◌, ◌++◌,
  HashMap, map, update, insert, or_default, string_discrete, ℕ_discrete, All, All-insert, length,
  length-map, u64_mod, F64, arith,
}
use delegation_strategy.Store.Query.{Result, ok, and_then-ok}
use delegation_strategy.Store.Dto.Scalars.{DateTime}
use delegation_strategy.Store.Dto.Rows.{Validator}
use delegation_strategy.Store.Dto.Validators.{IncidentRecord}
use delegation_strategy.Store.Dto.Records.{DcConcentrationStats, RuggerRecord}
use delegation_strategy.Store.Load.{
  to_u64, signed_to_u64, or_error, get_last_epoch, first_of, max_epoch,
}
use delegation_strategy.Store.Load.Yields.{
  InflationApyCalculator, ApyInfoRow, insert_calculators, get_apy_calculators,
}
use delegation_strategy.Store.Load.Concentrations.{
  Stakes, no_stakes, add_row, add_rows, epochs_down, load_dc_concentration_stats, stats_of,
}
use delegation_strategy.Store.Load.Grouped.{
  as_u64, group_rows, IncidentRow, RuggerRow, incident_of, load_incidents, insert_ruggers,
  load_ruggers,
}
use delegation_strategy.Store.Load.Loop.Totality.{IsIndexed}

abbrev pub IsNatural : ℤ → Type 0
IsNatural (pos n) = Unit
IsNatural (negsuc n) = ⊥

-- The events are counted, and the three lists are of one length, as those are that one GROUP BY
-- aggregates.
abbrev pub RuggerFits : RuggerRow → Type 0
RuggerFits r =
    IsNatural r.events_count
    × (length r.commission_observed_values ≡ length r.epochs)
    × (length r.commission_min_observed_values ≡ length r.epochs)

abbrev pub IncidentFits : IncidentRow → Type 0
IncidentFits r = (r.epoch < u64_mod) × IsNatural r.downtime_seconds

-- The epoch that `get_last_epoch` finds.
abbrev pub last_epoch_in : {Float : Type 0} → List (Validator Float) → ℕ
last_epoch_in rows = or_default 0 (to_u64 (max_epoch rows))

pub get_last_epoch-ok :
    {Float E : Type 0} (table : Result E (List (Validator Float))) (rows : List (Validator Float))
    → table ≡ ok rows
    → get_last_epoch table ≡ ok (some (last_epoch_in rows))
unfolding get_last_epoch
get_last_epoch-ok table rows h = and_then-ok table _ rows h

module _ {E : Type 0} (out_of_range : E) where
  u64-ok : (n : ℕ) → n < u64_mod → or_error out_of_range (to_u64 n) ≡ ok n
  u64-ok n h = ground arith

  signed-ok : (n : ℤ) → IsNatural n → (m : ℕ) × (or_error out_of_range (signed_to_u64 n) ≡ ok m)
  signed-ok (pos n) h = (n, refl)
  signed-ok (negsuc n) h = absurd h

  insert_ruggers-total :
      (now : RuggerRow → DateTime) (rows : List RuggerRow) (m : HashMap String RuggerRecord)
      → All RuggerFits rows
      → All (λ e. IsIndexed e.1) m
      → (m' : HashMap String RuggerRecord) × (insert_ruggers out_of_range now rows m ≡ ok m')
        × All (λ e. IsIndexed e.1) m'
  unfolding insert_ruggers
  insert_ruggers-total now [] m h k = (m, refl, k)
  insert_ruggers-total now (row ∷ rows) m h k =
      let (occurrences, e) = signed-ok row.events_count h.0.0 in
      let new : RuggerRecord = record {
        epochs = map (λ e. or_default 0 (to_u64 e)) row.epochs;
        occurrences = occurrences;
        observed_commissions = map as_u64 row.commission_observed_values;
        min_commissions = map as_u64 row.commission_min_observed_values;
        created_at = now row;
      } in
      let epochs = length-map (λ (e : ℕ). or_default 0 (to_u64 e)) row.epochs in
      let observed = length-map as_u64 row.commission_observed_values in
      let mins = length-map as_u64 row.commission_min_observed_values in
      let indexed : IsIndexed new =
        (omega (arith, epochs, observed, h.0.1), omega (arith, epochs, mins, h.0.2)) in
      let (m', f, all) =
        insert_ruggers-total now rows (insert string_discrete row.vote_account new m) h.1
          (All-insert string_discrete (λ e. IsIndexed e.1) row.vote_account new m indexed k) in
      (m', and_then-ok _ _ occurrences e ∙ f, all)

  pub load_ruggers-total :
      (now : RuggerRow → DateTime) (answer : Result E (List RuggerRow)) (rows : List RuggerRow)
      → answer ≡ ok rows
      → All RuggerFits rows
      → (m : HashMap String RuggerRecord) × (load_ruggers out_of_range now answer ≡ ok m)
        × All (λ e. IsIndexed e.1) m
  unfolding load_ruggers
  load_ruggers-total now answer rows h k =
      let (m, e, all) = insert_ruggers-total now rows [] k tt in
      (m, and_then-ok answer _ rows h ∙ e, all)

  incident_of-total :
      (row : IncidentRow)
      → IncidentFits row
      → (a : IncidentRecord) × (incident_of out_of_range row ≡ ok a)
  unfolding incident_of
  incident_of-total row h =
      let (n, e) = signed-ok row.downtime_seconds h.1 in
      (_, and_then-ok _ _ row.epoch (u64-ok row.epoch h.0) ∙ and_then-ok _ _ n e)

  group_incidents-total :
      (rows : List IncidentRow) (m : HashMap String (List IncidentRecord))
      → All IncidentFits rows
      → (m' : HashMap String (List IncidentRecord)) × (group_rows
            (λ r. r.vote_account)
            (incident_of out_of_range)
            rows
            m
          ≡ ok m')
  unfolding group_rows
  group_incidents-total [] m h = (m, refl)
  group_incidents-total (row ∷ rows) m h =
      let (a, e) = incident_of-total row h.0 in
      let (m', f) =
        group_incidents-total rows (update string_discrete row.vote_account [] (λ l. l ++ a ∷ []) m)
          h.1 in
      (m', and_then-ok _ _ a e ∙ f)

  pub load_incidents-total :
      (answer : Result E (List IncidentRow)) (rows : List IncidentRow)
      → answer ≡ ok rows
      → All IncidentFits rows
      → (m : HashMap String (List IncidentRecord)) × (load_incidents out_of_range answer ≡ ok m)
  unfolding load_incidents
  load_incidents-total answer rows h k =
      let (m, e) = group_incidents-total rows [] k in (m, and_then-ok answer _ rows h ∙ e)

module _ (f64 : F64) {E : Type 0} (out_of_range : E) where
  abbrev pub ApyInfoFits : ApyInfoRow f64 → Type 0
  ApyInfoFits r = (r.epoch < u64_mod) × (r.supply < u64_mod)

  -- The query of an epoch succeeds, and its stakes fit.
  abbrev pub StakesFit : Result E (List (Validator f64.Float)) → Type 0
  StakesFit answer =
      (rows : List (Validator f64.Float)) × (answer ≡ ok rows)
      × All (λ v. v.activated_stake < u64_mod) rows

  insert_calculators-total :
      (rows : List (ApyInfoRow f64)) (m : HashMap ℕ (InflationApyCalculator f64))
      → All ApyInfoFits rows
      → (m' : HashMap ℕ (InflationApyCalculator f64)) × (insert_calculators f64 out_of_range rows m
          ≡ ok m')
  unfolding insert_calculators
  insert_calculators-total [] m h = (m, refl)
  insert_calculators-total (row ∷ rows) m h =
      let (m', e) =
        insert_calculators-total rows
          (insert ℕ_discrete row.epoch
            (record {
              supply = row.supply;
              duration = row.duration;
              inflation = row.inflation;
              total_weighted_credits = row.total_weighted_credits;
            })
            m)
          h.1 in
      (
        m',
        and_then-ok _ _ row.epoch (u64-ok out_of_range row.epoch h.0.0)
            ∙ and_then-ok _ _ row.supply (u64-ok out_of_range row.supply h.0.1)
            ∙ e,
      )

  pub get_apy_calculators-total :
      (answer : Result E (List (ApyInfoRow f64))) (rows : List (ApyInfoRow f64))
      → answer ≡ ok rows
      → All ApyInfoFits rows
      → (m : HashMap ℕ (InflationApyCalculator f64)) × (get_apy_calculators f64 out_of_range answer
          ≡ ok m)
  unfolding get_apy_calculators
  get_apy_calculators-total answer rows h k =
      let (m, e) = insert_calculators-total rows [] k in (m, and_then-ok answer _ rows h ∙ e)

  module _ (show : ℤ → String) where
    add_rows-total :
        (rows : List (Validator f64.Float)) (s : Stakes)
        → All (λ v. v.activated_stake < u64_mod) rows
        → (s' : Stakes) × (add_rows f64 show out_of_range rows s ≡ ok s')
    unfolding add_rows
    add_rows-total [] s h = (s, refl)
    add_rows-total (v ∷ rows) s h =
        let (s', e) = add_rows-total rows (add_row f64 show v v.activated_stake s) h.1 in
        (s', and_then-ok _ _ v.activated_stake (u64-ok out_of_range v.activated_stake h.0) ∙ e)

    epochs_down-total :
        (rows_at : ℕ → Result E (List (Validator f64.Float))) (first n : ℕ)
        → ((epoch : ℕ) → StakesFit (rows_at epoch))
        → (stats : List (DcConcentrationStats f64.Float)) × (epochs_down f64 show out_of_range
              rows_at first n
            ≡ ok stats)
    unfolding epochs_down
    epochs_down-total rows_at first zero h = ([], refl)
    epochs_down-total rows_at first (suc n) h =
        let (rows, e, fits) = h (first + n) in
        let (stakes, f) = add_rows-total rows no_stakes fits in
        let (later, g) = epochs_down-total rows_at first n h in
        (
          stats_of f64 show (first + n) stakes ∷ later,
          and_then-ok _ _ rows e ∙ and_then-ok _ _ stakes f ∙ and_then-ok _ _ later g,
        )

    pub load_dc_concentration_stats-total :
        (answer : Result E (List (Validator f64.Float))) (table : List (Validator f64.Float))
        (rows_at : ℕ → Result E (List (Validator f64.Float))) (epochs : ℕ)
        → answer ≡ ok table
        → ((epoch : ℕ) → StakesFit (rows_at epoch))
        → (stats : List (DcConcentrationStats f64.Float)) × (load_dc_concentration_stats f64 show
              out_of_range answer rows_at epochs
            ≡ ok stats)
    unfolding load_dc_concentration_stats
    load_dc_concentration_stats-total answer table rows_at epochs h k =
        let last = last_epoch_in table in
        let first = first_of last epochs in
        let (stats, e) = epochs_down-total rows_at first (last + 1 - first) k in
        (stats, and_then-ok _ _ (some last) (get_last_epoch-ok answer table h) ∙ e)
