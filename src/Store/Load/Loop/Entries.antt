-- ===== src/Store/Load/Loop/Entries.antt =====
-- What the loop over the rows leaves under a vote account.
use delegation_strategy.Prelude.{
  ℤ, ℕ, ◌≡◌, refl, sym, ap, ◌∙◌, String, Bool, ◌||◌, Option, none, some, List, [], ◌∷◌, ◌++◌,
  append-nil, append_assoc, HashMap, get, any, ◌==◌, ◌>>=◌, >>=-eq-some, string_discrete, F64,
  arith,
}
use delegation_strategy.Store.Dto.Scalars.{DateTime}
use delegation_strategy.Store.Dto.Validators.{ValidatorEpochStats, ValidatorRecord, RugInfo}
use delegation_strategy.Store.Dto.Records.{RuggerRecord, DcConcentrationStats}
use delegation_strategy.Store.Ranks.{Validators}
use delegation_strategy.Store.Load.Yields.{InflationApyCalculator}
use delegation_strategy.Store.Load.Rows.{ValidatorRow, RowNumbers, numbers_of, new_record}
use delegation_strategy.Store.Load.Loop.{epoch_stats_of, rug_of, extend_record, add_rows}
use delegation_strategy.Store.Load.Loop.Steps.{
  numbers_of-epoch, rows_of, entry_from, extended, entry_from-step, add_rows-entry_from,
}

module _ (f64 : F64) (show : ℤ → String) (now : ValidatorRow f64.Float → DateTime) (last_epoch : ℕ)
    (ruggers : HashMap String RuggerRecord)
    (apy_calculators : HashMap ℕ (InflationApyCalculator f64))
    (concentrations : Option (DcConcentrationStats f64.Float)) where
  -- The statistics of all rows, if all convert.
  abbrev pub all_stats :
      List (ValidatorRow f64.Float) → Option (List (ValidatorEpochStats f64.Float))
  all_stats [] = some []
  all_stats (row ∷ rows) = numbers_of row >>= λ n. all_stats rows >>= λ stats.
      some (
        epoch_stats_of f64 show now last_epoch ruggers apy_calculators concentrations row n ∷ stats)

  abbrev pub is_last : ValidatorRow f64.Float → Bool
  is_last row = last_epoch == row.epoch

  -- What the rows of a vote account add to a record.
  abbrev IsExtended :
      ValidatorRecord f64.Float → List (ValidatorRow f64.Float) → ValidatorRecord f64.Float → Type 0
  IsExtended v rows v' =
      (v'.identity ≡ v.identity)
      × (v'.vote_account ≡ v.vote_account)
      × (v'.has_last_epoch_stats ≡ (v.has_last_epoch_stats || any is_last rows))
      × ((stats : List (ValidatorEpochStats f64.Float)) × (all_stats rows ≡ some stats)
          × (v'.epoch_stats ≡ v.epoch_stats ++ stats))

  IsExtended-one :
      (row : ValidatorRow f64.Float) (n : RowNumbers) (rug : Option (ℕ × List RugInfo))
      (v : ValidatorRecord f64.Float)
      → n.epoch ≡ row.epoch
      → ((extended f64 show now last_epoch ruggers apy_calculators concentrations row n rug
            (some v)).identity
          ≡ v.identity)
        × ((extended f64 show now last_epoch ruggers apy_calculators concentrations row n rug
              (some v)).vote_account
            ≡ v.vote_account)
        × ((extended f64 show now last_epoch ruggers apy_calculators concentrations row n rug
              (some v)).has_last_epoch_stats
            ≡ (v.has_last_epoch_stats || is_last row))
        × ((extended f64 show now last_epoch ruggers apy_calculators concentrations row n rug
              (some v)).epoch_stats
            ≡ v.epoch_stats
              ++ epoch_stats_of f64 show now last_epoch ruggers apy_calculators concentrations row n
                ∷ [])
  unfolding extend_record
  IsExtended-one row n none v e = (refl, refl, ground (arith, e), refl)
  IsExtended-one row n (some rug) v e = (refl, refl, ground (arith, e), refl)

  entry_from-IsExtended :
      (rows : List (ValidatorRow f64.Float)) (v : ValidatorRecord f64.Float)
      (o : Option (ValidatorRecord f64.Float))
      → entry_from f64 show now last_epoch ruggers apy_calculators concentrations rows (some v)
        ≡ some o
      → (v' : ValidatorRecord f64.Float) × (o ≡ some v') × IsExtended v rows v'
  entry_from-IsExtended [] v o h =
      (v, sym (same h), (refl, refl, ground arith, ([], refl, sym (append-nil v.epoch_stats))))
    where
      same : some (some v) ≡ some o → some v ≡ o
      same e = cc
  entry_from-IsExtended (row ∷ rows) v o h =
      let (n, n_ok, h1) = >>=-eq-some (numbers_of row) _ h in
      let (rug, rug_ok, h2) =
        >>=-eq-some
          (rug_of f64 show now last_epoch ruggers apy_calculators concentrations
            (get string_discrete row.vote_account ruggers))
          _ h1 in
      let (v', found, (id, va, last, (stats, s1, s2))) =
        entry_from-IsExtended rows
          (extended f64 show now last_epoch ruggers apy_calculators concentrations row n rug
            (some v))
          o h2 in
      let (id1, va1, last1, stats1) = IsExtended-one row n rug v (numbers_of-epoch row n n_ok) in
      let new =
        epoch_stats_of f64 show now last_epoch ruggers apy_calculators concentrations row n in
      (
        v',
        found,
        (
          id ∙ id1,
          va ∙ va1,
          ground (arith, last, last1),
          (
            new ∷ stats,
            rw (n_ok, s1) refl,
            s2 ∙ ap (λ l. l ++ stats) stats1 ∙ append_assoc v.epoch_stats (new ∷ []) stats,
          ),
        ),
      )

  -- What a vote account's entry is, by its rows.
  abbrev pub IsEntry :
      String → List (ValidatorRow f64.Float) → Option (ValidatorRecord f64.Float) → Type 0
  IsEntry va [] o = o ≡ none
  IsEntry va (row ∷ rows) o =
      (v : ValidatorRecord f64.Float) × (o ≡ some v)
      × (v.identity ≡ row.identity)
      × (v.vote_account ≡ row.vote_account)
      × (v.has_last_epoch_stats ≡ any is_last (row ∷ rows))
      × (all_stats (row ∷ rows) ≡ some v.epoch_stats)

  entry_from-IsEntry :
      (va : String) (rows : List (ValidatorRow f64.Float)) (o : Option (ValidatorRecord f64.Float))
      → entry_from f64 show now last_epoch ruggers apy_calculators concentrations rows none ≡ some o
      → IsEntry va rows o
  unfolding new_record
  entry_from-IsEntry va [] o h = cc
  entry_from-IsEntry va (row ∷ rows) o h =
      let (n, n_ok, h1) = >>=-eq-some (numbers_of row) _ h in
      let fresh = new_record f64 show now last_epoch ruggers apy_calculators concentrations row n in
      let (rug, rug_ok, _) =
        >>=-eq-some
          (rug_of f64 show now last_epoch ruggers apy_calculators concentrations
            (get string_discrete row.vote_account ruggers))
          _ h1 in
      let (v', found, (id, va', last, (stats, s1, s2))) =
        entry_from-IsExtended (row ∷ rows) fresh o (
          entry_from-step f64 show now last_epoch ruggers apy_calculators concentrations row rows n
            rug (some fresh) n_ok rug_ok
          ∙ sym (
              entry_from-step f64 show now last_epoch ruggers apy_calculators concentrations row
                rows n rug none n_ok rug_ok)
          ∙ h) in
      (v', found, id, va', last, s1 ∙ ap some (sym s2))

  -- When the loop over the rows succeeds, a vote account has an entry exactly if it has rows: the entry
  -- has the identity of the first of them, the statistics of exactly its rows, in the order of the
  -- query, and is marked as having the last epoch exactly if one of its rows is of that epoch.
  pub add_rows-IsEntry :
      (va : String) (rows : List (ValidatorRow f64.Float)) (records : Validators f64.Float)
      → add_rows f64 show now last_epoch ruggers apy_calculators concentrations rows []
        ≡ some records
      → IsEntry va
          (rows_of f64 show now last_epoch ruggers apy_calculators concentrations va rows)
          (get string_discrete va records)
  unfolding get
  add_rows-IsEntry va rows records h =
      entry_from-IsEntry va
        (rows_of f64 show now last_epoch ruggers apy_calculators concentrations va rows)
        (get string_discrete va records)
        (add_rows-entry_from f64 show now last_epoch ruggers apy_calculators concentrations va rows
          [] records h)
