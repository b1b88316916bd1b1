-- ===== src/Store/Load/Loop/Steps.antt =====
-- The loop over the rows, seen from one vote account.
use delegation_strategy.Prelude.{
  ℤ, ℕ, ◌≡◌, refl, sym, ap, subst, ◌∙◌, String, Option, some, List, [], ◌∷◌, HashMap, get,
  get-update, update, or_default, keep, holds, ◌>>=◌, >>=-eq-some, Each, Each->>=, Each-value,
  if-true, if-false, if_pos, if_neg, string_discrete, DistinctKeys, DistinctKeys-update, F64, arith,
}
use delegation_strategy.Store.Dto.Scalars.{DateTime}
use delegation_strategy.Store.Dto.Validators.{ValidatorRecord, RugInfo}
use delegation_strategy.Store.Dto.Records.{RuggerRecord, DcConcentrationStats}
use delegation_strategy.Store.Ranks.{Validators}
use delegation_strategy.Store.Load.{to_u64, signed_to_u8, in_option}
use delegation_strategy.Store.Load.Yields.{InflationApyCalculator}
use delegation_strategy.Store.Load.Rows.{ValidatorRow, RowNumbers, numbers_of, new_record}
use delegation_strategy.Store.Load.Loop.{rug_of, extend_record, add_row, add_rows}

numbers_of-Each :
    {Float : Type 0} (row : ValidatorRow Float) → Each (λ n. n.epoch ≡ row.epoch) (numbers_of row)
unfolding numbers_of
numbers_of-Each row = Each->>= P (to_u64 row.epoch) _ (λ epoch fits.
    Each->>= P (to_u64 row.first_epoch) _ (λ a e. Each->>= P (to_u64 row.starting_epoch) _ (λ a e.
      Each->>= P (to_u64 row.credits) _ (λ a e. Each->>= P (to_u64 row.leader_slots) _ (λ a e.
        Each->>= P (to_u64 row.blocks_produced) _ (λ a e.
          Each->>= P (in_option signed_to_u8 row.commission_max_observed) _ (λ a e.
            Each->>= P (in_option signed_to_u8 row.commission_min_observed) _ (λ a e.
              Each->>= P (in_option signed_to_u8 row.commission_advertised) _ (λ a e.
                Each->>= P (in_option signed_to_u8 row.commission_effective) _ (λ a e.
                  Each->>= P (in_option to_u64 row.uptime) _ (λ a e.
                    Each->>= P (in_option to_u64 row.downtime) _
                      (λ a e. same row.epoch epoch fits))))))))))))
  where
    P : RowNumbers → Type 0
    P n = n.epoch ≡ row.epoch

    same : (a b : ℕ) → to_u64 a ≡ some b → b ≡ a
    same a b h = ground arith

pub numbers_of-epoch :
    {Float : Type 0} (row : ValidatorRow Float) (n : RowNumbers)
    → numbers_of row ≡ some n
    → n.epoch ≡ row.epoch
numbers_of-epoch row n =
    Each-value (λ m. m.epoch ≡ row.epoch) (numbers_of row) n (numbers_of-Each row)

module _ (f64 : F64) (show : ℤ → String) (now : ValidatorRow f64.Float → DateTime) (last_epoch : ℕ)
    (ruggers : HashMap String RuggerRecord)
    (apy_calculators : HashMap ℕ (InflationApyCalculator f64))
    (concentrations : Option (DcConcentrationStats f64.Float)) where
  abbrev pub rows_of : String → List (ValidatorRow f64.Float) → List (ValidatorRow f64.Float)
  rows_of va = keep (λ r. holds (string_discrete r.vote_account va))

  -- The loop over the rows of one vote account.
  abbrev pub entry_from :
      List (ValidatorRow f64.Float)
      → Option (ValidatorRecord f64.Float)
      → Option (Option (ValidatorRecord f64.Float))
  entry_from [] o = some o
  entry_from (row ∷ rows) o = numbers_of row >>= λ n.
      rug_of f64 show now last_epoch ruggers apy_calculators concentrations
        (get string_discrete row.vote_account ruggers)
      >>= λ rug. entry_from rows (
          some (
            extend_record f64 show now last_epoch ruggers apy_calculators concentrations row n rug (
              or_default
                (new_record f64 show now last_epoch ruggers apy_calculators concentrations row n)
                o)))

  -- A row that converts.
  abbrev pub extended :
      ValidatorRow f64.Float
      → RowNumbers
      → Option (ℕ × List RugInfo)
      → Option (ValidatorRecord f64.Float)
      → ValidatorRecord f64.Float
  extended row n rug o =
      extend_record f64 show now last_epoch ruggers apy_calculators concentrations row n rug (
        or_default (new_record f64 show now last_epoch ruggers apy_calculators concentrations row n)
          o)

  pub entry_from-step :
      (row : ValidatorRow f64.Float) (rows : List (ValidatorRow f64.Float)) (n : RowNumbers)
      (rug : Option (ℕ × List RugInfo)) (o : Option (ValidatorRecord f64.Float))
      → numbers_of row ≡ some n
      → rug_of f64 show now last_epoch ruggers apy_calculators concentrations
          (get string_discrete row.vote_account ruggers)
        ≡ some rug
      → entry_from (row ∷ rows) o ≡ entry_from rows (some (extended row n rug o))
  entry_from-step row rows n rug o p q = rw (p, q) refl

  -- The map after a row that converts.
  abbrev pub put :
      ValidatorRow f64.Float
      → RowNumbers
      → Option (ℕ × List RugInfo)
      → Validators f64.Float
      → Validators f64.Float
  put row n rug =
      update string_discrete row.vote_account
        (new_record f64 show now last_epoch ruggers apy_calculators concentrations row n)
        (extend_record f64 show now last_epoch ruggers apy_calculators concentrations row n rug)

  pub entry_from-put :
      (va : String) (row : ValidatorRow f64.Float) (rows : List (ValidatorRow f64.Float))
      (m : Validators f64.Float) (n : RowNumbers) (rug : Option (ℕ × List RugInfo))
      → numbers_of row ≡ some n
      → rug_of f64 show now last_epoch ruggers apy_calculators concentrations
          (get string_discrete row.vote_account ruggers)
        ≡ some rug
      → entry_from (rows_of va (row ∷ rows)) (get string_discrete va m)
        ≡ entry_from (rows_of va rows) (get string_discrete va (put row n rug m))
  entry_from-put va row rows m n rug p q =
      let found =
        get-update string_discrete row.vote_account va
          (new_record f64 show now last_epoch ruggers apy_calculators concentrations row n)
          (extend_record f64 show now last_epoch ruggers apy_calculators concentrations row n rug)
          m in
      elim (string_discrete row.vote_account va) [
        | yes e ↦
            ap (λ l. entry_from l (get string_discrete va m))
              (if-true (holds (string_discrete row.vote_account va)) (row ∷ rows_of va rows)
                (rows_of va rows) (ground (arith, e)))
            ∙ entry_from-step row (rows_of va rows) n rug (get string_discrete va m) p q
            ∙ ap (entry_from (rows_of va rows)) (
                sym (
                  found
                  ∙ if_pos (string_discrete row.vote_account va) e _ _
                  ∙ ap (λ i. some (extended row n rug (get string_discrete i m))) e))
        | no e ↦
            ap (λ l. entry_from l (get string_discrete va m))
              (if-false (holds (string_discrete row.vote_account va)) (row ∷ rows_of va rows)
                (rows_of va rows) (ground (arith, e)))
            ∙ ap (entry_from (rows_of va rows)) (
                sym (
                  found
                  ∙ if_neg (string_discrete row.vote_account va) e
                      (some (extended row n rug (get string_discrete row.vote_account m))) _))
      ]

  -- Of all rows, those of a vote account make its entry.
  pub add_rows-entry_from :
      (va : String) (rows : List (ValidatorRow f64.Float)) (m m' : Validators f64.Float)
      → add_rows f64 show now last_epoch ruggers apy_calculators concentrations rows m ≡ some m'
      → entry_from (rows_of va rows) (get string_discrete va m) ≡ some (get string_discrete va m')
  unfolding add_rows add_row
  add_rows-entry_from va [] m m' h = cc
  add_rows-entry_from va (row ∷ rows) m m' h =
      let (m1, added, rest) =
        >>=-eq-some (add_row f64 show now last_epoch ruggers apy_calculators concentrations row m) _
          h in
      let (n, n_ok, added1) = >>=-eq-some (numbers_of row) _ added in
      let (rug, rug_ok, added2) =
        >>=-eq-some
          (rug_of f64 show now last_epoch ruggers apy_calculators concentrations
            (get string_discrete row.vote_account ruggers))
          _ added1 in
      entry_from-put va row rows m n rug n_ok rug_ok
      ∙ add_rows-entry_from va rows (put row n rug m) m' (
          subst
            (λ o.
              (o >>= add_rows f64 show now last_epoch ruggers apy_calculators concentrations rows)
              ≡ some m')
            (sym added2) rest)

  -- The keys stay distinct.
  pub add_rows-DistinctKeys :
      (rows : List (ValidatorRow f64.Float)) (m m' : Validators f64.Float)
      → add_rows f64 show now last_epoch ruggers apy_calculators concentrations rows m ≡ some m'
      → DistinctKeys string_discrete m
      → DistinctKeys string_discrete m'
  unfolding add_rows add_row
  add_rows-DistinctKeys [] m m' h d = subst (λ o. DistinctKeys string_discrete (or_default m o)) h d
  add_rows-DistinctKeys (row ∷ rows) m m' h d =
      let (m1, added, rest) =
        >>=-eq-some (add_row f64 show now last_epoch ruggers apy_calculators concentrations row m) _
          h in
      let (n, n_ok, added1) = >>=-eq-some (numbers_of row) _ added in
      let (rug, rug_ok, added2) =
        >>=-eq-some
          (rug_of f64 show now last_epoch ruggers apy_calculators concentrations
            (get string_discrete row.vote_account ruggers))
          _ added1 in
      add_rows-DistinctKeys rows (put row n rug m) m'
        (subst
          (λ o.
            (o >>= add_rows f64 show now last_epoch ruggers apy_calculators concentrations rows)
            ≡ some m')
          (sym added2) rest)
        (DistinctKeys-update string_discrete row.vote_account _ _ m d)
