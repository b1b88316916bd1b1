-- ===== src/Store/Load/Concentrations/Sums.antt =====
-- The stakes by data centre, and the epochs they are given for.
use delegation_strategy.Prelude.{
  ℤ, ℕ, zero, suc, ◌+◌, ◌-◌, ◌%◌, ◌<◌, ◌≡◌, refl, sym, ap, subst, ap₂, ◌∙◌, String, some, List, [],
  ◌∷◌, HashMap, values, map, update, get, get-update, or_default, add_u64, u64_mod, sum, sum_u64,
  min, keep, holds, string_discrete, All, F64, arith,
}
use delegation_strategy.Store.Query.{Result, ok, and_then-eq-ok, ok_injective}
use delegation_strategy.Store.Dto.Rows.{Validator}
use delegation_strategy.Store.Dto.Records.{DcConcentrationStats}
use delegation_strategy.Store.Load.{to_u64, or_error, get_last_epoch, first_of}
use delegation_strategy.Store.Load.Concentrations.{
  add_stake, full_city, Stakes, no_stakes, aso_of, asn_of, country_of, add_row, stats_of, add_rows,
  epochs_down, load_dc_concentration_stats, dc_stats_from,
}

-- Adding a stake under a key adds it to the stakes of all keys.
sum_u64-add_stake :
    (k : String) (x : ℕ) (m : HashMap String ℕ)
    → sum_u64 (values (add_stake k x m)) ≡ add_u64 (sum_u64 (values m)) x
unfolding update sum_u64
sum_u64-add_stake k x [] = omega arith
sum_u64-add_stake k x ((j, v) ∷ m) = ground (arith, sum_u64-add_stake k x m)

module _ {Float : Type 0} (key : Validator Float → String) where
  abbrev pub stakes_by : List (Validator Float) → HashMap String ℕ → HashMap String ℕ
  stakes_by [] m = m
  stakes_by (v ∷ rows) m = stakes_by rows (add_stake (key v) v.activated_stake m)

  -- The stakes of the rows that have a key.
  abbrev pub stakes_with : String → List (Validator Float) → List ℕ
  stakes_with k rows =
      map (λ v. v.activated_stake) (keep (λ v. holds (string_discrete (key v) k)) rows)

  get-stakes_by :
      (k : String) (rows : List (Validator Float)) (m : HashMap String ℕ)
      → or_default 0 (get string_discrete k m) < u64_mod
      → or_default 0 (get string_discrete k (stakes_by rows m))
        ≡ (or_default 0 (get string_discrete k m) + sum (stakes_with k rows)) % u64_mod
  get-stakes_by k [] m h = omega (arith, h)
  get-stakes_by k (v ∷ rows) m h =
      let found = get-update string_discrete (key v) k 0 (λ n. add_u64 n v.activated_stake) m in
      let later =
        get-stakes_by k rows (add_stake (key v) v.activated_stake m) (ground (arith, found)) in
      ground (arith, later, found, moved)
    where
      moved : key v ≡ k → get string_discrete (key v) m ≡ get string_discrete k m
      moved e = ap (λ i. get string_discrete i m) e

  sum_u64-stakes_by :
      (rows : List (Validator Float)) (m : HashMap String ℕ)
      → sum_u64 (values (stakes_by rows m)) % u64_mod
        ≡ (sum_u64 (values m) + sum (map (λ v. v.activated_stake) rows)) % u64_mod
  sum_u64-stakes_by [] m = omega arith
  sum_u64-stakes_by (v ∷ rows) m = omega (
    arith,
    sum_u64-stakes_by rows (add_stake (key v) v.activated_stake m),
    sum_u64-add_stake (key v) v.activated_stake m,
  )

-- The `n` epochs from `first` on, the last one first.
abbrev pub down_to : ℕ → ℕ → List ℕ
down_to first zero = []
down_to first (suc n) = (first + n) ∷ down_to first n

sum_u64-lt : (xs : List ℕ) → sum_u64 xs < u64_mod
unfolding sum_u64
sum_u64-lt [] = omega arith
sum_u64-lt (x ∷ xs) = omega arith

module _ (f64 : F64) (show : ℤ → String) {E : Type 0} (out_of_range : E) where
  -- The totals of all rows, from the given ones on.
  abbrev pub all_stakes : List (Validator f64.Float) → Stakes → Stakes
  all_stakes [] s = s
  all_stakes (v ∷ rows) s = all_stakes rows (add_row f64 show v v.activated_stake s)

  to_u64-eq : (n m : ℕ) → or_error out_of_range (to_u64 n) ≡ ok m → n ≡ m
  to_u64-eq n m e = ground arith

  add_rows-ok :
      (rows : List (Validator f64.Float)) (s s' : Stakes)
      → add_rows f64 show out_of_range rows s ≡ ok s'
      → s' ≡ all_stakes rows s
  unfolding add_rows
  add_rows-ok [] s s' e = cc
  add_rows-ok (v ∷ rows) s s' e =
      let (stake, fits, rest) =
        and_then-eq-ok (or_error out_of_range (to_u64 v.activated_stake)) _ s' e in
      add_rows-ok rows (add_row f64 show v stake s) s' rest
      ∙ ap (λ n. all_stakes rows (add_row f64 show v n s))
          (sym (to_u64-eq v.activated_stake stake fits))

  all_stakes-by :
      (rows : List (Validator f64.Float)) (s : Stakes)
      → all_stakes rows s ≡ record {
        total_active_stake = (all_stakes rows s).total_active_stake;
        by_aso = stakes_by (aso_of f64 show) rows s.by_aso;
        by_asn = stakes_by (asn_of f64 show) rows s.by_asn;
        by_city = stakes_by full_city rows s.by_city;
        by_country = stakes_by (country_of f64 show) rows s.by_country;
      }
  all_stakes-by [] s = refl
  all_stakes-by (v ∷ rows) s = all_stakes-by rows (add_row f64 show v v.activated_stake s)

  all_stakes-total :
      (rows : List (Validator f64.Float)) (s : Stakes)
      → s.total_active_stake < u64_mod
      → (all_stakes rows s).total_active_stake
        ≡ (s.total_active_stake + sum (map (λ v. v.activated_stake) rows)) % u64_mod
  all_stakes-total [] s h = omega (arith, h)
  all_stakes-total (v ∷ rows) s h =
      omega (arith, all_stakes-total rows (add_row f64 show v v.activated_stake s) (omega arith))

  -- The stakes by a key: they sum to the total, and each key has those of its rows.
  abbrev pub IsSplit :
      (Validator f64.Float → String) → List (Validator f64.Float) → ℕ → HashMap String ℕ → Type 0
  IsSplit key rows total stakes =
      (sum_u64 (values stakes) ≡ total)
      × ((k : String)
          → or_default 0 (get string_discrete k stakes) ≡ sum (stakes_with key k rows) % u64_mod)

  abbrev pub IsStatsOf : List (Validator f64.Float) → DcConcentrationStats f64.Float → Type 0
  IsStatsOf rows c =
      (c.total_activated_stake ≡ sum (map (λ v. v.activated_stake) rows) % u64_mod)
      × IsSplit (aso_of f64 show) rows c.total_activated_stake c.dc_stake_by_aso
      × IsSplit (asn_of f64 show) rows c.total_activated_stake c.dc_stake_by_asn
      × IsSplit full_city rows c.total_activated_stake c.dc_stake_by_city
      × IsSplit (country_of f64 show) rows c.total_activated_stake c.dc_stake_by_country

  stakes_by-IsSplit :
      (key : Validator f64.Float → String) (rows : List (Validator f64.Float)) (total : ℕ)
      → total ≡ sum (map (λ v. v.activated_stake) rows) % u64_mod
      → IsSplit key rows total (stakes_by key rows [])
  unfolding get sum_u64
  stakes_by-IsSplit key rows total h = (
    omega (arith, h, sum_u64-lt (values (stakes_by key rows [])), sum_u64-stakes_by key rows []),
    λ k. omega (arith, get-stakes_by key k rows [] (omega arith)),
  )

  add_rows-IsStatsOf :
      (epoch : ℕ) (rows : List (Validator f64.Float)) (s : Stakes)
      → add_rows f64 show out_of_range rows no_stakes ≡ ok s
      → IsStatsOf rows (stats_of f64 show epoch s)
  add_rows-IsStatsOf epoch rows s e =
      let total : (all_stakes rows no_stakes).total_active_stake
          ≡ sum (map (λ v. v.activated_stake) rows) % u64_mod =
        omega (arith, all_stakes-total rows no_stakes (omega arith)) in
      subst (λ t. IsStatsOf rows (stats_of f64 show epoch t))
        (sym (add_rows-ok rows no_stakes s e ∙ all_stakes-by rows no_stakes))
        (
          total,
          stakes_by-IsSplit (aso_of f64 show) rows _ total,
          stakes_by-IsSplit (asn_of f64 show) rows _ total,
          stakes_by-IsSplit full_city rows _ total,
          stakes_by-IsSplit (country_of f64 show) rows _ total,
        )

  module _ (rows_at : ℕ → Result E (List (Validator f64.Float))) where
    -- What is given for an epoch.
    abbrev pub IsGiven : DcConcentrationStats f64.Float → Type 0
    IsGiven c = (rows : List (Validator f64.Float)) × (rows_at c.epoch ≡ ok rows) × IsStatsOf rows c

    epochs_down-IsGiven :
        (first n : ℕ) (stats : List (DcConcentrationStats f64.Float))
        → epochs_down f64 show out_of_range rows_at first n ≡ ok stats
        → (map (λ c. c.epoch) stats ≡ down_to first n) × All IsGiven stats
    unfolding epochs_down
    epochs_down-IsGiven first zero stats e =
        subst (λ l. (map (λ c. c.epoch) l ≡ []) × All IsGiven l)
          (ok_injective (ok []) [] stats refl e) (refl, tt)
    epochs_down-IsGiven first (suc n) stats e =
        let (rows, e0, e1) = and_then-eq-ok (rows_at (first + n)) _ stats e in
        let (s, e2, e3) =
          and_then-eq-ok (add_rows f64 show out_of_range rows no_stakes) _ stats e1 in
        let (later, e4, e5) =
          and_then-eq-ok (epochs_down f64 show out_of_range rows_at first n) _ stats e3 in
        let (epochs, given) = epochs_down-IsGiven first n later e4 in
        subst (λ l. (map (λ c. c.epoch) l ≡ down_to first (suc n)) × All IsGiven l)
          (ok_injective (ok _) _ stats refl e5)
          (
            ap (λ l. (first + n) ∷ l) epochs,
            ((rows, e0, add_rows-IsStatsOf (first + n) rows s e2), given),
          )

    -- If loading succeeds, with a last epoch below 2^64 - 1, there are statistics for the last `epochs`
    -- epochs (for fewer, if the last epoch is smaller) from the last one down, and for no other; in each,
    -- the total is the activated stake of the epoch's rows modulo 2^64, the stakes by operator, by
    -- network, by city and by country each sum to the total, and each key has the stake of the rows that
    -- carry it.
    pub load_dc_concentration_stats-IsGiven :
        (table : Result E (List (Validator f64.Float))) (epochs last_epoch : ℕ)
        (stats : List (DcConcentrationStats f64.Float))
        → get_last_epoch table ≡ ok (some last_epoch)
        → last_epoch + 1 < u64_mod
        → load_dc_concentration_stats f64 show out_of_range table rows_at epochs ≡ ok stats
        → (map (λ c. c.epoch) stats
            ≡ down_to (last_epoch + 1 - min epochs last_epoch) (min epochs last_epoch))
          × All IsGiven stats
    unfolding load_dc_concentration_stats
    load_dc_concentration_stats-IsGiven table epochs last_epoch stats found below e =
        let (given, e0, e1) = and_then-eq-ok (get_last_epoch table) _ stats e in
        of_last (
          subst (λ g. dc_stats_from f64 show out_of_range rows_at epochs g ≡ ok stats)
            (ok_injective (get_last_epoch table) given (some last_epoch) e0 found) e1)
      where
        first : first_of last_epoch epochs ≡ last_epoch + 1 - min epochs last_epoch
        first = omega (arith, below)

        of_last :
            dc_stats_from f64 show out_of_range rows_at epochs (some last_epoch) ≡ ok stats
            → (map (λ c. c.epoch) stats
                ≡ down_to (last_epoch + 1 - min epochs last_epoch) (min epochs last_epoch))
              × All IsGiven stats
        of_last h =
            let (listed, given) =
              epochs_down-IsGiven (first_of last_epoch epochs)
                (last_epoch + 1 - first_of last_epoch epochs) stats h in
            (listed ∙ ap₂ down_to first (omega (arith, first)), given)
