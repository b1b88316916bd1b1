-- ===== src/Store/Load/Loop/Totality.antt =====
-- store/src/utils.rs: rows and ruggers on which the loop of `load_validators` does not panic.
use delegation_strategy.Prelude.{
  ℤ, pos, negsuc, ℕ, ◌<◌, ◌≤◌, ◌≡◌, refl, String, Option, none, some, Option-cases, inl, inr, List,
  [], ◌∷◌, HashMap, get, string_discrete, All, All-get, length, u64_mod, F64, arith,
}
use delegation_strategy.Store.Dto.Scalars.{DateTime}
use delegation_strategy.Store.Dto.Validators.{RugInfo}
use delegation_strategy.Store.Dto.Records.{RuggerRecord, DcConcentrationStats}
use delegation_strategy.Store.Ranks.{Validators}
use delegation_strategy.Store.Load.{to_u64, signed_to_u8, in_option}
use delegation_strategy.Store.Load.Yields.{InflationApyCalculator}
use delegation_strategy.Store.Load.Rows.{ValidatorRow, RowNumbers, numbers_of, rug_infos}
use delegation_strategy.Store.Load.Loop.{rug_of, add_row, add_rows}
use delegation_strategy.Store.Load.Loop.Steps.{put}

abbrev pub IsU8 : Option ℤ → Type 0
IsU8 none = Unit
IsU8 (some (pos n)) = n < 256
IsU8 (some (negsuc n)) = ⊥

abbrev pub IsU64 : Option ℕ → Type 0
IsU64 none = Unit
IsU64 (some n) = n < u64_mod

-- The numbers of a row are in the ranges of the types that they are converted to.
pub record RowFits (Float : Type 0) (row : ValidatorRow Float) : Type 0 where
  pub epoch : row.epoch < u64_mod
  pub first_epoch : row.first_epoch < u64_mod
  pub starting_epoch : row.starting_epoch < u64_mod
  pub credits : row.credits < u64_mod
  pub leader_slots : row.leader_slots < u64_mod
  pub blocks_produced : row.blocks_produced < u64_mod
  pub commission_max_observed : IsU8 row.commission_max_observed
  pub commission_min_observed : IsU8 row.commission_min_observed
  pub commission_advertised : IsU8 row.commission_advertised
  pub commission_effective : IsU8 row.commission_effective
  pub uptime : IsU64 row.uptime
  pub downtime : IsU64 row.downtime

-- A rugger has both commissions of each of its epochs.
abbrev pub IsIndexed : RuggerRecord → Type 0
IsIndexed r =
    (length r.epochs ≤ length r.observed_commissions) × (length r.epochs ≤ length r.min_commissions)

to_u64-total : (n : ℕ) → n < u64_mod → to_u64 n ≡ some n
to_u64-total n h = ground arith

in_option-u8 : (o : Option ℤ) → IsU8 o → (n : Option ℕ) × (in_option signed_to_u8 o ≡ some n)
in_option-u8 none h = (none, refl)
in_option-u8 (some (pos n)) h = (some n, ground arith)
in_option-u8 (some (negsuc n)) h = absurd h

in_option-u64 : (o : Option ℕ) → IsU64 o → in_option to_u64 o ≡ some o
in_option-u64 none h = refl
in_option-u64 (some n) h = ground arith

numbers_of-total :
    {Float : Type 0} (row : ValidatorRow Float)
    → RowFits Float row
    → (n : RowNumbers) × (numbers_of row ≡ some n)
unfolding numbers_of
numbers_of-total row h =
    let (max_observed, e7) = in_option-u8 row.commission_max_observed h.commission_max_observed in
    let (min_observed, e8) = in_option-u8 row.commission_min_observed h.commission_min_observed in
    let (advertised, e9) = in_option-u8 row.commission_advertised h.commission_advertised in
    let (effective, e10) = in_option-u8 row.commission_effective h.commission_effective in
    (
      record {
        epoch = row.epoch;
        first_epoch = row.first_epoch;
        starting_epoch = row.starting_epoch;
        credits = row.credits;
        leader_slots = row.leader_slots;
        blocks_produced = row.blocks_produced;
        commission_max_observed = max_observed;
        commission_min_observed = min_observed;
        commission_advertised = advertised;
        commission_effective = effective;
        uptime = row.uptime;
        downtime = row.downtime;
      },
      rw
          (
            to_u64-total row.epoch h.epoch,
            to_u64-total row.first_epoch h.first_epoch,
            to_u64-total row.starting_epoch h.starting_epoch,
            to_u64-total row.credits h.credits,
            to_u64-total row.leader_slots h.leader_slots,
            to_u64-total row.blocks_produced h.blocks_produced,
            e7,
            e8,
            e9,
            e10,
            in_option-u64 row.uptime h.uptime,
            in_option-u64 row.downtime h.downtime,
          )
          refl,
    )

rug_infos-total :
    (epochs observed mins : List ℕ)
    → length epochs ≤ length observed
    → length epochs ≤ length mins
    → (infos : List RugInfo) × (rug_infos epochs observed mins ≡ some infos)
unfolding rug_infos
rug_infos-total [] observed mins h k = ([], refl)
rug_infos-total (e ∷ es) [] mins h k = absurd (omega arith)
rug_infos-total (e ∷ es) (o ∷ os) [] h k = absurd (omega arith)
rug_infos-total (e ∷ es) (o ∷ os) (m ∷ ms) h k =
    let (infos, found) = rug_infos-total es os ms (omega arith) (omega arith) in
    (record { epoch = e; after = o; before = m } ∷ infos, rw found refl)

module _ (f64 : F64) (show : ℤ → String) (now : ValidatorRow f64.Float → DateTime) (last_epoch : ℕ)
    (ruggers : HashMap String RuggerRecord)
    (apy_calculators : HashMap ℕ (InflationApyCalculator f64))
    (concentrations : Option (DcConcentrationStats f64.Float))
    (indexed : All (λ e. IsIndexed e.1) ruggers) where
  rug_of-total :
      (va : String)
      → (rug : Option (ℕ × List RugInfo)) × (rug_of f64 show now last_epoch ruggers apy_calculators
            concentrations
            (get string_discrete va ruggers)
          ≡ some rug)
  rug_of-total va = elim (Option-cases (get string_discrete va ruggers)) [
    | inl e ↦ (none, rw e refl)
    | inr (r, e) ↦
        let fits = All-get string_discrete (λ e. IsIndexed e.1) va r ruggers indexed e in
        let (infos, found) =
          rug_infos-total r.epochs r.observed_commissions r.min_commissions fits.0 fits.1 in
        (some (r.occurrences, infos), rw (e, found) refl)
  ]

  -- No row panics.
  pub add_rows-total :
      (rows : List (ValidatorRow f64.Float)) (records : Validators f64.Float)
      → All (RowFits f64.Float) rows
      → (records' : Validators f64.Float) × (add_rows f64 show now last_epoch ruggers
            apy_calculators concentrations rows records
          ≡ some records')
  unfolding add_rows add_row
  add_rows-total [] records h = (records, refl)
  add_rows-total (row ∷ rows) records h =
      let (n, e) = numbers_of-total row h.0 in
      let (rug, f) = rug_of-total row.vote_account in
      let (records', g) =
        add_rows-total rows
          (put f64 show now last_epoch ruggers apy_calculators concentrations row n rug records)
          h.1 in
      (records', rw (e, f) g)
