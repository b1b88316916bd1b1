-- ===== src/Store/Changes.antt =====
-- store/src/commissions.rs and store/src/versions.rs: a row is stored when a validator's value or the
-- epoch changes. Both files run the same code over another value; here the value is a parameter. The
-- query is SELECT DISTINCT ON (vote_account) … ORDER BY vote_account, created_at DESC (of rows created
-- together, the first), and the INSERT adds rows at the end.
pub mod Appending
pub mod Stored
use delegation_strategy.Prelude.{
  ℕ, String, Bool, false, not, ◌&&◌, Option, none, some, List, [], ◌∷◌, ◌++◌, map, filter_map, keep,
  ltb, ◌==◌, if◌then◌else◌, holds, get, add, contains, string_discrete, ℕ_discrete, option_discrete,
}
use delegation_strategy.Store.Dto.Scalars.{DateTime}
use delegation_strategy.Collect.Performance.{ValidatorPerformance, ValidatorsPerformanceSnapshot}

pub record ChangeRow (V : Type 0) : Type 0 where
  pub vote_account : String
  pub value : V
  pub epoch_slot : ℕ
  pub epoch : ℕ
  pub created_at : DateTime

module _ {V : Type 0} where
  abbrev pub changes_of : String → List (ChangeRow V) → List (ChangeRow V)
  changes_of vote_account = keep (λ r. holds (string_discrete r.vote_account vote_account))

  -- The row created last.
  abbrev pub newer_of : Option (ChangeRow V) → ChangeRow V → ChangeRow V
  newer_of none r = r
  newer_of (some s) r = if ltb r.created_at s.created_at then s else r

  unfoldable pub last_change : List (ChangeRow V) → Option (ChangeRow V)
  last_change [] = none
  last_change (r ∷ rs) = some (newer_of (last_change rs) r)

  -- The accounts of the rows, each once.
  unfoldable pub accounts : List (ChangeRow V) → List String
  accounts [] = []
  accounts (r ∷ rs) = add string_discrete r.vote_account (accounts rs)

  abbrev pub last_changes : List (ChangeRow V) → List (ChangeRow V)
  last_changes rows = filter_map (λ va. last_change (changes_of va rows)) (accounts rows)

module _ {Float V : Type 0} (dec : Discrete V) (value : ValidatorPerformance Float → V)
    (snapshot : ValidatorsPerformanceSnapshot Float) where
  abbrev pub is_unchanged : ChangeRow V → Option (ValidatorPerformance Float) → Bool
  is_unchanged row none = false
  is_unchanged row (some v) = (row.epoch == snapshot.epoch) && holds (dec row.value (value v))

  -- The loop over the last rows.
  unfoldable pub skip : List (ChangeRow V) → List String → List String
  skip [] skipped = skipped
  skip (row ∷ rows) skipped = skip rows (
      if is_unchanged row (get string_discrete row.vote_account snapshot.validators)
      then add string_discrete row.vote_account skipped
      else skipped)

  abbrev pub change : String × ValidatorPerformance Float → ChangeRow V
  change e = record {
    vote_account = e.0;
    value = value e.1;
    epoch_slot = snapshot.epoch_slot;
    epoch = snapshot.epoch;
    created_at = snapshot.created_at;
  }

  unfoldable pub store_changes : List (ChangeRow V) → List (ChangeRow V)
  unfolding skip last_change accounts
  store_changes rows =
      let skipped = skip (last_changes rows) [] in
      rows
      ++ map change (keep (λ e. not (contains string_discrete e.0 skipped)) snapshot.validators)

module _ {Float : Type 0} where
  unfoldable pub store_commissions :
      ValidatorsPerformanceSnapshot Float → List (ChangeRow ℕ) → List (ChangeRow ℕ)
  unfolding store_changes
  store_commissions = store_changes ℕ_discrete (λ v. v.commission)

  unfoldable pub store_versions :
      ValidatorsPerformanceSnapshot Float
      → List (ChangeRow (Option String))
      → List (ChangeRow (Option String))
  unfolding store_changes
  store_versions = store_changes (option_discrete string_discrete) (λ v. v.version)
