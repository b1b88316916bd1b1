-- ===== src/Store/Upsert.antt =====
-- store/src/validators_jito.rs and store/src/validators.rs: `store_mev`, `store_priority_fee` and
-- `store_validators` run the same code over other rows; here the rows are a parameter. A table is a list
-- of rows; a statement is what UPDATE … FROM (VALUES …) or INSERT does to it.
pub mod Merged
pub mod Merging
pub mod Repeated
pub mod Steps
use delegation_strategy.Prelude.{
  ◌≡◌, ℕ, ◌+◌, String, Bool, true, false, not, ◌&&◌, Option, none, some, List, [], ◌∷◌, ◌++◌,
  HashMap, map, filter_map, keep, find, ◌==◌, if◌then◌else◌, holds, get, add, contains,
  string_discrete, chunks,
}
use delegation_strategy.Store.Query.{Result, ok, err}
use delegation_strategy.Store.Dto.Scalars.{Decimal, DateTime}

abbrev pub default_chunk_size : ℕ
default_chunk_size = 500

pub data Statement (R I : Type 0) : Type 0 where
  update_with : List I → Statement R I
  insert_rows : List R → Statement R I

-- What a snapshot stores.
pub record Upsert (I : Type 0) : Type 0 where
  pub epoch : Decimal
  pub validators : HashMap String I

-- A table of rows, into which the values of validators are put: what its statements make of a row.
pub record Columns (R I : Type 0) : Type 0 where
  pub row_account : R → String
  pub row_epoch : R → Decimal
  pub vote_account : I → String
  pub epoch : I → Decimal
  pub revise : R → I → R
  pub inserted : I → R
  pub revise_account : (r : R) (i : I) → row_account (revise r i) ≡ vote_account i
  pub revise_epoch : (r : R) (i : I) → row_epoch (revise r i) ≡ epoch i
  pub revise_twice : (r : R) (i : I) → revise (revise r i) i ≡ revise r i

module _ {R I : Type 0} (columns : Columns R I) (snapshot : Upsert I) where
  -- WHERE vote_account = u.vote_account AND epoch = u.epoch
  abbrev pub same_key : I → R → Bool
  same_key i r =
      holds (string_discrete (columns.vote_account i) (columns.row_account r))
      && (columns.epoch i == columns.row_epoch r)

  unfoldable pub update_row : List I → R → R
  update_row us r = elim (find (λ u. same_key u r) us) [ none ↦ r | some u ↦ columns.revise r u ]

  unfoldable pub apply : Statement R I → List R → List R
  unfolding update_row
  apply (update_with us) rows = map (update_row us) rows
  apply (insert_rows new) rows = rows ++ new

  -- `get_existing_vote_accounts`
  abbrev pub existing_vote_accounts : List R → List String
  existing_vote_accounts rows =
      map (λ r. columns.row_account r) (keep (λ r. columns.row_epoch r == snapshot.epoch) rows)

  abbrev pub update_of : List String → Statement R I
  update_of chunk =
      update_with (filter_map (λ va. get string_discrete va snapshot.validators) chunk)

  -- The vote accounts that the loop over the existing ones marks as updated.
  unfoldable pub updated_identities : List String → List String
  updated_identities [] = []
  updated_identities (va ∷ vas) = elim (get string_discrete va snapshot.validators) [
    | none ↦ updated_identities vas
    | some v ↦ add string_discrete va (updated_identities vas)
  ]

  abbrev pub new_row : String × I → R
  new_row e = columns.inserted e.1

  abbrev pub is_new : List String → String × I → Bool
  is_new updated e = not (contains string_discrete e.0 updated)

  abbrev pub insertion_of : List String → List (String × I) → Statement R I
  insertion_of updated chunk = insert_rows (map new_row (keep (is_new updated) chunk))

  -- The statements, in the order in which they are sent.
  unfoldable pub statements : List R → List (Statement R I)
  unfolding updated_identities
  statements rows =
      let existing = existing_vote_accounts rows in
      let updated = updated_identities existing in
      map update_of (chunks default_chunk_size existing)
      ++ map (insertion_of updated)
          (chunks default_chunk_size (keep (is_new updated) snapshot.validators))

  abbrev pub is_empty_statement : Statement R I → Bool
  is_empty_statement (update_with []) = true
  is_empty_statement (update_with (u ∷ us)) = false
  is_empty_statement (insert_rows []) = true
  is_empty_statement (insert_rows (r ∷ rs)) = false

  -- A statement without rows is not sent; the first one that fails ends the run, and those before it
  -- have had their effect. `fails n` is the error of the n-th statement sent.
  unfoldable pub execute :
      {E : Type 0} → (ℕ → Option E) → ℕ → List (Statement R I) → List R → List R × Result E Unit
  unfolding apply
  execute fails n [] rows = (rows, ok tt)
  execute fails n (s ∷ ss) rows =
      let skipped = execute fails n ss rows in
      let sent = execute fails (n + 1) ss (apply s rows) in
      if is_empty_statement s
      then skipped
      else elim (fails n) [ some e ↦ (rows, err e) | none ↦ sent ]

  unfoldable pub upsert : {E : Type 0} → (ℕ → Option E) → List R → List R × Result E Unit
  unfolding execute statements
  upsert fails rows = execute fails 0 (statements rows) rows
