-- ===== src/Store/Upsert/Merged.antt =====
-- The table that a snapshot is to give, row by row, and what chunked updates do to one row.
use delegation_strategy.Prelude.{
  ◌≡◌, refl, sym, ap, ◌∙◌, String, none, some, Option-cases, inl, inr, List, [], ◌∷◌, ◌++◌, map,
  filter_map, keep, ◌==◌, if◌then◌else◌, get, contains, string_discrete, All, All-get, DistinctKeys,
  contains-append, arith,
}
use delegation_strategy.Store.Upsert.{
  Upsert, Columns, update_row, existing_vote_accounts, new_row, is_new,
}

module _ {R I : Type 0} (columns : Columns R I) (snapshot : Upsert I) where
  -- Each validator stands under its own vote account, with the snapshot's epoch.
  abbrev pub IsOwn : String × I → Type 0
  IsOwn e = (columns.vote_account e.1 ≡ e.0) × (columns.epoch e.1 ≡ snapshot.epoch)

  -- A row of the snapshot's epoch takes the validator's values, if the snapshot has the validator.
  abbrev pub merged_row : R → R
  merged_row r =
      if columns.row_epoch r == snapshot.epoch
      then elim (get string_discrete (columns.row_account r) snapshot.validators) [
        | none ↦ r
        | some v ↦ columns.revise r v
      ]
      else r

  -- The table with the snapshot: the rows that it has, in place, and a row for each validator that
  -- had none for the epoch.
  unfoldable pub merged : List R → List R
  merged rows =
      map merged_row rows
      ++ map (new_row columns snapshot) (
          keep (is_new columns snapshot (existing_vote_accounts columns snapshot rows))
            snapshot.validators)

  -- An update with the accounts `names` of the snapshot, seen from one row.
  abbrev pub updated_row : List String → R → R
  updated_row names =
      update_row columns snapshot
        (filter_map (λ va. get string_discrete va snapshot.validators) names)

  -- The row that it gives.
  abbrev pub chosen_row : List String → R → R
  chosen_row names r =
      if contains string_discrete (columns.row_account r) names then merged_row r else r

  pub updated_row-eq :
      (own : (va : String) (v : I)
        → get string_discrete va snapshot.validators ≡ some v
        → IsOwn (va, v))
      (names : List String) (r : R)
      → updated_row names r ≡ chosen_row names r
  unfolding update_row contains
  updated_row-eq own [] r = refl
  updated_row-eq own (n ∷ names) r =
      let later = updated_row-eq own names r in
      elim (Option-cases (get string_discrete n snapshot.validators)) [
        | inl e ↦ ground (arith, later, e, moved)
        | inr (v, e) ↦ ground (arith, later, e, moved, (own n v e).0, (own n v e).1)
      ]
    where
      moved :
          n ≡ columns.row_account r
          → get string_discrete (columns.row_account r) snapshot.validators
            ≡ get string_discrete n snapshot.validators
      moved p = ap (λ x. get string_discrete x snapshot.validators) (sym p)

module _ {R I : Type 0} (columns : Columns R I) (snapshot : Upsert I)
    (all_own : All (IsOwn columns snapshot) snapshot.validators)
    (keys : DistinctKeys string_discrete snapshot.validators) where
  pub own :
      (va : String) (v : I)
      → get string_discrete va snapshot.validators ≡ some v
      → IsOwn columns snapshot (va, v)
  own va v = All-get string_discrete (IsOwn columns snapshot) va v snapshot.validators all_own

  pub merged_row-key :
      (r : R)
      → (columns.row_account (merged_row columns snapshot r) ≡ columns.row_account r)
        × (columns.row_epoch (merged_row columns snapshot r) ≡ columns.row_epoch r)
  merged_row-key r =
      elim (Option-cases (get string_discrete (columns.row_account r) snapshot.validators)) [
        | inl e ↦ ground (arith, e)
        | inr (v, e) ↦ ground (
          arith,
          e,
          (own (columns.row_account r) v e).0,
          (own (columns.row_account r) v e).1,
          columns.revise_account r v,
          columns.revise_epoch r v,
        )
      ]

  pub merged_row_idem :
      (r : R)
      → merged_row columns snapshot (merged_row columns snapshot r) ≡ merged_row columns snapshot r
  merged_row_idem r =
      elim (Option-cases (get string_discrete (columns.row_account r) snapshot.validators)) [
        | inl e ↦ ground (arith, e)
        | inr (v, e) ↦ ground (
          arith,
          e,
          (own (columns.row_account r) v e).0,
          (own (columns.row_account r) v e).1,
          columns.revise_account r v,
          columns.revise_epoch r v,
          columns.revise_twice r v,
          ap (λ va. get string_discrete va snapshot.validators)
              (columns.revise_account r v ∙ (own (columns.row_account r) v e).0),
        )
      ]

  pub chosen_row-append :
      (ms ns : List String) (r : R)
      → chosen_row columns snapshot ns (chosen_row columns snapshot ms r)
        ≡ chosen_row columns snapshot (ms ++ ns) r
  chosen_row-append ms ns r = ground (
    arith,
    contains-append string_discrete (columns.row_account r) ms ns,
    (merged_row-key r).0,
    merged_row_idem r,
  )
