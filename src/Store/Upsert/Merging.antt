-- ===== src/Store/Upsert/Merging.antt =====
-- The table after a snapshot is stored: what UPDATE and INSERT in chunks amount to.
use delegation_strategy.Prelude.{
  ℕ, ◌≡◌, refl, sym, ap, ap₂, ◌∙◌, String, true, ◌&&◌, Option, none, Option-cases, inl, inr, List,
  [], ◌∷◌, ◌++◌, HashMap, map, flat_map, keep, keep-eq_of_All, keep_idem, All-imp, All-get_self,
  map-eq_of_All, get, contains, contains-add, string_discrete, All, DistinctKeys, map_id, is_some,
  chunks, flat_map-chunks, arith,
}
use delegation_strategy.Store.Query.{ok}
use delegation_strategy.Store.Upsert.{
  Upsert, Columns, apply, existing_vote_accounts, update_of, updated_identities, new_row, is_new,
  insertion_of, statements, upsert, default_chunk_size,
}
use delegation_strategy.Store.Upsert.Steps.{
  apply_all, execute-eq-apply_all, apply_all-append, apply_all-insertions,
}
use delegation_strategy.Store.Upsert.Merged.{
  IsOwn, merged_row, merged, updated_row, chosen_row, updated_row-eq, own, chosen_row-append,
}

module _ {R I : Type 0} (columns : Columns R I) (snapshot : Upsert I)
    (all_own : All (IsOwn columns snapshot) snapshot.validators)
    (keys : DistinctKeys string_discrete snapshot.validators) where
  apply_all-updates :
      (cs : List (List String)) (rows : List R)
      → apply_all columns snapshot (map (update_of columns snapshot) cs) rows
        ≡ map (chosen_row columns snapshot (flat_map (λ c. c) cs)) rows
  unfolding apply contains
  apply_all-updates [] rows = sym (map_id _ rows (λ r. refl))
  apply_all-updates (c ∷ cs) rows = apply_all-updates cs _ ∙ updates c (flat_map (λ n. n) cs) rows
    where
      updates :
          (ms ns : List String) (rs : List R)
          → map (chosen_row columns snapshot ns) (map (updated_row columns snapshot ms) rs)
            ≡ map (chosen_row columns snapshot (ms ++ ns)) rs
      updates ms ns [] = refl
      updates ms ns (r ∷ rs) =
          ap₂ (λ x xs. x ∷ xs)
            (ap (chosen_row columns snapshot ns)
                (updated_row-eq columns snapshot (own columns snapshot all_own keys) ms r)
              ∙ chosen_row-append columns snapshot all_own keys ms ns r)
            (updates ms ns rs)

  existing-own :
      (rows all : List R)
      → ((va : String)
          → contains string_discrete va (existing_vote_accounts columns snapshot rows) ≡ true
          → contains string_discrete va (existing_vote_accounts columns snapshot all) ≡ true)
      → All
          (λ r.
            chosen_row columns snapshot (existing_vote_accounts columns snapshot all) r
            ≡ merged_row columns snapshot r)
          rows
  unfolding contains
  existing-own [] all h = tt
  existing-own (r ∷ rows) all h = (
    ground (arith, h (columns.row_account r)),
    existing-own rows all (λ va e. h va (ground arith)),
  )

  contains-updated_identities :
      (va : String) (names : List String)
      → contains string_discrete va (updated_identities columns snapshot names) ≡ (
          contains string_discrete va names && is_some (get string_discrete va snapshot.validators))
  unfolding contains updated_identities
  contains-updated_identities va [] = refl
  contains-updated_identities va (n ∷ names) =
      let later = contains-updated_identities va names in
      elim (Option-cases (get string_discrete n snapshot.validators)) [
        | inl e ↦ ground (arith, e, later, moved)
        | inr (v, e) ↦ ground (
          arith,
          e,
          later,
          moved,
          contains-add string_discrete n va (updated_identities columns snapshot names),
        )
      ]
    where
      moved :
          n ≡ va
          → get string_discrete n snapshot.validators ≡ get string_discrete va snapshot.validators
      moved p = ap (λ x. get string_discrete x snapshot.validators) p

  is_new-updated :
      (existing : List String)
      → keep
          (is_new columns snapshot (updated_identities columns snapshot existing))
          snapshot.validators
        ≡ keep (is_new columns snapshot existing) snapshot.validators
  is_new-updated existing = keep-eq_of_All _ _ snapshot.validators (
      All-imp _ _ snapshot.validators
        (λ e found. ground (arith, found, contains-updated_identities e.0 existing))
        (All-get_self string_discrete snapshot.validators keys))

  existing_row :
      (rows : List R)
      → map (chosen_row columns snapshot (existing_vote_accounts columns snapshot rows)) rows
        ≡ map (merged_row columns snapshot) rows
  existing_row rows = map-eq_of_All _ _ rows (existing-own rows rows (λ va e. e))

  apply_all-statements :
      (rows : List R)
      → apply_all columns snapshot (statements columns snapshot rows) rows
        ≡ merged columns snapshot rows
  unfolding statements merged
  apply_all-statements rows =
      apply_all-append columns snapshot
        (map (update_of columns snapshot) (chunks default_chunk_size existing))
        (map (insertion_of columns snapshot updated) (chunks default_chunk_size fresh)) rows
      ∙ apply_all-insertions columns snapshot updated (chunks default_chunk_size fresh) _
      ∙ ap₂ (λ xs ys. xs ++ map (new_row columns snapshot) ys)
          (apply_all-updates (chunks default_chunk_size existing) rows
            ∙ ap (λ ns. map (chosen_row columns snapshot ns) rows)
                (flat_map-chunks default_chunk_size existing)
            ∙ existing_row rows)
          (ap (keep (is_new columns snapshot updated)) (flat_map-chunks default_chunk_size fresh)
            ∙ keep_idem (is_new columns snapshot updated) snapshot.validators
            ∙ is_new-updated existing)
    where
      existing : List String
      existing = existing_vote_accounts columns snapshot rows

      updated : List String
      updated = updated_identities columns snapshot existing

      fresh : HashMap String I
      fresh = keep (is_new columns snapshot updated) snapshot.validators

  -- When no statement fails, storing a snapshot whose validators have distinct vote accounts, stand
  -- under them and have the snapshot's epoch, gives the merged table: each row of the epoch takes its
  -- validator's values and keeps its creation time, all other rows stay, and each validator that had no
  -- row for the epoch has a new one at the end; neither the chunks nor the order of the statements matter.
  pub upsert-eq-merged :
      {E : Type 0} (fails : ℕ → Option E) (rows : List R)
      → ((k : ℕ) → fails k ≡ none)
      → upsert columns snapshot fails rows ≡ (merged columns snapshot rows, ok tt)
  unfolding upsert
  upsert-eq-merged fails rows h =
      execute-eq-apply_all columns snapshot fails 0 (statements columns snapshot rows) rows h
      ∙ ap (λ t. (t, ok tt)) (apply_all-statements rows)
