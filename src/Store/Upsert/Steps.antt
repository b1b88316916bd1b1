-- ===== src/Store/Upsert/Steps.antt =====
-- What the statements do, one after the other.
use delegation_strategy.Prelude.{
  ℕ, ◌+◌, ◌≡◌, refl, sym, ap, ◌∙◌, String, true, Option, none, Bool-cases, inl, inr, List, [], ◌∷◌,
  ◌++◌, append-nil, append_assoc, map, flat_map, keep, if-true, if-false, map-append, keep-append,
}
use delegation_strategy.Store.Query.{ok}
use delegation_strategy.Store.Upsert.{
  Statement, update_with, insert_rows, Upsert, Columns, update_row, apply, new_row, is_new,
  insertion_of, execute, is_empty_statement,
}

module _ {R I : Type 0} (columns : Columns R I) (snapshot : Upsert I) where
  -- All statements, none of which fails.
  abbrev pub apply_all : List (Statement R I) → List R → List R
  apply_all [] rows = rows
  apply_all (s ∷ ss) rows = apply_all ss (apply columns snapshot s rows)

  update_row-nil : (rows : List R) → map (update_row columns snapshot []) rows ≡ rows
  unfolding update_row
  update_row-nil [] = refl
  update_row-nil (r ∷ rows) = ap (λ l. r ∷ l) (update_row-nil rows)

  apply-empty :
      (s : Statement R I) (rows : List R)
      → is_empty_statement columns snapshot s ≡ true
      → apply columns snapshot s rows ≡ rows
  unfolding apply
  apply-empty (update_with []) rows e = update_row-nil rows
  apply-empty (update_with (u ∷ us)) rows e = cc
  apply-empty (insert_rows []) rows e = append-nil rows
  apply-empty (insert_rows (r ∷ rs)) rows e = cc

  -- A run without failures applies all statements.
  pub execute-eq-apply_all :
      {E : Type 0} (fails : ℕ → Option E) (n : ℕ) (ss : List (Statement R I)) (rows : List R)
      → ((k : ℕ) → fails k ≡ none)
      → execute columns snapshot fails n ss rows ≡ (apply_all ss rows, ok tt)
  unfolding execute
  execute-eq-apply_all fails n [] rows h = refl
  execute-eq-apply_all fails n (s ∷ ss) rows h =
      let later = λ (k : ℕ) (rows' : List R). execute-eq-apply_all fails k ss rows' h in
      elim (Bool-cases (is_empty_statement columns snapshot s)) [
        | inl e ↦
            if-true _ _ _ e
            ∙ later n rows
            ∙ ap (λ r. (apply_all ss r, ok tt)) (sym (apply-empty s rows e))
        | inr e ↦ if-false _ _ _ e ∙ rw (h n) (later (n + 1) (apply columns snapshot s rows))
      ]

  pub apply_all-append :
      (ss ts : List (Statement R I)) (rows : List R)
      → apply_all (ss ++ ts) rows ≡ apply_all ts (apply_all ss rows)
  apply_all-append [] ts rows = refl
  apply_all-append (s ∷ ss) ts rows = apply_all-append ss ts (apply columns snapshot s rows)

  -- The insertions add the chunks of new rows at the end.
  pub apply_all-insertions :
      (updated : List String) (cs : List (List (String × I))) (rows : List R)
      → apply_all (map (insertion_of columns snapshot updated) cs) rows
        ≡ rows
          ++ map
              (new_row columns snapshot)
              (keep (is_new columns snapshot updated) (flat_map (λ c. c) cs))
  unfolding apply
  apply_all-insertions updated [] rows = sym (append-nil rows)
  apply_all-insertions updated (c ∷ cs) rows =
      apply_all-insertions updated cs (rows ++ map new (fresh c))
      ∙ append_assoc rows (map new (fresh c)) (map new (fresh (flat_map (λ d. d) cs)))
      ∙ ap (λ l. rows ++ l)
          (sym (map-append new (fresh c) (fresh (flat_map (λ d. d) cs)))
            ∙ ap (map new)
                (sym (keep-append (is_new columns snapshot updated) c (flat_map (λ d. d) cs))))
    where
      new : String × I → R
      new = new_row columns snapshot

      fresh : List (String × I) → List (String × I)
      fresh = keep (is_new columns snapshot updated)
