-- ===== src/Store/Upsert/Repeated.antt =====
-- Storing the same snapshot again.
use delegation_strategy.Prelude.{
  ℕ, ◌≡◌, refl, sym, ap, ap₂, ◌∙◌, String, Bool, true, false, Option, none, some, Bool-cases, inl,
  inr, List, [], ◌∷◌, ◌++◌, append-nil, map-append, HashMap, map, keep, keep-append, ◌==◌, if-true,
  if-false, get, contains, contains-append, string_discrete, All, All-imp, All-both, All-keep_of,
  All-get_self, DistinctKeys, arith,
}
use delegation_strategy.Store.Query.{ok}
use delegation_strategy.Store.Upsert.{
  Upsert, Columns, existing_vote_accounts, new_row, is_new, upsert,
}
use delegation_strategy.Store.Upsert.Merged.{
  IsOwn, merged_row, merged, merged_row-key, merged_row_idem,
}
use delegation_strategy.Store.Upsert.Merging.{upsert-eq-merged}

module _ {R I : Type 0} (columns : Columns R I) (snapshot : Upsert I)
    (all_own : All (IsOwn columns snapshot) snapshot.validators)
    (keys : DistinctKeys string_discrete snapshot.validators)
    (inserted_ok : (i : I)
      → columns.epoch i ≡ snapshot.epoch
      → (columns.row_account (columns.inserted i) ≡ columns.vote_account i)
        × (columns.row_epoch (columns.inserted i) ≡ snapshot.epoch)
        × (columns.revise (columns.inserted i) i ≡ columns.inserted i)) where
  -- A validator of the snapshot.
  abbrev IsGiven : String × I → Type 0
  IsGiven e = (get string_discrete e.0 snapshot.validators ≡ some e.1) × IsOwn columns snapshot e

  All-IsGiven : All IsGiven snapshot.validators
  All-IsGiven =
      All-both (λ e. get string_discrete e.0 snapshot.validators ≡ some e.1)
        (IsOwn columns snapshot) IsGiven snapshot.validators (λ e found own. (found, own))
        (All-get_self string_discrete snapshot.validators keys) all_own

  new_row-keeps :
      (e : String × I)
      → IsGiven e
      → merged_row columns snapshot (new_row columns snapshot e) ≡ new_row columns snapshot e
  new_row-keeps e (found, (va, ep)) =
      let (a, b, c) = inserted_ok e.1 ep in
      ground (arith, found, b, c, ap (λ x. get string_discrete x snapshot.validators) (a ∙ va))

  map_twice :
      (rows : List R)
      → map (merged_row columns snapshot) (map (merged_row columns snapshot) rows)
        ≡ map (merged_row columns snapshot) rows
  map_twice [] = refl
  map_twice (r ∷ rows) =
      ap₂ (λ x xs. x ∷ xs) (merged_row_idem columns snapshot all_own keys r) (map_twice rows)

  existing-map :
      (rows : List R)
      → existing_vote_accounts columns snapshot (map (merged_row columns snapshot) rows)
        ≡ existing_vote_accounts columns snapshot rows
  existing-map [] = refl
  existing-map (r ∷ rows) =
      let (a, b) = merged_row-key columns snapshot all_own keys r in
      ground (arith, a, b, existing-map rows)

  -- The accounts of the new rows.
  abbrev new_accounts : List (String × I) → List String
  new_accounts es = existing_vote_accounts columns snapshot (map (new_row columns snapshot) es)

  abbrev IsPresent : List (String × I) → String × I → Type 0
  IsPresent es e = contains string_discrete e.0 (new_accounts es) ≡ true

  new_accounts-cons :
      (e : String × I) (es : List (String × I))
      → IsGiven e
      → new_accounts (e ∷ es) ≡ e.0 ∷ new_accounts es
  new_accounts-cons e es (found, (va, ep)) =
      let (a, b, c) = inserted_ok e.1 ep in ground (arith, a, b, va)

  -- The validators that pass a test have rows among those inserted for it.
  inserted-IsPresent :
      (p : String × I → Bool) (es : List (String × I))
      → All IsGiven es
      → All (λ e. p e ≡ true → IsPresent (keep p es) e) es
  unfolding contains
  inserted-IsPresent p [] h = tt
  inserted-IsPresent p (e ∷ es) h = elim (Bool-cases (p e)) [
    | inl t ↦
        let cons = new_accounts-cons e (keep p es) h.0 in
        let kept = if-true (p e) (e ∷ keep p es) (keep p es) t in
        (
          λ _. within e kept (ap (contains string_discrete e.0) cons ∙ ground arith),
          All-imp _ _ es
              (λ x k q.
                within x kept (ap (contains string_discrete x.0) cons ∙ ground (arith, k q)))
              (inserted-IsPresent p es h.1),
        )
    | inr t ↦
        let kept = if-false (p e) (e ∷ keep p es) (keep p es) t in
        (
          λ q. absurd (ground (arith, q, t)),
          All-imp _ _ es (λ x k q. within x kept (k q)) (inserted-IsPresent p es h.1),
        )
  ]
    where
      within : (x : String × I) {l l' : List (String × I)} → l ≡ l' → IsPresent l' x → IsPresent l x
      within x q k = ap (λ m. contains string_discrete x.0 (new_accounts m)) q ∙ k

  keep-none :
      (p : String × I → Bool) (es : List (String × I)) → All (λ e. p e ≡ false) es → keep p es ≡ []
  keep-none p [] h = refl
  keep-none p (e ∷ es) h = if-false (p e) _ _ h.0 ∙ keep-none p es h.1

  new_rows-keep :
      (es : List (String × I))
      → All IsGiven es
      → map (merged_row columns snapshot) (map (new_row columns snapshot) es)
        ≡ map (new_row columns snapshot) es
  new_rows-keep [] h = refl
  new_rows-keep (e ∷ es) h = ap₂ (λ x xs. x ∷ xs) (new_row-keeps e h.0) (new_rows-keep es h.1)

  existing-append :
      (xs ys : List R)
      → existing_vote_accounts columns snapshot (xs ++ ys)
        ≡ existing_vote_accounts columns snapshot xs ++ existing_vote_accounts columns snapshot ys
  existing-append xs ys =
      ap (map columns.row_account) (keep-append (λ r. columns.row_epoch r == snapshot.epoch) xs ys)
      ∙ map-append columns.row_account _ _

  merged-again :
      (rows : List R)
      → merged columns snapshot (merged columns snapshot rows) ≡ merged columns snapshot rows
  unfolding merged
  merged-again rows =
      ap₂ (λ xs ys. xs ++ map (new_row columns snapshot) ys)
        (map-append (merged_row columns snapshot) old (map (new_row columns snapshot) fresh)
          ∙ ap₂ (λ xs ys. xs ++ ys) (map_twice rows)
              (new_rows-keep fresh (All-keep_of IsGiven _ snapshot.validators All-IsGiven)))
        (keep-none _ snapshot.validators (
          All-imp _ _ snapshot.validators
            (λ e present. ground (
              arith,
              present,
              ap (contains string_discrete e.0) listed,
              contains-append string_discrete e.0 (existing_vote_accounts columns snapshot rows)
                  (new_accounts fresh),
            ))
            (inserted-IsPresent
              (is_new columns snapshot (existing_vote_accounts columns snapshot rows))
              snapshot.validators All-IsGiven)))
      ∙ append-nil (old ++ map (new_row columns snapshot) fresh)
    where
      old : List R
      old = map (merged_row columns snapshot) rows

      fresh : HashMap String I
      fresh =
          keep (is_new columns snapshot (existing_vote_accounts columns snapshot rows))
            snapshot.validators

      listed :
          existing_vote_accounts columns snapshot (old ++ map (new_row columns snapshot) fresh)
          ≡ existing_vote_accounts columns snapshot rows ++ new_accounts fresh
      listed =
          existing-append old (map (new_row columns snapshot) fresh)
          ∙ ap (λ l. l ++ new_accounts fresh) (existing-map rows)

  -- Storing a snapshot again, when no statement fails, leaves the table as the first time left it.
  pub upsert-twice :
      {E : Type 0} (fails : ℕ → Option E) (rows : List R)
      → ((k : ℕ) → fails k ≡ none)
      → upsert columns snapshot fails (upsert columns snapshot fails rows).0
        ≡ upsert columns snapshot fails rows
  upsert-twice fails rows h =
      let once = upsert-eq-merged columns snapshot all_own keys fails rows h in
      ap (λ t. upsert columns snapshot fails t.0) once
      ∙ upsert-eq-merged columns snapshot all_own keys fails (merged columns snapshot rows) h
      ∙ ap (λ t. (t, ok tt)) (merged-again rows)
      ∙ sym once
