-- ===== src/Store/Changes/Appending.antt =====
-- The rows of one validator before and after a snapshot is stored.
use delegation_strategy.Prelude.{
  ◌≡◌, refl, sym, ap, ap₂, ◌∙◌, subst, String, Bool, true, false, not, ◌&&◌, ◌||◌, Option, none,
  some, Option-cases, inl, inr, List, [], ◌∷◌, ◌++◌, map, filter_map, keep, keep-append, append-nil,
  ◌<◌, HashMap, All, All-keep, ltb, if◌then◌else◌, holds, get, add, contains, contains-add,
  string_discrete, DistinctKeys, arith, Bool-cases,
}
use delegation_strategy.Collect.Performance.{ValidatorPerformance, ValidatorsPerformanceSnapshot}
use delegation_strategy.Store.Changes.{
  ChangeRow, changes_of, last_change, accounts, last_changes, is_unchanged, skip, change,
  store_changes,
}

module _ {V : Type 0} where
  -- What every row has, the last one has.
  last_change-All :
      (P : ChangeRow V → Type 0) (rs : List (ChangeRow V)) (l : ChangeRow V)
      → All P rs
      → last_change rs ≡ some l
      → P l
  unfolding last_change
  last_change-All P [] l a e = cc
  last_change-All P (r ∷ rs) l a e = elim (Option-cases (last_change rs)) [
    | inl f ↦ subst P (ground arith) a.0
    | inr (m, f) ↦ elim (Bool-cases (ltb r.created_at m.created_at)) [
      | inl g ↦ subst P (ground arith) (last_change-All P rs m a.1 f)
      | inr g ↦ subst P (ground arith) a.0
    ]
  ]

  last_change-account :
      (va : String) (rows : List (ChangeRow V)) (l : ChangeRow V)
      → last_change (changes_of va rows) ≡ some l
      → l.vote_account ≡ va
  last_change-account va rows l e = of_holds (string_discrete l.vote_account va) (
      last_change-All (λ r. holds (string_discrete r.vote_account va) ≡ true) (changes_of va rows) l
        (All-keep (λ r. holds (string_discrete r.vote_account va)) rows) e)
    where
      of_holds : (d : Dec (l.vote_account ≡ va)) → holds d ≡ true → l.vote_account ≡ va
      of_holds (yes p) h = p
      of_holds (no n) h = cc

  -- An account without rows has no last row.
  accounts-none :
      (va : String) (rows : List (ChangeRow V))
      → contains string_discrete va (accounts rows) ≡ false
      → last_change (changes_of va rows) ≡ none
  unfolding accounts last_change
  accounts-none va [] h = refl
  accounts-none va (r ∷ rs) h =
      ground
        (arith, accounts-none va rs, contains-add string_discrete r.vote_account va (accounts rs))

module _ {Float V : Type 0} (dec : Discrete V) (value : ValidatorPerformance Float → V)
    (snapshot : ValidatorsPerformanceSnapshot Float) where
  -- Whether the last row, if any, has the epoch and the value of the snapshot.
  abbrev pub is_last_unchanged : Option (ChangeRow V) → String → Bool
  is_last_unchanged none va = false
  is_last_unchanged (some row) va =
      is_unchanged dec value snapshot row (get string_discrete va snapshot.validators)

  unchanged_at-eq :
      (rows : List (ChangeRow V)) (a va : String) (o : Option (ChangeRow V))
      → last_change (changes_of a rows) ≡ o
      → a ≡ va
      → is_last_unchanged (last_change (changes_of va rows)) va ≡ is_last_unchanged o a
  unchanged_at-eq rows a va o e p =
      subst (λ i. is_last_unchanged (last_change (changes_of i rows)) i ≡ is_last_unchanged o a) p
        (ap (λ x. is_last_unchanged x a) e)

  -- One round, `ih` being the rounds that follow.
  skip-step :
      (rows rest : List (ChangeRow V)) (a va : String) (names acc : List String)
      → ((later : List String)
          → contains string_discrete va (skip dec value snapshot rest later) ≡ (
              contains string_discrete va later
              || (contains string_discrete va names
                  && is_last_unchanged (last_change (changes_of va rows)) va)))
      → (o : Option (ChangeRow V)) → last_change (changes_of a rows) ≡ o
      → contains string_discrete va
          (skip dec value snapshot (elim o [ none ↦ rest | some r ↦ r ∷ rest ]) acc)
        ≡ (contains string_discrete va acc
            || (contains string_discrete va (a ∷ names)
                && is_last_unchanged (last_change (changes_of va rows)) va))
  unfolding skip contains
  skip-step rows rest a va names acc ih none e = ih acc ∙ elim (string_discrete a va) [
    | yes p ↦ ground (arith, unchanged_at-eq rows a va none e p)
    | no n ↦ ground arith
  ]
  skip-step rows rest a va names acc ih (some r) e = ih _ ∙ elim (string_discrete a va) [
    | yes p ↦ ground (arith, unchanged_at-eq rows a va (some r) e p, added, account, p)
    | no n ↦ ground (arith, added, account)
  ]
    where
      account : r.vote_account ≡ a
      account = last_change-account a rows r e

      added :
          contains string_discrete va (add string_discrete r.vote_account acc)
          ≡ (holds (string_discrete r.vote_account va) || contains string_discrete va acc)
      added = contains-add string_discrete r.vote_account va acc

  skip-contains :
      (rows : List (ChangeRow V)) (va : String) (names acc : List String)
      → contains string_discrete va
          (skip dec value snapshot (filter_map (λ a. last_change (changes_of a rows)) names) acc)
        ≡ (contains string_discrete va acc
            || (contains string_discrete va names
                && is_last_unchanged (last_change (changes_of va rows)) va))
  unfolding skip contains
  skip-contains rows va [] acc = ground arith
  skip-contains rows va (a ∷ names) acc =
      skip-step rows (filter_map (λ b. last_change (changes_of b rows)) names) a va names acc
        (λ later. skip-contains rows va names later) (last_change (changes_of a rows)) refl

  new-absent :
      (p : String × ValidatorPerformance Float → Bool) (va : String)
      (vs : HashMap String (ValidatorPerformance Float))
      → get string_discrete va vs ≡ none
      → changes_of va (map (change dec value snapshot) (keep p vs)) ≡ []
  unfolding get
  new-absent p va [] h = refl
  new-absent p va ((k, v) ∷ vs) h = ground (arith, new-absent p va vs)

  new-present :
      (p : String × ValidatorPerformance Float → Bool) (va : String)
      (v : ValidatorPerformance Float) (vs : HashMap String (ValidatorPerformance Float))
      → DistinctKeys string_discrete vs
      → get string_discrete va vs ≡ some v
      → changes_of va (map (change dec value snapshot) (keep p vs))
        ≡ (if p (va, v) then change dec value snapshot (va, v) ∷ [] else [])
  unfolding get
  new-present p va v [] d h = cc
  new-present p va v ((k, w) ∷ vs) d h = elim (string_discrete k va) [
    | yes q ↦ ground (
      arith,
      new-absent p va vs (subst (λ x. get string_discrete x vs ≡ none) q d.0),
      tested (own q) q,
      changed (own q) q,
    )
    | no n ↦ ground (arith, new-present p va v vs d.1)
  ]
    where
      own : k ≡ va → w ≡ v
      own q = ground arith

      tested : w ≡ v → k ≡ va → p (k, w) ≡ p (va, v)
      tested e q = ap₂ (λ x y. p (x, y)) q e

      changed :
          w ≡ v → k ≡ va → change dec value snapshot (k, w) ≡ change dec value snapshot (va, v)
      changed e q = ap₂ (λ x y. change dec value snapshot (x, y)) q e

  abbrev skipped_of : List (ChangeRow V) → List String
  skipped_of rows = skip dec value snapshot (last_changes rows) []

  skipped-eq :
      (rows : List (ChangeRow V)) (va : String)
      → contains string_discrete va (skipped_of rows)
        ≡ is_last_unchanged (last_change (changes_of va rows)) va
  unfolding contains
  skipped-eq rows va =
      skip-contains rows va (accounts rows) []
      ∙ elim (Bool-cases (contains string_discrete va (accounts rows))) [
        | inl e ↦ rw e refl
        | inr e ↦ rw e (sym (ap (λ o. is_last_unchanged o va) (accounts-none va rows e)))
      ]

  -- A snapshot adds one row for each of its validators whose last row does not have the snapshot's
  -- epoch and value, and none for one whose last row has, where its keys are distinct.
  pub changes_of-store_changes :
      (rows : List (ChangeRow V)) (va : String) (v : ValidatorPerformance Float)
      → DistinctKeys string_discrete snapshot.validators
      → get string_discrete va snapshot.validators ≡ some v
      → changes_of va (store_changes dec value snapshot rows) ≡ (
          if is_last_unchanged (last_change (changes_of va rows)) va
          then changes_of va rows
          else changes_of va rows ++ change dec value snapshot (va, v) ∷ [])
  unfolding store_changes
  changes_of-store_changes rows va v d h =
      keep-append _ rows _
      ∙ ap (λ l. changes_of va rows ++ l)
          (new-present (λ e. not (contains string_discrete e.0 (skipped_of rows))) va v
            snapshot.validators d h)
      ∙ ap
          (λ b.
            changes_of va rows ++ (if not b then change dec value snapshot (va, v) ∷ [] else []))
          (skipped-eq rows va)
      ∙ choose (is_last_unchanged (last_change (changes_of va rows)) va)
    where
      choose :
          (b : Bool)
          → changes_of va rows ++ (if not b then change dec value snapshot (va, v) ∷ [] else []) ≡ (
              if b
              then changes_of va rows
              else changes_of va rows ++ change dec value snapshot (va, v) ∷ [])
      choose true = append-nil (changes_of va rows)
      choose false = refl

  last_change-append :
      (r : ChangeRow V) (xs : List (ChangeRow V))
      → All (λ x. x.created_at < r.created_at) xs
      → last_change (xs ++ r ∷ []) ≡ some r
  unfolding last_change
  last_change-append r [] a = refl
  last_change-append r (x ∷ xs) a = ground (arith, last_change-append r xs a.1)

  -- After a snapshot newer than all rows of one of its validators is stored, the last row of that
  -- validator has the epoch and the value of the snapshot, where its keys are distinct.
  pub last_change-store_changes :
      (rows : List (ChangeRow V)) (va : String) (v : ValidatorPerformance Float)
      → DistinctKeys string_discrete snapshot.validators
      → get string_discrete va snapshot.validators ≡ some v
      → All (λ x. x.created_at < snapshot.created_at) (changes_of va rows)
      → is_last_unchanged (last_change (changes_of va (store_changes dec value snapshot rows))) va
        ≡ true
  last_change-store_changes rows va v d h a =
      ap (λ l. is_last_unchanged (last_change l) va) (changes_of-store_changes rows va v d h)
      ∙ elim (Bool-cases (is_last_unchanged (last_change (changes_of va rows)) va)) [
        | inl e ↦ rw e e
        | inr e ↦ rw e (
            ap (λ o. is_last_unchanged o va)
              (last_change-append (change dec value snapshot (va, v)) (changes_of va rows) a)
            ∙ ap (is_unchanged dec value snapshot (change dec value snapshot (va, v))) h
            ∙ itself)
      ]
    where
      itself : is_unchanged dec value snapshot (change dec value snapshot (va, v)) (some v) ≡ true
      itself = ground arith

  -- Storing a snapshot again adds no row for any of its validators, where it is newer than their rows
  -- before and its keys are distinct.
  pub store_changes-again :
      (rows : List (ChangeRow V)) (va : String) (v : ValidatorPerformance Float)
      → DistinctKeys string_discrete snapshot.validators
      → get string_discrete va snapshot.validators ≡ some v
      → All (λ x. x.created_at < snapshot.created_at) (changes_of va rows)
      → changes_of va (store_changes dec value snapshot (store_changes dec value snapshot rows))
        ≡ changes_of va (store_changes dec value snapshot rows)
  store_changes-again rows va v d h a =
      changes_of-store_changes (store_changes dec value snapshot rows) va v d h
      ∙ ap
          (λ b.
            if b
            then changes_of va (store_changes dec value snapshot rows)
            else changes_of va (store_changes dec value snapshot rows)
              ++ change dec value snapshot (va, v) ∷ [])
          (last_change-store_changes rows va v d h a)
