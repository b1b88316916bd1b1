-- ===== src/Store/Changes/Stored.antt =====
-- store/src/commissions.rs and store/src/versions.rs: when a snapshot adds a row for a validator, described
-- apart from the test of the code.
use delegation_strategy.Prelude.{
  ◌≡◌, ◌⊎◌, inl, inr, sym, ap, ◌∙◌, String, true, false, Option, none, some, List, [], ◌∷◌, ◌++◌,
  if-true, if-false, get, string_discrete, DistinctKeys, arith, Bool-cases, holds, ◌==◌, ◌&&◌,
  &&-left, &&-right, ==→eq, refl,
}
use delegation_strategy.Collect.Performance.{ValidatorPerformance, ValidatorsPerformanceSnapshot}
use delegation_strategy.Store.Changes.{
  ChangeRow, changes_of, last_change, is_unchanged, store_changes,
}
use delegation_strategy.Store.Changes.Appending.{is_last_unchanged, changes_of-store_changes}

of_holds : {A : Type 0} {x y : A} (d : Dec (x ≡ y)) → holds d ≡ true → x ≡ y
of_holds (yes p) h = p
of_holds (no n) h = cc

holds_of : {A : Type 0} {x y : A} (d : Dec (x ≡ y)) → x ≡ y → holds d ≡ true
holds_of (yes p) e = refl
holds_of (no n) e = absurd (n e)

module _ {Float V : Type 0} (dec : Discrete V) (value : ValidatorPerformance Float → V)
    (snapshot : ValidatorsPerformanceSnapshot Float) where
  -- The last row of a validator, if any, is of the snapshot's epoch and has the validator's value.
  abbrev pub IsStored : Option (ChangeRow V) → ValidatorPerformance Float → Type 0
  IsStored none v = ⊥
  IsStored (some row) v = (row.epoch ≡ snapshot.epoch) × (row.value ≡ value v)

  unchanged-eq :
      (row : ChangeRow V) (va : String) (v : ValidatorPerformance Float)
      → get string_discrete va snapshot.validators ≡ some v
      → is_last_unchanged dec value snapshot (some row) va
        ≡ ((row.epoch == snapshot.epoch) && holds (dec row.value (value v)))
  unchanged-eq row va v h = ap (is_unchanged dec value snapshot row) h

  unchanged-IsStored :
      (o : Option (ChangeRow V)) (va : String) (v : ValidatorPerformance Float)
      → get string_discrete va snapshot.validators ≡ some v
      → is_last_unchanged dec value snapshot o va ≡ true
      → IsStored o v
  unchanged-IsStored none va v h e = cc
  unchanged-IsStored (some row) va v h e =
      let t = sym (unchanged-eq row va v h) ∙ e in
      (
        ==→eq row.epoch snapshot.epoch (&&-left _ _ t),
        of_holds (dec row.value (value v)) (&&-right (row.epoch == snapshot.epoch) _ t),
      )

  changed-IsStored :
      (o : Option (ChangeRow V)) (va : String) (v : ValidatorPerformance Float)
      → get string_discrete va snapshot.validators ≡ some v
      → is_last_unchanged dec value snapshot o va ≡ false
      → ¬ IsStored o v
  changed-IsStored none va v h e s = s
  changed-IsStored (some row) va v h e s =
      let same = holds_of (dec row.value (value v)) s.1 in
      let f = sym (unchanged-eq row va v h) ∙ e in absurd (ground (arith, s.0, same, f))

  -- Where the keys of a snapshot are distinct, each of its validators keeps its rows if the last of them
  -- has the snapshot's epoch and the validator's value. Otherwise, and also if it has no row, one row is
  -- added behind them, with the validator's value and the epoch, slot and time of the snapshot.
  pub store_changes-present :
      (rows : List (ChangeRow V)) (va : String) (v : ValidatorPerformance Float)
      → DistinctKeys string_discrete snapshot.validators
      → get string_discrete va snapshot.validators ≡ some v
      → (IsStored (last_change (changes_of va rows)) v
          × (changes_of va (store_changes dec value snapshot rows) ≡ changes_of va rows))
        ⊎ ((¬ IsStored (last_change (changes_of va rows)) v)
            × (changes_of va (store_changes dec value snapshot rows)
                ≡ changes_of va rows
                  ++ record {
                    vote_account = va;
                    value = value v;
                    epoch_slot = snapshot.epoch_slot;
                    epoch = snapshot.epoch;
                    created_at = snapshot.created_at;
                  }
                    ∷ []))
  store_changes-present rows va v d h =
      let last = last_change (changes_of va rows) in
      let stored = changes_of-store_changes dec value snapshot rows va v d h in
      elim (Bool-cases (is_last_unchanged dec value snapshot last va)) [
        | inl e ↦ inl (unchanged-IsStored last va v h e, stored ∙ if-true _ _ _ e)
        | inr e ↦ inr (changed-IsStored last va v h e, stored ∙ if-false _ _ _ e)
      ]
