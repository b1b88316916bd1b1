-- ===== src/Store/Validators/Described.antt =====
-- store/src/validators.rs: the table after a snapshot of the validators is stored, row by row.
use delegation_strategy.Prelude.{
  or_else, ℕ, ◌≡◌, inl, inr, refl, sym, ap, subst, ◌∙◌, String, Option, none, some, Option-cases,
  List, [], ◌∷◌, ◌++◌, HashMap, insert, get, get-insert, map, keep, map_option, All, All-map,
  All-imp, All-keep_of, All-get_self, string_discrete, ℕ_discrete, arith,
}
use delegation_strategy.Store.Query.{ok}
use delegation_strategy.Store.Dto.Rows.{Validator}
use delegation_strategy.Store.Upsert.{existing_vote_accounts, new_row, is_new}
use delegation_strategy.Store.Upsert.Merged.{merged, merged_row}
use delegation_strategy.Collect.Validators.{ValidatorSnapshot, Snapshot}
use delegation_strategy.Store.Validators.{
  new_from_snapshot, validator_columns, validators_by_account, validators_upsert, store_validators,
  revised, inserted_validator,
}
use delegation_strategy.Store.Validators.Stored.{
  validators_by_account-IsOwn, store_validators-eq-merged,
}
use delegation_strategy.Store.Validators.ColumnWise.{
  last_listed, IsDescribed, computed_columns, IsAfter, AreAfter, IsAdded, revised-IsDescribed,
  inserted-IsDescribed,
}

module _ {Float : Type 0} where
  -- The map of the code, by the list that it is collected from.
  get-validators_by_account :
      (epoch : ℕ) (va : String) (vs : List (ValidatorSnapshot Float))
      (m : HashMap String (Validator Float))
      → get string_discrete va (validators_by_account epoch vs m)
        ≡ or_else
            (map_option (λ v. new_from_snapshot v epoch) (last_listed va vs))
            (get string_discrete va m)
  unfolding validators_by_account last_listed
  get-validators_by_account epoch va [] m = refl
  get-validators_by_account epoch va (v ∷ vs) m =
      let new = new_from_snapshot v epoch in
      get-validators_by_account epoch va vs (insert string_discrete v.vote_account new m)
      ∙ elim (Option-cases (last_listed va vs)) [
        | inl e ↦ rw e (ground (arith, get-insert string_discrete v.vote_account va new m))
        | inr (w, e) ↦ rw e refl
      ]

  last_listed-account :
      (va : String) (vs : List (ValidatorSnapshot Float)) (v : ValidatorSnapshot Float)
      → last_listed va vs ≡ some v
      → v.vote_account ≡ va
  unfolding last_listed
  last_listed-account va [] v h = cc
  last_listed-account va (w ∷ vs) v h = elim (Option-cases (last_listed va vs)) [
    | inr (x, e) ↦ last_listed-account va vs v (ground (arith, e, h))
    | inl e ↦ elim (string_discrete w.vote_account va) [
      | yes p ↦
          let same : w ≡ v = ground (arith, e, h, p) in
          subst (λ (x : ValidatorSnapshot Float). x.vote_account ≡ va) same p
      | no n ↦ absurd (ground (arith, e, h, n))
    ]
  ]

  module _ (s : Snapshot Float) where
    abbrev found_in : String → Option (Validator Float)
    found_in va = get string_discrete va (validators_by_account s.epoch s.validators [])

    found_in-eq :
        (va : String)
        → found_in va ≡ map_option (λ v. new_from_snapshot v s.epoch) (last_listed va s.validators)
    unfolding get
    found_in-eq va = get-validators_by_account s.epoch va s.validators [] ∙ whole _
      where
        whole : (o : Option (Validator Float)) → or_else o none ≡ o
        whole none = refl
        whole (some v) = refl

    merged_row-IsAfter :
        (r : Validator Float)
        → IsAfter s r (merged_row (validator_columns s.created_at) (validators_upsert s) r)
    unfolding validators_upsert
    merged_row-IsAfter r = elim (ℕ_discrete r.epoch s.epoch) [
      | no n ↦ inr (inl n, ground (arith, n))
      | yes p ↦ elim (Option-cases (last_listed r.vote_account s.validators)) [
        | inl e ↦
            let absent : found_in r.vote_account ≡ none =
              found_in-eq r.vote_account ∙ ap (map_option (λ v. new_from_snapshot v s.epoch)) e in
            inr (inr e, ground (arith, absent))
        | inr (v, e) ↦
            let new = new_from_snapshot v s.epoch in
            let present : found_in r.vote_account ≡ some new =
              found_in-eq r.vote_account ∙ ap (map_option (λ v. new_from_snapshot v s.epoch)) e in
            let after : revised s.created_at r new
                ≡ merged_row (validator_columns s.created_at) (validators_upsert s) r =
              ground (arith, present, p) in
            inl (
              v,
              p,
              e,
              subst (IsDescribed s v) after (revised-IsDescribed s v r),
              subst (λ r'. r'.version ≡ or_else v.performance.version r.version) after (version v),
              subst (λ r'. computed_columns r' ≡ computed_columns r) after refl,
            )
      ]
    ]
      where
        version :
            (v : ValidatorSnapshot Float)
            → (revised s.created_at r (new_from_snapshot v s.epoch)).version
              ≡ or_else v.performance.version r.version
        version v = unfold new_from_snapshot in refl

    map-AreAfter :
        (rows : List (Validator Float))
        → AreAfter s rows
            (map (merged_row (validator_columns s.created_at) (validators_upsert s)) rows)
    map-AreAfter [] = tt
    map-AreAfter (r ∷ rows) = (merged_row-IsAfter r, map-AreAfter rows)

    inserted-IsAdded :
        (e : String × Validator Float)
        → found_in e.0 ≡ some e.1
        → IsAdded s (inserted_validator s.created_at e.1)
    inserted-IsAdded e h = elim (Option-cases (last_listed e.0 s.validators)) [
      | inl p ↦
          let absent = found_in-eq e.0 ∙ ap (map_option (λ v. new_from_snapshot v s.epoch)) p in
          absurd (ground (arith, absent, h))
      | inr (v, p) ↦
          let present = found_in-eq e.0 ∙ ap (map_option (λ v. new_from_snapshot v s.epoch)) p in
          let own : new_from_snapshot v s.epoch ≡ e.1 = ground (arith, present, h) in
          let listed =
            subst (λ va. last_listed va s.validators ≡ some v)
              (sym (last_listed-account e.0 s.validators v p)) p in
          subst (λ n. IsAdded s (inserted_validator s.created_at n)) own
            (
              v,
              unfold new_from_snapshot in listed,
              inserted-IsDescribed s v,
              unfold new_from_snapshot in refl,
              unfold new_from_snapshot in refl,
            )
    ]

    -- When no statement fails, the table after a snapshot is stored has each row of before, in its place,
    -- and new rows behind them, and is the snapshot merged into the table. A row of the snapshot's epoch
    -- whose validator the snapshot lists is described by the last validator that is listed so: each of
    -- its columns has that validator's value, but a version that the snapshot does not know and the
    -- observed and effective commissions and the uptimes, which stay. All other rows are unchanged. Each
    -- new row is described so by a listed validator, and has none of the computed columns.
    pub store_validators-IsDescribed :
        {E : Type 0} (fails : ℕ → Option E) (rows : List (Validator Float))
        → ((k : ℕ) → fails k ≡ none)
        → (old : List (Validator Float)) × (new : List (Validator Float)) × (store_validators fails
              s rows
            ≡ (old ++ new, ok tt))
          × (old ++ new ≡ merged (validator_columns s.created_at) (validators_upsert s) rows)
          × AreAfter s rows old
          × All (IsAdded s) new
    unfolding merged
    store_validators-IsDescribed fails rows h =
        let columns = validator_columns s.created_at in
        let upsert = validators_upsert s in
        let own = validators_by_account-IsOwn s s.validators [] tt tt in
        let p = is_new columns upsert (existing_vote_accounts columns upsert rows) in
        (
          _,
          _,
          store_validators-eq-merged fails s rows h,
          refl,
          map-AreAfter rows,
          All-map (IsAdded s) (new_row columns upsert) (keep p upsert.validators) (
              All-keep_of (λ e. IsAdded s (inserted_validator s.created_at e.1)) p upsert.validators
                (All-imp (λ e. found_in e.0 ≡ some e.1) _ upsert.validators inserted-IsAdded
                  (unfold validators_upsert in
                    All-get_self string_discrete upsert.validators own.0))),
        )
