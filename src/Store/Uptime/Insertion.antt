-- ===== src/Store/Uptime/Insertion.antt =====
-- The INSERT, seen from one validator.
use delegation_strategy.Prelude.{
  ℕ, suc, ◌≡◌, refl, ap, ◌∙◌, subst, inl, inr, String, none, some, List, [], ◌∷◌, ◌++◌, HashMap,
  arith, if◌then◌else◌, holds, string_discrete, get, contains, keep-append, append-nil, Bool-cases,
  DistinctKeys,
}
use delegation_strategy.Collect.Performance.{ValidatorPerformance, ValidatorsPerformanceSnapshot}
use delegation_strategy.Store.Uptime.{UptimeRow, of_account, insert_rows, new_row}

module _ {Float : Type 0} (snapshot : ValidatorsPerformanceSnapshot Float) where
  pub of_account-append :
      (va : String) (rows : List UptimeRow) (r : UptimeRow)
      → of_account va (rows ++ r ∷ []) ≡ (
          if holds (string_discrete r.vote_account va)
          then of_account va rows ++ r ∷ []
          else of_account va rows)
  of_account-append va rows r =
      keep-append _ rows (r ∷ []) ∙ ground (arith, append-nil (of_account va rows))

  pub insert_rows-absent :
      (va : String) (es : List String) (vs : HashMap String (ValidatorPerformance Float)) (i : ℕ)
      (rows : List UptimeRow)
      → get string_discrete va vs ≡ none
      → of_account va (insert_rows snapshot es vs i rows).rows ≡ of_account va rows
  unfolding insert_rows get
  insert_rows-absent va es [] i rows h = refl
  insert_rows-absent va es ((k, v) ∷ vs) i rows h =
      elim (Bool-cases (contains string_discrete k es)) [
        | inl e ↦ rw e (insert_rows-absent va es vs i rows (ground arith))
        | inr e ↦ rw e (
            insert_rows-absent va es vs (suc i) (rows ++ new_row snapshot k v i ∷ []) (ground arith)
            ∙ keep-append _ rows _
            ∙ ground (arith, append-nil (of_account va rows)))
      ]

  pub insert_rows-present :
      (va : String) (es : List String) (vs : HashMap String (ValidatorPerformance Float))
      (v : ValidatorPerformance Float) (i : ℕ) (rows : List UptimeRow)
      → DistinctKeys string_discrete vs
      → get string_discrete va vs ≡ some v
      → (j : ℕ) × (of_account va (insert_rows snapshot es vs i rows).rows ≡ (
          if contains string_discrete va es
          then of_account va rows
          else of_account va rows ++ new_row snapshot va v j ∷ []))
  unfolding insert_rows get
  insert_rows-present va es [] v i rows d h = cc
  insert_rows-present va es ((k, w) ∷ vs) v i rows d h = elim (string_discrete k va) [
    | yes p ↦ (
      i,
      elim (Bool-cases (contains string_discrete k es)) [
        | inl e ↦ rw e (
            insert_rows-absent va es vs i rows (own-absent p)
            ∙ ground (arith, ap (λ x. contains string_discrete x es) p))
        | inr e ↦ rw e (
            insert_rows-absent va es vs (suc i) (rows ++ new_row snapshot k w i ∷ []) (own-absent p)
            ∙ of_account-append va rows (new_row snapshot k w i)
            ∙ ground (arith, ap (λ x. contains string_discrete x es) p, own p))
      ],
    )
    | no n ↦ elim (Bool-cases (contains string_discrete k es)) [
      | inl e ↦ rw e (insert_rows-present va es vs v i rows d.1 (ground arith))
      | inr e ↦
          let (j, f) =
            insert_rows-present va es vs v (suc i) (rows ++ new_row snapshot k w i ∷ []) d.1
              (ground arith) in
          (j, rw e (f ∙ ground (arith, of_account-append va rows (new_row snapshot k w i))))
    ]
  ]
    where
      own-absent : k ≡ va → get string_discrete va vs ≡ none
      own-absent p = subst (λ x. get string_discrete x vs ≡ none) p d.0

      own : k ≡ va → w ≡ v
      own p = ground arith
