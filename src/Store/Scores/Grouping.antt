-- ===== src/Store/Scores/Grouping.antt =====
-- The scores of each run among the rows.
use delegation_strategy.Prelude.{
  ℕ, &&-left, &&-right, if-true, ◌≡◌, refl, sym, ◌∙◌, true, List, [], ◌∷◌, ◌++◌, append-nil,
  append_assoc, HashMap, get, update, get-update, or_default, keep, all, ◌==◌, ℕ_discrete, arith,
}
use delegation_strategy.Store.Query.{ok, err}
use delegation_strategy.Store.Dto.Scores.{ValidatorScoreRecord}
use delegation_strategy.Store.Scores.{converts, group_scores, load_all_scores}

module _ {Float : Type 0} where
  -- The scores under a run's id, and the rows of that id.
  abbrev pub scores_at :
      ℕ → HashMap ℕ (List (ValidatorScoreRecord Float)) → List (ValidatorScoreRecord Float)
  scores_at id m = or_default [] (get ℕ_discrete id m)

  abbrev pub rows_of : ℕ → List (ValidatorScoreRecord Float) → List (ValidatorScoreRecord Float)
  rows_of id = keep (λ r. r.scoring_run_id == id)

  push-rows_of :
      (id : ℕ) (row : ValidatorScoreRecord Float) (rows : List (ValidatorScoreRecord Float))
      (m : HashMap ℕ (List (ValidatorScoreRecord Float)))
      → scores_at id (update ℕ_discrete row.scoring_run_id [] (λ l. l ++ row ∷ []) m)
          ++ rows_of id rows
        ≡ scores_at id m ++ rows_of id (row ∷ rows)
  push-rows_of id row rows m = ground (
    arith,
    get-update ℕ_discrete row.scoring_run_id id [] (λ l. l ++ row ∷ []) m,
    append_assoc (scores_at id m) (row ∷ []) (rows_of id rows),
  )

module _ {Float E : Type 0} (e : E) where
  group_scores-ok :
      (rows : List (ValidatorScoreRecord Float)) (m : HashMap ℕ (List (ValidatorScoreRecord Float)))
      → all converts rows ≡ true
      → (m' : HashMap ℕ (List (ValidatorScoreRecord Float))) × (group_scores e rows m ≡ ok m')
        × ((id : ℕ) → scores_at id m' ≡ scores_at id m ++ rows_of id rows)
  unfolding group_scores
  group_scores-ok [] m h = (m, refl, λ id. sym (append-nil (scores_at id m)))
  group_scores-ok (row ∷ rows) m h =
      let (m', f, g) =
        group_scores-ok rows (update ℕ_discrete row.scoring_run_id [] (λ l. l ++ row ∷ []) m)
          (&&-right (converts row) (all converts rows) h) in
      (
        m',
        if-true (converts row) _ (err e) (&&-left (converts row) (all converts rows) h) ∙ f,
        λ id. g id ∙ push-rows_of id row rows m,
      )

  -- If the numbers of all rows convert, the scores of each run are exactly its rows, in order.
  pub load_all_scores-ok :
      (rows : List (ValidatorScoreRecord Float))
      → all converts rows ≡ true
      → (records : HashMap ℕ (List (ValidatorScoreRecord Float))) × (load_all_scores e (ok rows)
          ≡ ok records)
        × ((id : ℕ) → scores_at id records ≡ rows_of id rows)
  unfolding load_all_scores get
  load_all_scores-ok rows h = group_scores-ok rows [] h
