-- ===== src/Store/Query/Shown.antt =====
-- store/src/utils.rs: what a statement with many rows shows once its placeholders are bound to its
-- parameters, described apart from the code that writes it.
use delegation_strategy.Prelude.{
  ℕ, zero, suc, ◌+◌, String, List, [], ◌∷◌, ◌++◌, HashMap, get, Option, none, some, ℕ_discrete,
}
use delegation_strategy.Store.Query.{
  Token, InsertQueryCombiner, UpdateQueryCombiner, add_insert, add_update,
}

-- A token once the parameters are bound: a value in the place of its placeholder.
pub data Bound (A : Type 0) : Type 0 where
  text : String → Bound A
  value : A → Bound A
  unbound : Bound A

-- A row with the casts of its columns.
abbrev pub Row : Type 0 → Type 0
Row A = List A × HashMap ℕ String

module _ {A : Type 0} where
  -- `$n` is the n-th parameter, counted from 1.
  unfoldable pub param : ℕ → List A → Bound A
  param n [] = Bound.unbound
  param zero (a ∷ params) = Bound.unbound
  param (suc zero) (a ∷ params) = Bound.value a
  param (suc (suc n)) (a ∷ params) = param (suc n) params

  unfoldable pub bind : List A → Token → Bound A
  unfolding param
  bind params (Token.text s) = Bound.text s
  bind params (Token.placeholder n) = param n params

  -- The rows as the statement should show them: their values between commas and brackets, with
  -- their casts. (Texts are the same under every binding.)
  abbrev pub comma_shown : ℕ → List (Bound A)
  comma_shown zero = []
  comma_shown (suc i) = Bound.text "," ∷ []

  -- The cast behind the value at an index: two colons and the type that is given for the index.
  abbrev pub cast_shown : Option String → List (Bound A)
  cast_shown none = []
  cast_shown (some type) = Bound.text "::" ∷ Bound.text type ∷ []

  abbrev pub separator_shown : ℕ → Bound A
  separator_shown zero = Bound.text " "
  separator_shown (suc before) = Bound.text ","

  unfoldable pub row_values : HashMap ℕ String → ℕ → List A → List (Bound A)
  row_values types i [] = []
  row_values types i (v ∷ values) =
      comma_shown i
      ++ (Bound.value v ∷ (cast_shown (get ℕ_discrete i types) ++ row_values types (i + 1) values))

  unfoldable pub row_shown : ℕ → HashMap ℕ String → List A → List (Bound A)
  row_shown before types values =
      separator_shown before ∷ Bound.text "(" ∷ (row_values types 0 values ++ Bound.text ")" ∷ [])

  unfoldable pub rows_shown : ℕ → List (Row A) → List (Bound A)
  rows_shown before [] = []
  rows_shown before ((values, types) ∷ rows) =
      row_shown before types values ++ rows_shown (before + 1) rows

  -- Any rows added one after the other.
  unfoldable pub add_inserts : List (List A) → InsertQueryCombiner A → InsertQueryCombiner A
  add_inserts [] q = q
  add_inserts (row ∷ rows) q = add_inserts rows (add_insert row q)

  unfoldable pub add_updates : List (Row A) → UpdateQueryCombiner A → UpdateQueryCombiner A
  add_updates [] q = q
  add_updates ((values, types) ∷ rows) q = add_updates rows (add_update values types q)

  abbrev pub all_values : List (Row A) → List A
  all_values [] = []
  all_values ((values, types) ∷ rows) = values ++ all_values rows
