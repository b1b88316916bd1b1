-- ===== src/Store/Query/Binding.antt =====
-- Whatever rows are added, each placeholder of the statement is bound to the value that was added
-- there.
use delegation_strategy.Prelude.{
  ℕ, zero, suc, ◌+◌, ◌≡◌, refl, sym, ap, ap₂, ◌∙◌, String, List, [], ◌∷◌, ◌++◌, HashMap, get,
  length, length-append, map, map-append, append_assoc, append-nil, arith, ℕ_discrete,
}
use delegation_strategy.Store.Query.{
  Token, InsertQueryCombiner, UpdateQueryCombiner, insert_values, new_insert, add_insert,
  update_values, new_update, add_update, comma, cast, separator,
}
use delegation_strategy.Store.Query.Shown.{
  Bound, Row, param, bind, comma_shown, cast_shown, separator_shown, row_values, row_shown,
  rows_shown, add_inserts, add_updates, all_values,
}

module _ {A : Type 0} where
  -- The parameter behind `before` of them.
  param-append :
      (before : List A) (v : A) (rest : List A)
      → param (suc (length before)) (before ++ v ∷ rest) ≡ Bound.value v
  unfolding param
  param-append [] v rest = refl
  param-append (b ∷ before) v rest = param-append before v rest

  comma-bind : (params : List A) (i : ℕ) → map (bind params) (comma i) ≡ comma_shown i
  unfolding bind comma
  comma-bind params zero = refl
  comma-bind params (suc i) = ground arith

  cast-bind :
      (params : List A) (types : HashMap ℕ String) (i : ℕ)
      → map (bind params) (cast types i) ≡ cast_shown (get ℕ_discrete i types)
  unfolding bind cast
  cast-bind params types i = ground arith

  separator-bind : (params : List A) (k : ℕ) → bind params (separator k) ≡ separator_shown k
  unfolding bind separator
  separator-bind params zero = refl
  separator-bind params (suc k) = ground arith

  update_values-bind :
      (types : HashMap ℕ String) (before : List A) (i bound : ℕ) (values rest : List A)
      → i + bound ≡ length before
      → map (bind (before ++ (values ++ rest))) (update_values types bound i values)
        ≡ row_values types i values
  unfolding update_values row_values bind
  update_values-bind types before i bound [] rest e = refl
  update_values-bind types before i bound (v ∷ values) rest e =
      map-append _ _ _
      ∙ ap₂ ◌++◌ (comma-bind _ i) (
          ap₂ ◌∷◌ bound_lem (
            map-append _ _ _
            ∙ ap₂ ◌++◌ (cast-bind _ types i) (
                ap (λ p. map (bind p) (update_values types bound (i + 1) values))
                  (sym (append_assoc before (v ∷ []) (values ++ rest)))
                ∙ update_values-bind types (before ++ v ∷ []) (i + 1) bound values rest
                    (omega (arith, length-append before (v ∷ []))))))
    where
      bound_lem :
          bind (before ++ (v ∷ values ++ rest)) (Token.placeholder (i + 1 + bound)) ≡ Bound.value v
      bound_lem =
          ap (λ n. param n (before ++ (v ∷ values ++ rest))) (omega arith)
          ∙ param-append before v (values ++ rest)

  -- The tokens that a row adds, and that rows add, from a number of rows and of parameters on.
  row_tokens : ℕ → ℕ → HashMap ℕ String → List A → List Token
  row_tokens before bound types values =
      separator before
      ∷ Token.text "("
      ∷ (update_values types bound 0 values ++ Token.text ")" ∷ [])

  update_tokens : ℕ → ℕ → List (Row A) → List Token
  update_tokens before bound [] = []
  update_tokens before bound ((values, types) ∷ rows) =
      row_tokens before bound types values
      ++ update_tokens (before + 1) (bound + length values) rows

  row_tokens-bind :
      (k bound : ℕ) (types : HashMap ℕ String) (before values rest : List A)
      → bound ≡ length before
      → map (bind (before ++ (values ++ rest))) (row_tokens k bound types values)
        ≡ row_shown k types values
  unfolding row_tokens row_shown bind
  row_tokens-bind k bound types before values rest e =
      ap₂ (λ first shown. first ∷ Bound.text "(" ∷ shown)
        (separator-bind (before ++ (values ++ rest)) k)
        (map-append _ (update_values types bound 0 values) (Token.text ")" ∷ [])
          ∙ ap (λ shown. shown ++ Bound.text ")" ∷ [])
              (update_values-bind types before 0 bound values rest (omega arith)))

  update_tokens-bind :
      (before : List A) (k bound : ℕ) (rows : List (Row A))
      → bound ≡ length before
      → map (bind (before ++ all_values rows)) (update_tokens k bound rows) ≡ rows_shown k rows
  unfolding update_tokens rows_shown
  update_tokens-bind before k bound [] e = refl
  update_tokens-bind before k bound ((values, types) ∷ rows) e =
      map-append (bind (before ++ (values ++ all_values rows))) (row_tokens k bound types values) _
      ∙ ap₂ ◌++◌ (row_tokens-bind k bound types before values (all_values rows) e) (
          ap (λ p. map (bind p) (update_tokens (k + 1) (bound + length values) rows))
            (sym (append_assoc before values (all_values rows)))
          ∙ update_tokens-bind (before ++ values) (k + 1) (bound + length values) rows
              (omega (arith, length-append before values)))

  -- What the rows leave in the combiner.
  add_updates-statement :
      (rows : List (Row A)) (q : UpdateQueryCombiner A)
      → (add_updates rows q).statement
        ≡ q.statement ++ update_tokens q.updates (length q.params) rows
  unfolding add_updates update_tokens add_update row_tokens
  add_updates-statement [] q = sym (append-nil q.statement)
  add_updates-statement ((values, types) ∷ rows) q =
      add_updates-statement rows (add_update values types q)
      ∙ ap
          (λ n.
            (q.statement ++ row_tokens q.updates (length q.params) types values)
            ++ update_tokens (q.updates + 1) n rows)
          (length-append q.params values)
      ∙ append_assoc q.statement (row_tokens q.updates (length q.params) types values) _

  add_updates-params :
      (rows : List (Row A)) (q : UpdateQueryCombiner A)
      → (add_updates rows q).params ≡ q.params ++ all_values rows
  unfolding add_updates add_update
  add_updates-params [] q = sym (append-nil q.params)
  add_updates-params ((values, types) ∷ rows) q =
      add_updates-params rows (add_update values types q)
      ∙ append_assoc q.params values (all_values rows)

  -- Rows added to a new UPDATE: with its placeholders bound, the statement shows its head, with the
  -- table and the updates, and then every row's own values, in order, each followed by two colons and
  -- the type that the row gives for the value's index, if it gives one.
  pub add_updates-bind :
      (table_name updates values_names where_condition : String) (rows : List (Row A))
      → let q = add_updates rows (new_update table_name updates values_names where_condition) in
        map (bind q.params) q.statement
        ≡ Bound.text "UPDATE "
          ∷ Bound.text table_name
          ∷ Bound.text " SET "
          ∷ Bound.text updates
          ∷ Bound.text " FROM (VALUES"
          ∷ rows_shown 0 rows
  unfolding new_update bind
  add_updates-bind t u n w rows =
      let q : UpdateQueryCombiner A = new_update t u n w in
      ap₂ (λ p s. map (bind p) s) (add_updates-params rows q) (add_updates-statement rows q)
      ∙ map-append (bind (all_values rows)) q.statement (update_tokens 0 0 rows)
      ∙ ap (λ shown. map (bind (all_values rows)) q.statement ++ shown)
          (update_tokens-bind [] 0 0 rows refl)

  -- An INSERT casts nothing.
  abbrev pub without_casts : List (List A) → List (Row A)
  without_casts = map λ row. (row, [])

  insert_values-eq :
      (bound i : ℕ) (values : List A)
      → insert_values bound i values ≡ update_values [] bound i values
  unfolding insert_values update_values cast get
  insert_values-eq bound i [] = refl
  insert_values-eq bound i (v ∷ values) =
      ap (λ t. comma i ++ (Token.placeholder (i + 1 + bound) ∷ t))
        (insert_values-eq bound (i + 1) values)

  add_inserts-statement :
      (rows : List (List A)) (q : InsertQueryCombiner A)
      → (add_inserts rows q).statement
        ≡ q.statement ++ update_tokens q.insertions (length q.params) (without_casts rows)
  unfolding add_inserts update_tokens add_insert row_tokens
  add_inserts-statement [] q = sym (append-nil q.statement)
  add_inserts-statement (values ∷ rows) q =
      add_inserts-statement rows (add_insert values q)
      ∙ ap₂
          (λ n row.
            (q.statement
              ++ (separator q.insertions ∷ Token.text "(" ∷ (row ++ Token.text ")" ∷ [])))
            ++ update_tokens (q.insertions + 1) n (without_casts rows))
          (length-append q.params values) (insert_values-eq (length q.params) 0 values)
      ∙ append_assoc q.statement (row_tokens q.insertions (length q.params) [] values) _

  add_inserts-params :
      (rows : List (List A)) (q : InsertQueryCombiner A)
      → (add_inserts rows q).params ≡ q.params ++ all_values (without_casts rows)
  unfolding add_inserts add_insert
  add_inserts-params [] q = sym (append-nil q.params)
  add_inserts-params (values ∷ rows) q =
      add_inserts-params rows (add_insert values q)
      ∙ append_assoc q.params values (all_values (without_casts rows))

  -- Rows added to a new INSERT: with its placeholders bound, the statement shows its head and then
  -- every row's own values, in order.
  pub add_inserts-bind :
      (table_name columns : String) (rows : List (List A))
      → let q = add_inserts rows (new_insert table_name columns) in
        map (bind q.params) q.statement
        ≡ map (bind []) (new_insert {A = A} table_name columns).statement
          ++ rows_shown 0 (without_casts rows)
  unfolding new_insert bind
  add_inserts-bind t c rows =
      let q : InsertQueryCombiner A = new_insert t c in
      let cast_rows = without_casts rows in
      ap₂ (λ p s. map (bind p) s) (add_inserts-params rows q) (add_inserts-statement rows q)
      ∙ map-append (bind (all_values cast_rows)) q.statement (update_tokens 0 0 cast_rows)
      ∙ ap (λ shown. map (bind (all_values cast_rows)) q.statement ++ shown)
          (update_tokens-bind [] 0 0 cast_rows refl)
