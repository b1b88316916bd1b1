-- ===== src/Store/Query.antt =====
-- store/src/utils.rs: `InsertQueryCombiner` and `UpdateQueryCombiner`, which put many rows into one
-- statement. A statement is a list of tokens in place of its text: `format!("${}", n)` is
-- `placeholder n`, all else is `text`. The database client is a parameter: it takes a statement and
-- its parameters, and answers with a number of rows or with an error.
pub mod Shown
pub mod Binding
use delegation_strategy.Prelude.{
  ℕ, suc, ◌+◌, String, Option, none, some, List, [], ◌∷◌, ◌++◌, HashMap, get, length, ltb, ◌==◌,
  if◌then◌else◌, ℕ_discrete, ◌≡◌, refl, ◌⊎◌, inl, inr,
}

pub data Token : Type 0 where
  text : String → Token
  placeholder : ℕ → Token

-- `anyhow::Result`, over the client's errors.
pub data Result (E A : Type 0) : Type 0 where
  ok : A → Result E A
  err : E → Result E A

-- `?` on a result.
abbrev pub and_then : {E A B : Type 0} → Result E A → (A → Result E B) → Result E B
and_then (ok a) f = f a
and_then (err e) f = err e

-- The loop over the rows of a query, with `?` on what becomes of each.
abbrev pub map_rows : {E A B : Type 0} → (A → Result E B) → List A → Result E (List B)
map_rows f [] = ok []
map_rows f (r ∷ rs) = and_then (f r) (λ b. and_then (map_rows f rs) (λ bs. ok (b ∷ bs)))

pub and_then-ok :
    {E A B : Type 0} (m : Result E A) (f : A → Result E B) (a : A) → m ≡ ok a → and_then m f ≡ f a
and_then-ok (ok b) f a h = cc
and_then-ok (err e) f a h = cc

pub Result-cases :
    {E A : Type 0} (m : Result E A) → ((a : A) × (m ≡ ok a)) ⊎ ((e : E) × (m ≡ err e))
Result-cases (ok a) = inl (a, refl)
Result-cases (err e) = inr (e, refl)

-- What a successful chain of results passed on.
pub and_then-eq-ok :
    {E A B : Type 0} (m : Result E A) (f : A → Result E B) (b : B)
    → and_then m f ≡ ok b
    → (a : A) × (m ≡ ok a) × (f a ≡ ok b)
and_then-eq-ok (ok a) f b h = (a, refl, h)
and_then-eq-ok (err e) f b h = cc

pub ok_injective : {E A : Type 0} (m : Result E A) (a b : A) → m ≡ ok a → m ≡ ok b → a ≡ b
ok_injective m a b e f = cc

pub record InsertQueryCombiner (A : Type 0) : Type 0 where
  pub insertions : ℕ
  pub statement : List Token
  pub params : List A

pub record UpdateQueryCombiner (A : Type 0) : Type 0 where
  pub updates : ℕ
  pub statement : List Token
  pub values_names : String
  pub where_condition : String
  pub params : List A

-- The comma in front of every value but the first, and the cast behind a value.
pub comma : ℕ → List Token
comma i = if ltb 0 i then text "," ∷ [] else []

pub cast : HashMap ℕ String → ℕ → List Token
cast types i = elim (get ℕ_discrete i types) [ none ↦ [] | some t ↦ text "::" ∷ text t ∷ [] ]

-- The separator in front of a row.
pub separator : ℕ → Token
separator rows = text (if rows == 0 then " " else ",")

abbrev pub Client : Type 0 → Type 0 → Type 0
Client E A = List Token → List A → Result E ℕ

module _ {A : Type 0} where
  -- The loop of `InsertQueryCombiner::add` over the values of a row, from the index `i` on; `bound`
  -- is the number of parameters bound before the row.
  pub insert_values : ℕ → ℕ → List A → List Token
  insert_values bound i [] = []
  insert_values bound i (v ∷ values) =
      comma i ++ (placeholder (i + 1 + bound) ∷ insert_values bound (i + 1) values)

  pub new_insert : String → String → InsertQueryCombiner A
  new_insert table_name columns = record {
    insertions = 0;
    statement =
        text "INSERT INTO " ∷ text table_name ∷ text " (" ∷ text columns ∷ text ") VALUES" ∷ [];
    params = [];
  }

  pub add_insert : List A → InsertQueryCombiner A → InsertQueryCombiner A
  add_insert values q = record {
    insertions = q.insertions + 1;
    statement =
        q.statement
        ++ (separator q.insertions
            ∷ text "("
            ∷ (insert_values (length q.params) 0 values ++ text ")" ∷ []));
    params = q.params ++ values;
  }

  unfoldable pub execute_insert :
      {E : Type 0} → Client E A → InsertQueryCombiner A → Result E (Option ℕ)
  execute_insert client q =
      if q.insertions == 0
      then ok none
      else elim (client q.statement q.params) [ ok n ↦ ok (some n) | err e ↦ err e ]

  -- The same loop of `UpdateQueryCombiner::add`, with the casts of `types`.
  pub update_values : HashMap ℕ String → ℕ → ℕ → List A → List Token
  update_values types bound i [] = []
  update_values types bound i (v ∷ values) =
      comma i
      ++ (placeholder (i + 1 + bound) ∷ (cast types i ++ update_values types bound (i + 1) values))

  pub new_update : String → String → String → String → UpdateQueryCombiner A
  new_update table_name updates values_names where_condition = record {
    updates = 0;
    statement =
        text "UPDATE " ∷ text table_name ∷ text " SET " ∷ text updates ∷ text " FROM (VALUES" ∷ [];
    values_names = values_names;
    where_condition = where_condition;
    params = [];
  }

  pub add_update : List A → HashMap ℕ String → UpdateQueryCombiner A → UpdateQueryCombiner A
  add_update values types q = record q {
    updates = q.updates + 1;
    statement =
        q.statement
        ++ (separator q.updates
            ∷ text "("
            ∷ (update_values types (length q.params) 0 values ++ text ")" ∷ []));
    params = q.params ++ values;
  }

  -- The statement is closed when it is sent, and stays closed.
  unfoldable pub execute_update :
      {E : Type 0}
      → Client E A
      → UpdateQueryCombiner A
      → Result E (Option ℕ) × UpdateQueryCombiner A
  execute_update client q =
      let closed =
        q.statement
        ++ (text ") AS " ∷ text q.values_names ∷ text " WHERE " ∷ text q.where_condition ∷ []) in
      if q.updates == 0 then (ok none, q) else (
        elim (client closed q.params) [ ok n ↦ ok (some n) | err e ↦ err e ],
        record q { statement = closed },
      )
