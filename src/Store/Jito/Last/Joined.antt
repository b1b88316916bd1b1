-- ===== src/Store/Jito/Last/Joined.antt =====
-- The records of both tables, joined: which keys the result has, and what stands under each.
use delegation_strategy.Prelude.{
  or_else, ◌≤◌, ◌≡◌, refl, sym, ap, subst, ap₂, ◌∙◌, Bool, false, ◌||◌, Option, none, some, is_some,
  List, [], ◌∷◌, HashMap, keys, map, find, count, if◌then◌else◌, holds, get, get-insert, insert,
  add, contains, contains-add, arith,
}
use delegation_strategy.Store.Dto.Records.{JitoMevRecord, JitoPriorityFeeRecord, JitoRecord}
use delegation_strategy.Store.Jito.Last.{
  Key, key_discrete, index, extend, mev_key, priority_fee_key, joined_record, combine_records,
}

-- The last record of a key.
abbrev pub last_with : {R : Type 0} → (R → Key) → Key → List R → Option R
last_with key k [] = none
last_with key k (r ∷ rs) =
    or_else (last_with key k rs) (if holds (key_discrete (key r) k) then some r else none)

get-index :
    {R : Type 0} (key : R → Key) (k : Key) (rs : List R) (m : HashMap Key R)
    → get key_discrete k (index key rs m) ≡ or_else (last_with key k rs) (get key_discrete k m)
unfolding index
get-index key k [] m = refl
get-index key k (r ∷ rs) m =
    get-index key k rs (insert key_discrete (key r) r m)
    ∙ ground (arith, get-insert key_discrete (key r) k r m)

get-index_nil :
    {R : Type 0} (key : R → Key) (k : Key) (rs : List R)
    → get key_discrete k (index key rs []) ≡ last_with key k rs
unfolding get
get-index_nil key k rs = get-index key k rs [] ∙ right_none (last_with key k rs)
  where
    right_none : {R : Type 0} (o : Option R) → or_else o none ≡ o
    right_none none = refl
    right_none (some r) = refl

contains-keys :
    {R : Type 0} (k : Key) (m : HashMap Key R)
    → contains key_discrete k (keys m) ≡ is_some (get key_discrete k m)
unfolding contains get
contains-keys k [] = refl
contains-keys k ((j, r) ∷ m) = ground (arith, contains-keys k m)

contains-extend :
    (k : Key) (ks all_keys : List Key)
    → contains key_discrete k (extend ks all_keys)
      ≡ (contains key_discrete k ks || contains key_discrete k all_keys)
unfolding contains extend
contains-extend k [] all_keys = refl
contains-extend k (j ∷ ks) all_keys =
    contains-extend k ks (add key_discrete j all_keys)
    ∙ ground (arith, contains-add key_discrete j k all_keys)

-- A record of the given key.
abbrev pub has_key : Key → JitoRecord → Bool
has_key k r = holds (key_discrete (r.vote_account, r.epoch) k)

module _ (mev : Key → Option JitoMevRecord) (fee : Key → Option JitoPriorityFeeRecord) where
  abbrev at_key : Key → JitoRecord
  at_key k = joined_record (mev k) (fee k) k

  find-map :
      (k : Key) (ks : List Key)
      → find (has_key k) (map at_key ks)
        ≡ (if contains key_discrete k ks then some (at_key k) else none)
  unfolding contains
  find-map k [] = refl
  find-map k (j ∷ ks) = ground (arith, find-map k ks, moved)
    where
      moved : j ≡ k → some (at_key j) ≡ some (at_key k)
      moved e = ap (λ i. some (at_key i)) e

  -- Each key has as many records as it stands among the keys.
  count-map :
      (k : Key) (ks : List Key)
      → count (has_key k) (map at_key ks) ≡ count (λ j. holds (key_discrete j k)) ks
  count-map k [] = refl
  count-map k (j ∷ ks) = ground (arith, count-map k ks)

count-absent :
    (k : Key) (ks : List Key)
    → contains key_discrete k ks ≡ false
    → count (λ j. holds (key_discrete j k)) ks ≡ 0
unfolding contains
count-absent k [] h = refl
count-absent k (j ∷ ks) h = ground (arith, count-absent k ks)

count-add :
    (j k : Key) (ks : List Key)
    → count (λ i. holds (key_discrete i k)) ks ≤ 1
    → count (λ i. holds (key_discrete i k)) (add key_discrete j ks) ≤ 1
unfolding add
count-add j k ks h = ground (arith, count-absent k ks, moved)
  where
    moved : j ≡ k → contains key_discrete j ks ≡ contains key_discrete k ks
    moved e = ap (λ i. contains key_discrete i ks) e

count-extend :
    (k : Key) (ks all_keys : List Key)
    → count (λ i. holds (key_discrete i k)) all_keys ≤ 1
    → count (λ i. holds (key_discrete i k)) (extend ks all_keys) ≤ 1
unfolding extend
count-extend k [] all_keys h = h
count-extend k (j ∷ ks) all_keys h =
    count-extend k ks (add key_discrete j all_keys) (count-add j k all_keys h)

-- What the outer join has under a key.
abbrev pub joined : Option JitoMevRecord → Option JitoPriorityFeeRecord → Key → Option JitoRecord
joined mev fee k = if is_some mev || is_some fee then some (joined_record mev fee k) else none

present :
    (b : Bool) (m : Option JitoMevRecord) (f : Option JitoPriorityFeeRecord) (k : Key)
    → b ≡ (is_some f || (is_some m || false))
    → (if b then some (joined_record m f k) else none) ≡ joined m f k
present b m f k h = ground arith

-- For every vote account and epoch, the result of joining has at most one record: it has one exactly if
-- one of the tables has a record of that key, with the values of the last such record of each table,
-- and none for a table that has no such record.
pub combine_records-joined :
    (mevs : List JitoMevRecord) (fees : List JitoPriorityFeeRecord) (k : Key)
    → (find (has_key k) (combine_records mevs fees)
        ≡ joined (last_with mev_key k mevs) (last_with priority_fee_key k fees) k)
      × (count (has_key k) (combine_records mevs fees) ≤ 1)
unfolding combine_records get contains
combine_records-joined mevs fees k =
    let mev = index mev_key mevs [] in
    let fee = index priority_fee_key fees [] in
    let all_keys = extend (keys fee) (extend (keys mev) []) in
    let by_mev = λ (j : Key). get key_discrete j mev in
    let by_fee = λ (j : Key). get key_discrete j fee in
    (
      find-map by_mev by_fee k all_keys
          ∙ present (contains key_discrete k all_keys) (by_mev k) (by_fee k) k (
              contains-extend k (keys fee) (extend (keys mev) [])
              ∙ ap₂ (λ a b. a || b) (contains-keys k fee)
                  (contains-extend k (keys mev) [] ∙ ap (λ a. a || false) (contains-keys k mev)))
          ∙ ap₂ (λ m f. joined m f k) (get-index_nil mev_key k mevs)
              (get-index_nil priority_fee_key k fees),
      subst (λ n. n ≤ 1) (sym (count-map by_mev by_fee k all_keys))
          (count-extend k (keys fee) _ (count-extend k (keys mev) [] (omega arith))),
    )
