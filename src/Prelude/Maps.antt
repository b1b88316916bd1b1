-- ===== src/Prelude/Maps.antt =====
-- `HashMap` and `HashSet` as association lists and lists, in the order of first insertion.
-- The order in which a hash map is iterated is not specified; statements about the program hold for
-- every list of entries, so for every order.
use mathlib.Core.Path.{◌≡◌, refl, sym, ap, subst}
use mathlib.Core.Logic.{◌≢◌, ite, if_pos, if_neg}
use mathlib.Core.Bool.{Bool, true, false, ◌||◌}
use mathlib.Core.List.{List, [], ◌∷◌, ◌++◌, map}
use mathlib.Core.Option.{Option, none, some}
use native.Mathlib.Omega.{arith}
use delegation_strategy.Prelude.Lists.{All}
use delegation_strategy.Prelude.Tests.{holds}

abbrev pub HashMap {ℓ κ} : Type ℓ → Type κ → Type (ℓ ⊔ κ)
HashMap K V = List (K × V)

module _ {ℓ κ} {K : Type ℓ} {V : Type κ} where
  abbrev pub keys : HashMap K V → List K
  keys = map λ e. e.0

  abbrev pub values : HashMap K V → List V
  values = map λ e. e.1

abbrev pub or_default {ℓ} : {A : Type ℓ} → A → Option A → A
or_default d none = d
or_default d (some a) = a

module _ {ℓ} {K V : Type ℓ} (dec : Discrete K) where
  unfoldable pub get : K → HashMap K V → Option V
  get k [] = none
  get k ((j, v) ∷ m) = ite (dec j k) (some v) (get k m)

  -- `*m.entry(k).or_insert(d)` replaced by its image under `f`.
  unfoldable pub update : K → V → (V → V) → HashMap K V → HashMap K V
  update k d f [] = (k, f d) ∷ []
  update k d f ((j, v) ∷ m) = ite (dec j k) ((j, f v) ∷ m) ((j, v) ∷ update k d f m)

  unfoldable pub insert : K → V → HashMap K V → HashMap K V
  unfolding update
  insert k v m = update k v (λ _. v) m

  pub get-update :
      (k j : K) (d : V) (f : V → V) (m : HashMap K V)
      → get j (update k d f m) ≡ ite (dec k j) (some (f (or_default d (get k m)))) (get j m)
  unfolding get update
  get-update k j d f [] = refl
  get-update k j d f ((i, v) ∷ m) = ground (arith, get-update k j d f m)

  pub get-insert :
      (k j : K) (v : V) (m : HashMap K V) → get j (insert k v m) ≡ ite (dec k j) (some v) (get j m)
  unfolding insert
  get-insert k j v m = get-update k j v (λ _. v) m

  pub get-insert_self : (k : K) (v : V) (m : HashMap K V) → get k (insert k v m) ≡ some v
  get-insert_self k v m = ground (arith, get-insert k k v m)

  pub get-insert_ne : (k j : K) (v : V) (m : HashMap K V) → k ≢ j → get j (insert k v m) ≡ get j m
  get-insert_ne k j v m n = ground (arith, get-insert k j v m)

  -- Every key of the map stands in it once.
  abbrev pub DistinctKeys : HashMap K V → Type ℓ
  DistinctKeys [] = Unit
  DistinctKeys ((k, v) ∷ m) = (get k m ≡ none) × DistinctKeys m

  -- A property of all entries outlives an update that keeps it.
  pub All-update :
      (P : K × V → Type ℓ) (k : K) (d : V) (f : V → V) (m : HashMap K V)
      → P (k, f d)
      → ((v : V) → P (k, v) → P (k, f v))
      → All P m
      → All P (update k d f m)
  unfolding update
  All-update P k d f [] new old h = (new, tt)
  All-update P k d f ((j, v) ∷ m) new old h = elim (dec j k) [
    | yes e ↦ rw (if_pos _ e) (moved e, h.1)
    | no n ↦ rw (if_neg _ n) (h.0, All-update P k d f m new old h.1)
  ]
    where
      moved : j ≡ k → P (j, f v)
      moved e = subst (λ i. P (i, f v)) (sym e) (old v (subst (λ i. P (i, v)) e h.0))

  pub DistinctKeys-update :
      (k : K) (d : V) (f : V → V) (m : HashMap K V) → DistinctKeys m → DistinctKeys (update k d f m)
  unfolding update get
  DistinctKeys-update k d f [] h = (refl, tt)
  DistinctKeys-update k d f ((j, v) ∷ m) h = elim (dec j k) [
    | yes e ↦ rw (if_pos _ e) h
    | no n ↦ rw (if_neg _ n) (ground (arith, get-update k j d f m), DistinctKeys-update k d f m h.1)
  ]

  pub DistinctKeys-insert :
      (k : K) (v : V) (m : HashMap K V) → DistinctKeys m → DistinctKeys (insert k v m)
  unfolding insert
  DistinctKeys-insert k v m = DistinctKeys-update k v (λ _. v) m

  pub All-insert :
      (P : K × V → Type ℓ) (k : K) (v : V) (m : HashMap K V)
      → P (k, v)
      → All P m
      → All P (insert k v m)
  unfolding insert
  All-insert P k v m new h = All-update P k v (λ _. v) m new (λ _ _. new) h

  -- With distinct keys each entry is found under its key.
  pub All-get_self : (m : HashMap K V) → DistinctKeys m → All (λ e. get e.0 m ≡ some e.1) m
  unfolding get
  All-get_self [] d = tt
  All-get_self ((k, v) ∷ m) d = (ground arith, All-later k v m d.0 m (All-get_self m d.1))
    where
      All-later :
          (k : K) (v : V) (m : HashMap K V)
          → get k m ≡ none
          → (l : HashMap K V) → All (λ e. get e.0 m ≡ some e.1) l
          → All (λ e. get e.0 ((k, v) ∷ m) ≡ some e.1) l
      All-later k v m absent [] h = tt
      All-later k v m absent (e ∷ l) h = (ground (arith), All-later k v m absent l h.1)

module _ {ℓ} {K V : Type ℓ} (dec : Discrete K) where
  -- What every entry has, the entry found has.
  pub All-get :
      (P : K × V → Type ℓ) (k : K) (v : V) (m : HashMap K V)
      → All P m
      → get dec k m ≡ some v
      → P (k, v)
  unfolding get
  All-get P k v [] h e = cc
  All-get P k v ((j, w) ∷ m) h e = elim (dec j k) [
    | yes p ↦ subst (λ i. P (i, v)) p (subst (λ x. P (j, x)) (ground arith) h.0)
    | no n ↦ All-get P k v m h.1 (ground arith)
  ]

module _ {ℓ} {K V W : Type ℓ} (dec : Discrete K) (f : V → W) where
  get-map-none :
      (k : K) (m : HashMap K V) → get dec k m ≡ none → get dec k (map (λ e. (e.0, f e.1)) m) ≡ none
  unfolding get
  get-map-none k [] h = refl
  get-map-none k ((j, v) ∷ m) h = elim (dec j k) [
    | yes p ↦ absurd (ground arith)
    | no n ↦ ground (arith, get-map-none k m (ground arith))
  ]

  -- Mapping the values keeps the keys distinct.
  pub DistinctKeys-map :
      (m : HashMap K V) → DistinctKeys dec m → DistinctKeys dec (map (λ e. (e.0, f e.1)) m)
  DistinctKeys-map [] h = tt
  DistinctKeys-map ((k, v) ∷ m) h = (get-map-none k m h.0, DistinctKeys-map m h.1)

-- `HashSet::contains` and `HashSet::insert`.
module _ {ℓ} {K : Type ℓ} (dec : Discrete K) where
  unfoldable pub contains : K → List K → Bool
  contains k [] = false
  contains k (j ∷ ks) = holds (dec j k) || contains k ks

  unfoldable pub add : K → List K → List K
  unfolding contains
  add k ks = elim (contains k ks) [ true ↦ ks | false ↦ k ∷ ks ]

  pub contains-append :
      (k : K) (xs ys : List K) → contains k (xs ++ ys) ≡ (contains k xs || contains k ys)
  unfolding contains
  contains-append k [] ys = refl
  contains-append k (x ∷ xs) ys = ground (arith, contains-append k xs ys)

  pub contains-add :
      (k j : K) (ks : List K) → contains j (add k ks) ≡ (holds (dec k j) || contains j ks)
  unfolding add contains
  contains-add k j ks = ground (arith, step k ks)
    where
      step : (i : K) (l : List K) → i ≡ j → contains i l ≡ contains j l
      step i l e = ap (λ x. contains x l) e
