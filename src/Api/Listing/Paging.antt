-- ===== src/Api/Listing/Paging.antt =====
-- The pages of a listing: how long they are, how they follow each other, and their order.
use delegation_strategy.Prelude.{
  ℕ, zero, suc, ◌+◌, ◌-◌, ◌≡◌, refl, sym, ap, ap₂, ◌∙◌, min, String, Bool, true, leb, List, [], ◌∷◌,
  ◌++◌, map, map-append, take, drop, length, length-take, length-drop, length-map, length-sort_by,
  sort_by, sort_by-IsSorted, IsSorted, IsOrder, ascending-IsOrder, descending-IsOrder, F64, All,
  All-map, arith,
}
use delegation_strategy.Api.Listing.Order.{IsOrdered, order_of-IsOrdered}
use delegation_strategy.Store.Ranks.{Validators}
use delegation_strategy.Store.Dto.Validators.{ValidatorRecord}
use delegation_strategy.Api.Query.{GetValidatorsConfig, OrderField, OrderDirection}
use delegation_strategy.Api.Filter.{filter_validators}
use delegation_strategy.Api.Listing.{
  get_validators, directed, order_of, get_field_extractor, with_epochs, min_epoch_of,
}

module _ {A : Type 0} where
  take_nil : (n : ℕ) → take {A = A} n [] ≡ []
  take_nil zero = refl
  take_nil (suc n) = refl

  drop_nil : (n : ℕ) → drop {A = A} n [] ≡ []
  drop_nil zero = refl
  drop_nil (suc n) = refl

  take-append : (a b : ℕ) (xs : List A) → take (a + b) xs ≡ take a xs ++ take b (drop a xs)
  take-append zero b xs = let e : 0 + b ≡ b = omega arith in ap (λ n. take n xs) e
  take-append (suc a) b [] = take_nil (suc a + b) ∙ sym (take_nil b)
  take-append (suc a) b (x ∷ xs) =
      let e : suc a + b ≡ suc (a + b) = omega arith in
      ap (λ n. take n (x ∷ xs)) e ∙ ap (λ l. x ∷ l) (take-append a b xs)

  drop-drop : (o a : ℕ) (xs : List A) → drop (o + a) xs ≡ drop a (drop o xs)
  drop-drop zero a xs = let e : 0 + a ≡ a = omega arith in ap (λ n. drop n xs) e
  drop-drop (suc o) a [] = drop_nil (suc o + a) ∙ sym (drop_nil a)
  drop-drop (suc o) a (x ∷ xs) =
      let e : suc o + a ≡ suc (o + a) = omega arith in
      ap (λ n. drop n (x ∷ xs)) e ∙ drop-drop o a xs

  All-take : (P : A → Type 0) (n : ℕ) (xs : List A) → All P xs → All P (take n xs)
  All-take P zero xs h = tt
  All-take P (suc n) [] h = tt
  All-take P (suc n) (x ∷ xs) h = (h.0, All-take P n xs h.1)

  IsSorted-take :
      (le : A → A → Bool) (n : ℕ) (xs : List A) → IsSorted le xs → IsSorted le (take n xs)
  IsSorted-take le zero xs h = tt
  IsSorted-take le (suc n) [] h = tt
  IsSorted-take le (suc n) (x ∷ xs) h = (All-take _ n xs h.0, IsSorted-take le n xs h.1)

  IsSorted-drop :
      (le : A → A → Bool) (n : ℕ) (xs : List A) → IsSorted le xs → IsSorted le (drop n xs)
  IsSorted-drop le zero xs h = h
  IsSorted-drop le (suc n) [] h = tt
  IsSorted-drop le (suc n) (x ∷ xs) h = IsSorted-drop le n xs h.1

  -- A map that the order does not see keeps a list sorted.
  IsSorted-map :
      (le : A → A → Bool) (f : A → A) (xs : List A)
      → ((x y : A) → le (f x) (f y) ≡ le x y)
      → IsSorted le xs
      → IsSorted le (map f xs)
  IsSorted-map le f [] s h = tt
  IsSorted-map le f (x ∷ xs) s h = (All-map _ f xs (moved xs h.0), IsSorted-map le f xs s h.1)
    where
      moved : (l : List A) → All (λ y. le x y ≡ true) l → All (λ y. le (f x) (f y) ≡ true) l
      moved [] k = tt
      moved (y ∷ l) k = (s x y ∙ k.0, moved l k.1)

module _ (f64 : F64) where
  directed-IsOrder :
      (d : OrderDirection) (key : ValidatorRecord f64.Float → ℕ) → IsOrder (directed f64 d key)
  directed-IsOrder OrderDirection.asc key = ascending-IsOrder key
  directed-IsOrder OrderDirection.desc key = descending-IsOrder key

  order_of-IsOrder : (config : GetValidatorsConfig) → IsOrder (order_of f64 config)
  unfolding order_of
  order_of-IsOrder config =
      directed-IsOrder config.order_direction (get_field_extractor f64 config.order_field)

  directed-map :
      (d : OrderDirection) (key : ValidatorRecord f64.Float → ℕ)
      (f : ValidatorRecord f64.Float → ValidatorRecord f64.Float)
      → ((v : ValidatorRecord f64.Float) → key (f v) ≡ key v)
      → (x y : ValidatorRecord f64.Float) → directed f64 d key (f x) (f y) ≡ directed f64 d key x y
  directed-map OrderDirection.asc key f h x y = ap₂ leb (h x) (h y)
  directed-map OrderDirection.desc key f h x y = ap₂ leb (h y) (h x)

  get_field_extractor-with_epochs :
      (config : GetValidatorsConfig) (m : ℕ) (field : OrderField) (x : ValidatorRecord f64.Float)
      → get_field_extractor f64 field (with_epochs f64 config m x) ≡ get_field_extractor f64 field x
  unfolding get_field_extractor
  get_field_extractor-with_epochs config m OrderField.stake x = refl
  get_field_extractor-with_epochs config m OrderField.credits x = refl
  get_field_extractor-with_epochs config m OrderField.marinade_score x = refl
  get_field_extractor-with_epochs config m OrderField.apy x = refl
  get_field_extractor-with_epochs config m OrderField.commission x = refl
  get_field_extractor-with_epochs config m OrderField.uptime x = refl

  order_of-with_epochs :
      (config : GetValidatorsConfig) (m : ℕ) (x y : ValidatorRecord f64.Float)
      → order_of f64 config (with_epochs f64 config m x) (with_epochs f64 config m y)
        ≡ order_of f64 config x y
  unfolding order_of
  order_of-with_epochs config m =
      directed-map config.order_direction (get_field_extractor f64 config.order_field)
        (with_epochs f64 config m) (get_field_extractor-with_epochs config m config.order_field)

module _ (f64 : F64) (to_lowercase : String → String) (str_contains : String → String → Bool) where
  -- A page holds `limit` validators, or those that are left after `offset`.
  pub length-get_validators :
      (cached : Validators f64.Float) (config : GetValidatorsConfig)
      → length (get_validators f64 to_lowercase str_contains cached config)
        ≡ min config.limit
            (length (filter_validators f64 to_lowercase str_contains cached config) - config.offset)
  unfolding get_validators
  length-get_validators cached config =
      length-map _ (take config.limit (drop config.offset sorted))
      ∙ length-take config.limit (drop config.offset sorted)
      ∙ ap (min config.limit)
          (length-drop config.offset sorted ∙ ap (λ n. n - config.offset) (length-sort_by _ listed))
    where
      listed : List (ValidatorRecord f64.Float)
      listed = filter_validators f64 to_lowercase str_contains cached config

      sorted : List (ValidatorRecord f64.Float)
      sorted = sort_by (order_of f64 config) listed

  -- The configuration of another page of the same listing.
  abbrev pub page : ℕ → ℕ → GetValidatorsConfig → GetValidatorsConfig
  page offset limit config = record config { offset = offset; limit = limit }

  -- Two pages that follow each other are one larger page: no validator is skipped or repeated.
  pub get_validators-page :
      (cached : Validators f64.Float) (config : GetValidatorsConfig) (o a b : ℕ)
      → get_validators f64 to_lowercase str_contains cached (page o (a + b) config)
        ≡ get_validators f64 to_lowercase str_contains cached (page o a config)
          ++ get_validators f64 to_lowercase str_contains cached (page (o + a) b config)
  unfolding get_validators filter_validators order_of
  get_validators-page cached config o a b =
      ap (map shown) (
        take-append a b (drop o sorted)
        ∙ ap (λ l. take a (drop o sorted) ++ take b l) (sym (drop-drop o a sorted)))
      ∙ map-append shown (take a (drop o sorted)) (take b (drop (o + a) sorted))
    where
      sorted : List (ValidatorRecord f64.Float)
      sorted =
          sort_by (order_of f64 config)
            (filter_validators f64 to_lowercase str_contains cached config)

      shown : ValidatorRecord f64.Float → ValidatorRecord f64.Float
      shown = with_epochs f64 config (min_epoch_of f64 to_lowercase str_contains config sorted)

  -- A page is sorted by the field and in the direction asked for: of two validators the earlier one's
  -- value is not the larger one when ascending, and not the smaller one when descending.
  pub get_validators-IsSorted :
      (cached : Validators f64.Float) (config : GetValidatorsConfig)
      → IsOrdered f64 config.order_direction config.order_field
          (get_validators f64 to_lowercase str_contains cached config)
  unfolding get_validators
  get_validators-IsSorted cached config = order_of-IsOrdered f64 config _ (
      IsSorted-map (order_of f64 config) _ (take config.limit (drop config.offset sorted))
        (order_of-with_epochs f64 config _)
        (IsSorted-take _ config.limit (drop config.offset sorted) (
          IsSorted-drop _ config.offset sorted
            (sort_by-IsSorted _ (order_of-IsOrder f64 config) _))))
    where
      sorted : List (ValidatorRecord f64.Float)
      sorted =
          sort_by (order_of f64 config)
            (filter_validators f64 to_lowercase str_contains cached config)
