-- ===== src/Api/Listing/Order.antt =====
-- api/src/handlers/list_validators.rs: the order of a listing, described apart from the comparison that
-- the code sorts by.
use delegation_strategy.Prelude.{
  ℕ, ◌≤◌, ◌≡◌, refl, subst, true, Option, or_default, List, [], ◌∷◌, All, IsSorted, leb→le, F64,
}
use delegation_strategy.Store.Dto.Validators.{ValidatorRecord}
use delegation_strategy.Store.Fixed.{to_fixed_for_sort}
use delegation_strategy.Api.Query.{GetValidatorsConfig, OrderField, OrderDirection}
use delegation_strategy.Api.Listing.{directed, order_of, get_field_extractor}

module _ (f64 : F64) where
  abbrev pub fixed_of : Option f64.Float → ℕ
  fixed_of o = to_fixed_for_sort f64 (or_default (f64.of_nat 0) o)

  -- The value that a validator is listed by. An unknown commission counts as 100, an unknown float as 0.
  abbrev pub listed_by : OrderField → ValidatorRecord f64.Float → ℕ
  listed_by OrderField.stake v = v.activated_stake
  listed_by OrderField.credits v = v.credits
  listed_by OrderField.marinade_score v = fixed_of v.score
  listed_by OrderField.apy v = fixed_of v.avg_apy
  listed_by OrderField.commission v = or_default 100 v.commission_max_observed
  listed_by OrderField.uptime v = fixed_of v.avg_uptime_pct

  abbrev pub InDirection : OrderDirection → ℕ → ℕ → Type 0
  InDirection OrderDirection.asc earlier later = earlier ≤ later
  InDirection OrderDirection.desc earlier later = later ≤ earlier

  -- Each validator's value against those of all that follow.
  abbrev pub IsOrdered : OrderDirection → OrderField → List (ValidatorRecord f64.Float) → Type 0
  IsOrdered direction field [] = Unit
  IsOrdered direction field (v ∷ vs) =
      All (λ w. InDirection direction (listed_by field v) (listed_by field w)) vs
      × IsOrdered direction field vs

  listed_by-eq :
      (field : OrderField) (v : ValidatorRecord f64.Float)
      → get_field_extractor f64 field v ≡ listed_by field v
  unfolding get_field_extractor
  listed_by-eq OrderField.stake v = refl
  listed_by-eq OrderField.credits v = refl
  listed_by-eq OrderField.marinade_score v = refl
  listed_by-eq OrderField.apy v = refl
  listed_by-eq OrderField.commission v = refl
  listed_by-eq OrderField.uptime v = refl

  directed-InDirection :
      (d : OrderDirection) (key : ValidatorRecord f64.Float → ℕ) (v w : ValidatorRecord f64.Float)
      → directed f64 d key v w ≡ true
      → InDirection d (key v) (key w)
  directed-InDirection OrderDirection.asc key v w h = leb→le (key v) (key w) h
  directed-InDirection OrderDirection.desc key v w h = leb→le (key w) (key v) h

  pub order_of-IsOrdered :
      (config : GetValidatorsConfig) (vs : List (ValidatorRecord f64.Float))
      → IsSorted (order_of f64 config) vs
      → IsOrdered config.order_direction config.order_field vs
  order_of-IsOrdered config [] h = tt
  order_of-IsOrdered config (v ∷ vs) h = (all vs h.0, order_of-IsOrdered config vs h.1)
    where
      one :
          (w : ValidatorRecord f64.Float)
          → order_of f64 config v w ≡ true
          → InDirection config.order_direction
              (listed_by config.order_field v)
              (listed_by config.order_field w)
      one w e =
          subst (λ n. InDirection config.order_direction n (listed_by config.order_field w))
            (listed_by-eq config.order_field v)
            (subst
              (λ n.
                InDirection config.order_direction (get_field_extractor f64 config.order_field v) n)
              (listed_by-eq config.order_field w)
              (directed-InDirection config.order_direction
                (get_field_extractor f64 config.order_field) v w (unfold order_of in e)))

      all :
          (ws : List (ValidatorRecord f64.Float))
          → All (λ w. order_of f64 config v w ≡ true) ws
          → All
              (λ w.
                InDirection config.order_direction
                  (listed_by config.order_field v)
                  (listed_by config.order_field w))
              ws
      all [] k = tt
      all (w ∷ ws) k = (one w k.0, all ws k.1)
