-- ===== src/Store/Averages/Warnings.antt =====
-- Which warnings a validator carries.
use delegation_strategy.Prelude.{
  ℕ, ◌≤◌, ◌<◌, ◌≡◌, refl, Bool, true, false, List, [], ◌∷◌, ◌++◌, map, Any, here, there, ltb, ◌↔◌,
  ◌⊎◌, ltb→lt, F64, or_default, keep, maximum, arith, dec_lt, Bool-cases, inl, inr,
}
use delegation_strategy.Store.Dto.Validators.{
  ValidatorEpochStats, ValidatorRecord, ValidatorWarning,
}
use delegation_strategy.Store.Averages.{
  warnings_of, has_low_uptime, in_range, push_if, max_effective_commission,
}

-- The warning is on the list.
abbrev pub Has : ValidatorWarning → List ValidatorWarning → Type 0
Has w = Any (λ x. x ≡ w)

module _ (f64 : F64) where
  -- A statistic of the epochs `first..=last` with an effective commission above 10.
  abbrev pub IsHigh : ℕ → ℕ → ValidatorEpochStats f64.Float → Type 0
  IsHigh first last s =
      (first ≤ s.epoch) × (s.epoch ≤ last) × (10 < or_default 0 s.commission_effective)

  -- The largest commission of the range exceeds 10 exactly when one of them does.
  IsHigh-to :
      (first last : ℕ) (ss : List (ValidatorEpochStats f64.Float))
      → 10
        < maximum (
            map
              (λ s. or_default 0 s.commission_effective)
              (keep (λ s. in_range first last s.epoch) ss))
      → Any (IsHigh first last) ss
  IsHigh-to first last [] h = absurd (omega arith)
  IsHigh-to first last (s ∷ ss) h = elim (Bool-cases (in_range first last s.epoch)) [
    | inl e ↦ elim (dec_lt 10 (or_default 0 s.commission_effective)) [
      | yes c ↦ here (ground arith)
      | no c ↦ there (IsHigh-to first last ss (ground arith))
    ]
    | inr e ↦ there (IsHigh-to first last ss (ground arith))
  ]

  IsHigh-from :
      (first last : ℕ) (ss : List (ValidatorEpochStats f64.Float))
      → Any (IsHigh first last) ss
      → 10
        < maximum (
            map
              (λ s. or_default 0 s.commission_effective)
              (keep (λ s. in_range first last s.epoch) ss))
  IsHigh-from first last [] a = elim a [ ]
  IsHigh-from first last (s ∷ ss) (here e) = ground arith
  IsHigh-from first last (s ∷ ss) (there a) = ground (arith, IsHigh-from first last ss a)

Has-push :
    (x w : ValidatorWarning) (ws : List ValidatorWarning)
    → Has x (ws ++ w ∷ [])
    → Has x ws ⊎ (w ≡ x)
Has-push x w [] (here e) = inr e
Has-push x w [] (there a) = elim a [ ]
Has-push x w (y ∷ ws) (here e) = inl (here e)
Has-push x w (y ∷ ws) (there a) = elim (Has-push x w ws a) [ inl b ↦ inl (there b) | inr e ↦ inr e ]

Has-push_old :
    (x w : ValidatorWarning) (ws : List ValidatorWarning) → Has x ws → Has x (ws ++ w ∷ [])
Has-push_old x w [] a = elim a [ ]
Has-push_old x w (y ∷ ws) (here e) = here e
Has-push_old x w (y ∷ ws) (there a) = there (Has-push_old x w ws a)

Has-push_new : (w : ValidatorWarning) (ws : List ValidatorWarning) → Has w (ws ++ w ∷ [])
Has-push_new w [] = here refl
Has-push_new w (y ∷ ws) = there (Has-push_new w ws)

module _ (f64 : F64) where
  push_if-to :
      (c : Bool) (x w : ValidatorWarning) (ws : List ValidatorWarning)
      → Has x (push_if f64 c w ws)
      → Has x ws ⊎ ((c ≡ true) × (w ≡ x))
  push_if-to true x w ws a = elim (Has-push x w ws a) [ inl b ↦ inl b | inr e ↦ inr (refl, e) ]
  push_if-to false x w ws a = inl a

  push_if-old :
      (c : Bool) (x w : ValidatorWarning) (ws : List ValidatorWarning)
      → Has x ws
      → Has x (push_if f64 c w ws)
  push_if-old true x w ws a = Has-push_old x w ws a
  push_if-old false x w ws a = a

  push_if-new :
      (c : Bool) (w : ValidatorWarning) (ws : List ValidatorWarning)
      → c ≡ true
      → Has w (push_if f64 c w ws)
  push_if-new true w ws e = Has-push_new w ws
  push_if-new false w ws e = cc

  -- For a validator without warnings so far: it is warned of the superminority exactly if it is in
  -- it, of its uptime exactly if that, 0 where unknown, is below 0.9, and of its commission exactly if
  -- some epoch of the range has an effective commission above 10.
  pub warnings_of_iff :
      (first last : ℕ) (v : ValidatorRecord f64.Float)
      → v.warnings ≡ []
      → (Has ValidatorWarning.superminority (warnings_of f64 first last v)
          ↔ (v.superminority ≡ true))
        × (Has ValidatorWarning.low_uptime (warnings_of f64 first last v)
            ↔ (has_low_uptime f64 v ≡ true))
        × (Has ValidatorWarning.high_commission (warnings_of f64 first last v)
            ↔ Any (IsHigh f64 first last) v.epoch_stats)
  unfolding warnings_of
  warnings_of_iff first last v e = rw e (
    (
      λ a. elim (reasons ValidatorWarning.superminority a) [
        | inl p ↦ p.0
        | inr (inl p) ↦ cc
        | inr (inr p) ↦ cc
      ],
      λ h. push_if-old _ _ _ _ (push_if-old _ _ _ _ (push_if-new v.superminority _ [] h)),
    ),
    (
      λ a. elim (reasons ValidatorWarning.low_uptime a) [
        | inl p ↦ cc
        | inr (inl p) ↦ p.0
        | inr (inr p) ↦ cc
      ],
      λ h. push_if-old _ _ _ _ (push_if-new (has_low_uptime f64 v) _ _ h),
    ),
    (
      λ a. elim (reasons ValidatorWarning.high_commission a) [
        | inl p ↦ cc
        | inr (inl p) ↦ cc
        | inr (inr p) ↦ IsHigh-to f64 first last v.epoch_stats (ltb→lt _ _ p.0)
      ],
      λ h.
          push_if-new (ltb 10 (max_effective_commission f64 first last v)) _ _
            (lt_ltb (IsHigh-from f64 first last v.epoch_stats h)),
    ),
  )
    where
      lt_ltb : {n : ℕ} → 10 < n → ltb 10 n ≡ true
      lt_ltb h = ground arith

      reasons :
          (x : ValidatorWarning)
          → Has x (
              push_if f64
                (ltb 10 (max_effective_commission f64 first last v))
                ValidatorWarning.high_commission
                (push_if f64
                  (has_low_uptime f64 v)
                  ValidatorWarning.low_uptime
                  (push_if f64 v.superminority ValidatorWarning.superminority [])))
          → ((v.superminority ≡ true) × (ValidatorWarning.superminority ≡ x))
            ⊎ (((has_low_uptime f64 v ≡ true) × (ValidatorWarning.low_uptime ≡ x))
                ⊎ ((ltb 10 (max_effective_commission f64 first last v) ≡ true)
                    × (ValidatorWarning.high_commission ≡ x)))
      reasons x a =
          elim (push_if-to (ltb 10 (max_effective_commission f64 first last v)) x
            ValidatorWarning.high_commission
            (push_if f64 (has_low_uptime f64 v) ValidatorWarning.low_uptime
              (push_if f64 v.superminority ValidatorWarning.superminority []))
            a) [
              | inr p ↦ inr (inr p)
              | inl b ↦
                  elim (push_if-to (has_low_uptime f64 v) x ValidatorWarning.low_uptime
                    (push_if f64 v.superminority ValidatorWarning.superminority []) b) [
                      | inr p ↦ inr (inl p)
                      | inl c ↦
                          elim (push_if-to v.superminority x ValidatorWarning.superminority [] c) [
                            | inl d ↦ elim d [ ]
                            | inr p ↦ inl p
                          ]
                    ]
            ]
