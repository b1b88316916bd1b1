-- ===== src/Store/Aggregates/Epochs.antt =====
-- What the aggregate of an epoch is made of.
use delegation_strategy.Prelude.{
  ℕ, ◌≡◌, refl, sym, ap, ◌∙◌, subst, String, Bool, true, false, Bool-cases, inl, inr, add, Option,
  none, some, List, [], ◌∷◌, ◌++◌, append-nil, append_assoc, map, HashMap, get, get-update,
  or_default, contains, contains-add, ◌||◌, filter_map, keep, ite, if◌then◌else◌, ◌==◌, any, All,
  ℕ_discrete, F64, arith, descending, All-sort_by, All-map, count, count-sort_by, IsSorted,
  sort_by-IsSorted, descending-IsOrder,
}
use delegation_strategy.Store.Dto.Scalars.{DateTime}
use delegation_strategy.Store.Dto.Validators.{ValidatorEpochStats}
use delegation_strategy.Store.Ranks.{Validators}
use delegation_strategy.Store.Averages.{average}
use delegation_strategy.Store.Aggregates.{
  Collected, push_at, collect_one, collect_all, all_stats, aggregate_epoch, aggregate_validators,
}

module _ (f64 : F64) (now : String → ℕ → DateTime) where
  -- The values of an epoch under a list, and their description: the statistics of that epoch.
  abbrev pub values_at : ℕ → HashMap ℕ (List f64.Float) → List f64.Float
  values_at epoch m = or_default [] (get ℕ_discrete epoch m)

  abbrev pub values_in :
      ℕ
      → (ValidatorEpochStats f64.Float → Option f64.Float)
      → List (String × ValidatorEpochStats f64.Float)
      → List f64.Float
  values_in epoch value stats = filter_map (λ e. value e.1) (keep (λ e. e.1.epoch == epoch) stats)

  -- The optional value as a list, if it is of the epoch.
  abbrev value_of : ℕ → ℕ → Option f64.Float → List f64.Float
  value_of epoch at value =
      ite (ℕ_discrete at epoch) (elim value [ none ↦ [] | some x ↦ x ∷ [] ]) []

  values_at-push_at :
      (epoch at : ℕ) (value : Option f64.Float) (m : HashMap ℕ (List f64.Float))
      → values_at epoch (push_at f64 now at value m) ≡ values_at epoch m ++ value_of epoch at value
  values_at-push_at epoch at none m = ground (arith, append-nil (values_at epoch m))
  values_at-push_at epoch at (some x) m = ground (
    arith,
    get-update ℕ_discrete at epoch [] (λ l. l ++ x ∷ []) m,
    append-nil (values_at epoch m),
  )

  values_in-step :
      (epoch : ℕ) (value : ValidatorEpochStats f64.Float → Option f64.Float)
      (e : String × ValidatorEpochStats f64.Float)
      (stats : List (String × ValidatorEpochStats f64.Float))
      → values_in epoch value (e ∷ stats)
        ≡ value_of epoch e.1.epoch (value e.1) ++ values_in epoch value stats
  values_in-step epoch value e stats = elim (value e.1) [
    | none ↦ ground arith
    | some x ↦ ground arith
  ]

  scores-collect_all :
      (epoch : ℕ) (stats : List (String × ValidatorEpochStats f64.Float)) (c : Collected f64 now)
      → values_at epoch (collect_all f64 now stats c).marinade_scores
        ≡ values_at epoch c.marinade_scores ++ values_in epoch (λ s. s.score) stats
  unfolding collect_all collect_one
  scores-collect_all epoch [] c = sym (append-nil (values_at epoch c.marinade_scores))
  scores-collect_all epoch ((v, s) ∷ rest) c =
      scores-collect_all epoch rest (collect_one f64 now v s c)
      ∙ ap (λ l. l ++ values_in epoch (λ s. s.score) rest)
          (values_at-push_at epoch s.epoch s.score c.marinade_scores)
      ∙ append_assoc (values_at epoch c.marinade_scores) (value_of epoch s.epoch s.score)
          (values_in epoch (λ s. s.score) rest)
      ∙ ap (λ l. values_at epoch c.marinade_scores ++ l)
          (sym (values_in-step epoch (λ s. s.score) (v, s) rest))

  apys-collect_all :
      (epoch : ℕ) (stats : List (String × ValidatorEpochStats f64.Float)) (c : Collected f64 now)
      → values_at epoch (collect_all f64 now stats c).apys
        ≡ values_at epoch c.apys ++ values_in epoch (λ s. s.apy) stats
  unfolding collect_all collect_one
  apys-collect_all epoch [] c = sym (append-nil (values_at epoch c.apys))
  apys-collect_all epoch ((v, s) ∷ rest) c =
      apys-collect_all epoch rest (collect_one f64 now v s c)
      ∙ ap (λ l. l ++ values_in epoch (λ s. s.apy) rest)
          (values_at-push_at epoch s.epoch s.apy c.apys)
      ∙ append_assoc (values_at epoch c.apys) (value_of epoch s.epoch s.apy)
          (values_in epoch (λ s. s.apy) rest)
      ∙ ap (λ l. values_at epoch c.apys ++ l) (sym (values_in-step epoch (λ s. s.apy) (v, s) rest))

  -- Whether some statistic is of the epoch, as 0 or 1.
  abbrev pub occurs : ℕ → List (String × ValidatorEpochStats f64.Float) → Bool
  occurs epoch = any (λ e. e.1.epoch == epoch)

  abbrev once : Bool → ℕ
  once true = 1
  once false = 0

  count-add :
      (k j : ℕ) (ks : List ℕ)
      → ((i : ℕ) → count (λ x. x == i) ks ≡ once (contains ℕ_discrete i ks))
      → count (λ x. x == j) (add ℕ_discrete k ks) ≡ once ((k == j) || contains ℕ_discrete j ks)
  unfolding add
  count-add k j ks h = elim (Bool-cases (contains ℕ_discrete k ks)) [
    | inl p ↦ elim (ℕ_discrete k j) [
      | yes e ↦ rw (p, add) (h j ∙ ap once (present e p))
      | no n ↦ rw (p, add) (ground (arith, h j))
    ]
    | inr p ↦ elim (ℕ_discrete k j) [
      | yes e ↦ rw (p, add) (ground (arith, h j, subst (λ i. contains ℕ_discrete i ks ≡ false) e p))
      | no n ↦ rw (p, add) (ground (arith, h j))
    ]
  ]
    where
      present :
          k ≡ j
          → contains ℕ_discrete k ks ≡ true
          → contains ℕ_discrete j ks ≡ ((k == j) || contains ℕ_discrete j ks)
      present e p = ground (arith, subst (λ i. contains ℕ_discrete i ks ≡ true) e p)

  count-collect_all :
      (k : ℕ) (stats : List (String × ValidatorEpochStats f64.Float)) (c : Collected f64 now)
      → ((i : ℕ) → count (λ x. x == i) c.epochs ≡ once (contains ℕ_discrete i c.epochs))
      → count (λ x. x == k) (collect_all f64 now stats c).epochs
        ≡ once (contains ℕ_discrete k c.epochs || occurs k stats)
  unfolding collect_all collect_one
  count-collect_all k [] c h = ground (arith, h k)
  count-collect_all k ((v, s) ∷ rest) c h =
      count-collect_all k rest (collect_one f64 now v s c) (λ i.
        count-add s.epoch i c.epochs h
        ∙ ap once (ground (arith, contains-add ℕ_discrete s.epoch i c.epochs)))
      ∙ ap once (ground (arith, contains-add ℕ_discrete s.epoch k c.epochs))

  -- The collections that the loop ends with.
  abbrev collected : Validators f64.Float → Collected f64 now
  collected vs =
      collect_all f64 now (all_stats f64 now vs)
        (record { epochs = []; epochs_start_dates = []; marinade_scores = []; apys = [] })

  -- The aggregate of an epoch averages the scores and the APYs of exactly that epoch's statistics.
  pub aggregate_validators-averages :
      (vs : Validators f64.Float)
      → All
          (λ a.
            (a.avg_marinade_score
              ≡ average f64 (values_in a.epoch (λ s. s.score) (all_stats f64 now vs)))
            × (a.avg_apy ≡ average f64 (values_in a.epoch (λ s. s.apy) (all_stats f64 now vs))))
          (aggregate_validators f64 now vs)
  unfolding aggregate_validators aggregate_epoch get
  aggregate_validators-averages vs = All-sort_by _ _ _ (
      All-map _ (aggregate_epoch f64 now (collected vs)) (collected vs).epochs
        (each (collected vs).epochs))
    where
      each :
          (l : List ℕ)
          → All
              (λ k.
                (average f64 (values_at k (collected vs).marinade_scores)
                  ≡ average f64 (values_in k (λ s. s.score) (all_stats f64 now vs)))
                × (average f64 (values_at k (collected vs).apys)
                    ≡ average f64 (values_in k (λ s. s.apy) (all_stats f64 now vs))))
              l
      each [] = tt
      each (k ∷ l) = (
        (
          ap (average f64) (scores-collect_all k (all_stats f64 now vs) _),
          ap (average f64) (apys-collect_all k (all_stats f64 now vs) _),
        ),
        each l,
      )

  count-map :
      (k : ℕ) (c : Collected f64 now) (l : List ℕ)
      → count (λ a. a.epoch == k) (map (aggregate_epoch f64 now c) l) ≡ count (λ x. x == k) l
  unfolding aggregate_epoch
  count-map k c [] = refl
  count-map k c (x ∷ l) = ground (arith, count-map k c l)

  -- Each epoch with statistics has exactly one aggregate, no other epoch has one, and the latest
  -- epoch comes first.
  pub aggregate_validators-epochs :
      (vs : Validators f64.Float)
      → ((k : ℕ)
          → count (λ a. a.epoch == k) (aggregate_validators f64 now vs)
            ≡ (if occurs k (all_stats f64 now vs) then 1 else 0))
        × IsSorted (descending (λ a. a.epoch)) (aggregate_validators f64 now vs)
  unfolding aggregate_validators contains
  aggregate_validators-epochs vs = (
    λ k.
        count-sort_by (descending (λ a. a.epoch)) (λ a. a.epoch == k)
          (map (aggregate_epoch f64 now (collected vs)) (collected vs).epochs)
        ∙ count-map k (collected vs) (collected vs).epochs
        ∙ count-collect_all k (all_stats f64 now vs) _ (λ i. refl)
        ∙ once_if (occurs k (all_stats f64 now vs)),
    sort_by-IsSorted _ (descending-IsOrder (λ a. a.epoch)) _,
  )
    where
      once_if : (b : Bool) → once b ≡ (if b then 1 else 0)
      once_if true = refl
      once_if false = refl
