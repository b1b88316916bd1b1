-- ===== src/Collect/Superminority/Threshold.antt =====
-- `get_minimum_superminority_stake` and the stakes on both sides of what it finds.
use delegation_strategy.Prelude.{
  ℕ, ◌+◌, ◌/◌, ◌≤◌, ◌<◌, ◌≡◌, refl, sym, ap, ◌∙◌, subst, Bool, true, List, [], ◌∷◌, ◌++◌, arith,
  ltb, leb, All-imp, All-append, append_assoc, insert_by, keep, sum, keep-append, sum-append,
  le→leb, add_u64, All, Bool-cases, inl, inr, IsSorted, sort_by, sort_by-IsSorted, descending,
  descending-IsOrder, u64_mod, sum_u64-eq-sum,
}
use delegation_strategy.Collect.Superminority.{
  VoteAccountStatus, stakes, accumulate, get_minimum_superminority_stake,
}

-- The stake of all that have at least, or more than, `m`.
abbrev pub sum_ge : ℕ → List ℕ → ℕ
sum_ge m xs = sum (keep (λ s. leb m s) xs)

abbrev pub sum_gt : ℕ → List ℕ → ℕ
sum_gt m xs = sum (keep (λ s. ltb m s) xs)

abbrev pub all_stakes : VoteAccountStatus → List ℕ
all_stakes s = stakes (s.current ++ s.delinquent)

abbrev order : ℕ → ℕ → Bool
order = descending (λ s. s)

sum-keep-append :
    (p : ℕ → Bool) (xs ys : List ℕ) → sum (keep p (xs ++ ys)) ≡ sum (keep p xs) + sum (keep p ys)
sum-keep-append p xs ys = ap sum (keep-append p xs ys) ∙ sum-append (keep p xs) (keep p ys)

sum_ge-All : (m : ℕ) (xs : List ℕ) → All (λ y. leb m y ≡ true) xs → sum_ge m xs ≡ sum xs
sum_ge-All m [] h = refl
sum_ge-All m (x ∷ xs) h = ground (arith, sum_ge-All m xs h.1)

sum_gt-none : (m : ℕ) (xs : List ℕ) → All (λ y. leb y m ≡ true) xs → sum_gt m xs ≡ 0
sum_gt-none m [] h = refl
sum_gt-none m (x ∷ xs) h = ground (arith, sum_gt-none m xs h.1)

sum-keep_le : (p : ℕ → Bool) (xs : List ℕ) → sum (keep p xs) ≤ sum xs
sum-keep_le p [] = omega arith
sum-keep_le p (x ∷ xs) = ground (arith, sum-keep_le p xs)

-- A stake at which the sorted stakes split: those before are no smaller, those after no larger.
IsThreshold : ℕ → List ℕ → ℕ → Type 0
IsThreshold t xs m = (t < sum_ge m xs) × (sum_gt m xs ≤ t)

split-IsThreshold :
    (t : ℕ) (before : List ℕ) (x : ℕ) (rest : List ℕ)
    → sum before ≤ t
    → t < sum before + x
    → All (λ y. leb x y ≡ true) before
    → All (λ y. leb y x ≡ true) rest
    → IsThreshold t (before ++ x ∷ rest) x
unfolding IsThreshold
split-IsThreshold t before x rest h k above below = (
  omega
      (arith, sum-keep-append (λ s. leb x s) before (x ∷ rest), sum_ge-All x before above, from_x),
  omega (
    arith,
    sum-keep-append (λ s. ltb x s) before (x ∷ rest),
    sum-keep_le (λ s. ltb x s) before,
    sum_gt-none x (x ∷ rest) (le→leb x x (omega arith), below),
  ),
)
  where
    from_x : x ≤ sum_ge x (x ∷ rest)
    from_x = ground arith

-- Along the sorted stakes, `before` being those already passed.
accumulate-IsThreshold :
    (t : ℕ) (before rest : List ℕ) (acc last : ℕ)
    → acc ≡ sum before
    → acc ≤ t
    → t < acc + sum rest
    → acc + sum rest < u64_mod
    → IsSorted order rest
    → All (λ x. All (λ y. leb y x ≡ true) rest) before
    → IsThreshold t (before ++ rest) (accumulate t acc last rest)
unfolding accumulate
accumulate-IsThreshold t before [] acc last e h k w s a = absurd (omega arith)
accumulate-IsThreshold t before (x ∷ rest) acc last e h k w s a =
    let go =
      accumulate-IsThreshold t (before ++ x ∷ []) rest (add_u64 acc x) x
        (omega (arith, sum-append before (x ∷ []), exact)) in
    elim (Bool-cases (ltb t (add_u64 acc x))) [
      | inl p ↦ rw p (
          split-IsThreshold t before x rest (omega arith) (ground (arith, exact)) (heads before a)
            s.0)
      | inr p ↦ rw p (
          subst (λ l. IsThreshold t l (accumulate t (add_u64 acc x) x rest))
            (append_assoc before (x ∷ []) rest)
            (go (ground (arith, exact)) (omega (arith, exact)) (omega (arith, exact)) s.1 (
              All-append (λ y. All (λ z. leb z y ≡ true) rest) before (x ∷ []) (tails before a)
                (s.0, tt))))
    ]
  where
    exact : add_u64 acc x ≡ acc + x
    exact = omega arith

    heads :
        (l : List ℕ)
        → All (λ y. All (λ z. leb z y ≡ true) (x ∷ rest)) l
        → All (λ y. leb x y ≡ true) l
    heads l = All-imp _ _ l (λ y b. b.0)

    tails :
        (l : List ℕ)
        → All (λ y. All (λ z. leb z y ≡ true) (x ∷ rest)) l
        → All (λ y. All (λ z. leb z y ≡ true) rest) l
    tails l = All-imp _ _ l (λ y b. b.1)

sum-keep-insert :
    (p : ℕ → Bool) (x : ℕ) (ys : List ℕ)
    → sum (keep p (insert_by order x ys)) ≡ sum (keep p (x ∷ ys))
unfolding insert_by
sum-keep-insert p x [] = refl
sum-keep-insert p x (y ∷ ys) = ground (arith, sum-keep-insert p x ys)

sum-keep-sort : (p : ℕ → Bool) (xs : List ℕ) → sum (keep p (sort_by order xs)) ≡ sum (keep p xs)
unfolding sort_by
sum-keep-sort p [] = refl
sum-keep-sort p (x ∷ xs) =
    sum-keep-insert p x (sort_by order xs) ∙ ground (arith, sum-keep-sort p xs)

keep_everything : (xs : List ℕ) → keep (λ _. true) xs ≡ xs
keep_everything [] = refl
keep_everything (x ∷ xs) = ap (λ l. x ∷ l) (keep_everything xs)

sum-sort : (xs : List ℕ) → sum (sort_by order xs) ≡ sum xs
sum-sort xs =
    ap sum (sym (keep_everything (sort_by order xs)))
    ∙ sum-keep-sort (λ _. true) xs
    ∙ ap sum (keep_everything xs)

-- With some stake, whose total is below 2^64, the validators of at least the found stake hold more
-- than a third of the total, and those of more than it hold no more than a third.
pub get_minimum_superminority_stake-IsThreshold :
    (s : VoteAccountStatus)
    → 0 < sum (all_stakes s)
    → sum (all_stakes s) < u64_mod
    → (sum (all_stakes s) / 3 < sum_ge (get_minimum_superminority_stake s) (all_stakes s))
      × (sum_gt (get_minimum_superminority_stake s) (all_stakes s) ≤ sum (all_stakes s) / 3)
unfolding get_minimum_superminority_stake IsThreshold
get_minimum_superminority_stake-IsThreshold s pos w = rw (sum_u64-eq-sum (all_stakes s) w) (
  omega (arith, found.0, sum-keep-sort (λ y. leb m y) xs),
  omega (arith, found.1, sum-keep-sort (λ y. ltb m y) xs),
)
  where
    xs : List ℕ
    xs = all_stakes s

    m : ℕ
    m = accumulate (sum xs / 3) 0 0 (sort_by order xs)

    found : IsThreshold (sum xs / 3) (sort_by order xs) m
    found =
        accumulate-IsThreshold (sum xs / 3) [] (sort_by order xs) 0 0 refl (omega arith)
          (omega (arith, sum-sort xs)) (omega (arith, sum-sort xs))
          (sort_by-IsSorted order (descending-IsOrder (λ y. y)) xs) tt
