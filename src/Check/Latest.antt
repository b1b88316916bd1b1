-- ===== src/Check/Latest.antt =====
-- check/src/validators_jito.rs: when a Jito collection is held back, by the rows of its table.
use delegation_strategy.Prelude.{
  ℕ, ◌+◌, ◌≤◌, ◌<◌, ◌≡◌, ◌≢◌, refl, false, ◌↔◌, ◌⊎◌, inl, inr, List, [], ◌∷◌, map, keep, maximum,
  All, All-imp, All-both, Bool-cases, some, ◌==◌, leb, arith, leb→le, ℕ_discrete, max, ◌∙◌,
}
use delegation_strategy.Store.Query.{ok}
use delegation_strategy.Check.{EpochInfo, check_jito, last_stored, latest_epoch, StoredAt}

abbrev pub Any : {A : Type 0} → (A → Type 0) → List A → Type 0
Any P [] = ⊥
Any P (x ∷ xs) = P x ⊎ Any P xs

Any-imp :
    {A : Type 0} (P Q : A → Type 0) (xs : List A) → ((x : A) → P x → Q x) → Any P xs → Any Q xs
Any-imp P Q [] f h = h
Any-imp P Q (x ∷ xs) f (inl p) = inl (f x p)
Any-imp P Q (x ∷ xs) f (inr q) = inr (Any-imp P Q xs f q)

-- One that all of a list have, and one that some have, meet.
Any-All :
    {A : Type 0} (P Q R : A → Type 0) (xs : List A)
    → ((x : A) → P x → Q x → R x)
    → Any P xs
    → All Q xs
    → Any R xs
Any-All P Q R [] f h k = h
Any-All P Q R (x ∷ xs) f (inl p) k = inl (f x p k.0)
Any-All P Q R (x ∷ xs) f (inr q) k = inr (Any-All P Q R xs f q k.1)

module _ {A : Type 0} (key : A → ℕ) where
  le-maximum : (xs : List A) → All (λ x. key x ≤ maximum (map key xs)) xs
  le-maximum [] = tt
  le-maximum (x ∷ xs) = (
    omega arith,
    All-imp (λ y. key y ≤ maximum (map key xs)) _ xs (λ y h. omega arith) (le-maximum xs),
  )

  maximum-Any : (x : A) (xs : List A) → Any (λ y. key y ≡ maximum (map key (x ∷ xs))) (x ∷ xs)
  maximum-Any x [] = inl (omega arith)
  maximum-Any x (y ∷ xs) =
      let m = maximum (map key (y ∷ xs)) in
      elim (Bool-cases (leb m (key x))) [
        | inl e ↦ inl (ground arith)
        | inr e ↦ inr (Any-imp (λ z. key z ≡ m) _ (y ∷ xs) (λ z h. ground arith) (maximum-Any y xs))
      ]

module _ (latest : ℕ) where
  abbrev kept : List StoredAt → List StoredAt
  kept = keep (λ q. q.0 == latest)

  abbrev slot_in : List StoredAt → ℕ
  slot_in l = maximum (map (λ q. q.1) (kept l))

  slot_in-own :
      (r : StoredAt) (l : List StoredAt) → r.0 ≡ latest → slot_in (r ∷ l) ≡ max r.1 (slot_in l)
  slot_in-own r l e = ground (arith, e)

  slot_in-other : (r : StoredAt) (l : List StoredAt) → r.0 ≢ latest → slot_in (r ∷ l) ≡ slot_in l
  slot_in-other r l n = ground (arith, n)

  slot_in-none : (l : List StoredAt) → All (λ r. r.0 ≢ latest) l → slot_in l ≡ 0
  slot_in-none [] h = refl
  slot_in-none (r ∷ l) h = slot_in-other r l h.0 ∙ slot_in-none l h.1

  -- Of the rows of the epoch, if there are any, one has the greatest slot index, which none exceeds.
  slot_in-Any :
      (l : List StoredAt)
      → All (λ r. r.0 ≢ latest) l ⊎ Any (λ r. (r.0 ≡ latest) × (r.1 ≡ slot_in l)) l
  slot_in-Any [] = inl tt
  slot_in-Any (r ∷ l) = elim (ℕ_discrete r.0 latest) [
    | no n ↦ elim (slot_in-Any l) [
      | inl a ↦ inl (n, a)
      | inr q ↦ inr (
          inr (
            Any-imp (λ x. (x.0 ≡ latest) × (x.1 ≡ slot_in l)) _ l
              (λ x h. (h.0, omega (arith, h.1, slot_in-other r l n))) q))
    ]
    | yes p ↦ elim (Bool-cases (leb (slot_in l) r.1)) [
      | inl e ↦
          let le = leb→le (slot_in l) r.1 e in inr (inl (p, omega (arith, le, slot_in-own r l p)))
      | inr e ↦ elim (slot_in-Any l) [
        | inl a ↦ absurd (ground (arith, e, slot_in-none l a))
        | inr q ↦
            let lt : r.1 < slot_in l = ground (arith, e) in
            inr (
              inr (
                Any-imp (λ x. (x.0 ≡ latest) × (x.1 ≡ slot_in l)) _ l
                  (λ x h. (h.0, omega (arith, h.1, lt, slot_in-own r l p))) q))
      ]
    ]
  ]

  le-slot_in : (l : List StoredAt) → All (λ r. (r.0 ≢ latest) ⊎ (r.1 ≤ slot_in l)) l
  le-slot_in [] = tt
  le-slot_in (r ∷ l) = elim (ℕ_discrete r.0 latest) [
    | no n ↦ (
      inl n,
      All-imp _ _ l (λ x h. wider x (omega (arith, slot_in-other r l n)) h) (le-slot_in l),
    )
    | yes p ↦ (
      inr (omega (arith, slot_in-own r l p)),
      All-imp _ _ l (λ x h. wider x (omega (arith, slot_in-own r l p)) h) (le-slot_in l),
    )
  ]
    where
      wider :
          (x : StoredAt)
          → slot_in l ≤ slot_in (r ∷ l)
          → (x.0 ≢ latest) ⊎ (x.1 ≤ slot_in l)
          → (x.0 ≢ latest) ⊎ (x.1 ≤ slot_in (r ∷ l))
      wider x le (inl n) = inl n
      wider x le (inr h) = inr (omega arith)

-- A row of the latest epoch, which is the previous epoch or later, stored less than an interval ago.
abbrev pub IsRecent : ℕ → EpochInfo → List StoredAt → StoredAt → Type 0
IsRecent interval current rows r =
    All (λ q. q.0 ≤ r.0) rows × (current.epoch ≤ r.0 + 1) × (current.slot_index < interval + r.1)

Any-const : {A : Type 0} (P : Type 0) (xs : List A) → Any (λ _. P) xs → P
Any-const P [] h = absurd h
Any-const P (x ∷ xs) (inl p) = p
Any-const P (x ∷ xs) (inr q) = Any-const P xs q

-- A bound of all epochs is one of the latest.
latest_epoch_le :
    (r : StoredAt) (rows : List StoredAt) (n : ℕ)
    → All (λ q. q.0 ≤ n) (r ∷ rows)
    → latest_epoch (r ∷ rows) ≤ n
latest_epoch_le r rows n h = Any-const (latest_epoch (r ∷ rows) ≤ n) (r ∷ rows) (
    Any-All (λ q. q.0 ≡ latest_epoch (r ∷ rows)) (λ q. q.0 ≤ n) _ (r ∷ rows)
      (λ q e le. omega (arith, e, le)) (maximum-Any (λ q. q.0) r rows) h)

module _ {E : Type 0} where
  check_jito-false :
      (interval a b : ℕ) (current : EpochInfo)
      → (check_jito {E = E} interval (ok (some (a, b))) (ok current) ≡ ok false)
        ↔ ((current.epoch ≤ a + 1) × (current.slot_index < interval + b))
  unfolding check_jito
  check_jito-false interval a b current = (λ h. ground arith, λ h. ground arith)

  -- A Jito collection is held back exactly if the table has a row that no row is later than by its epoch,
  -- whose epoch is the one before the current one or later, and whose slot index plus the interval is past
  -- the current slot index. In particular it is not held back by an empty table.
  pub check_jito-last_stored :
      (interval : ℕ) (rows : List StoredAt) (current : EpochInfo)
      → (check_jito {E = E} interval (ok (last_stored rows)) (ok current) ≡ ok false)
        ↔ Any (IsRecent interval current rows) rows
  unfolding check_jito last_stored
  check_jito-last_stored interval [] current = (λ h. cc, λ h. absurd h)
  check_jito-last_stored interval (r ∷ rows) current = (
    λ h. held ((check_jito-false interval latest slot current).0 h),
    λ h. (check_jito-false interval latest slot current).1 (recent h),
  )
    where
      latest : ℕ
      latest = latest_epoch (r ∷ rows)

      slot : ℕ
      slot = slot_in latest (r ∷ rows)

      below : All (λ q. q.0 ≤ latest) (r ∷ rows)
      below = le-maximum (λ q. q.0) (r ∷ rows)

      held :
          (current.epoch ≤ latest + 1) × (current.slot_index < interval + slot)
          → Any (IsRecent interval current (r ∷ rows)) (r ∷ rows)
      held h = elim (slot_in-Any latest (r ∷ rows)) [
        | inl a ↦ absurd (
            Any-const ⊥ (r ∷ rows) (
              Any-All (λ q. q.0 ≡ latest) (λ q. q.0 ≢ latest) (λ _. ⊥) (r ∷ rows) (λ q e n. n e)
                (maximum-Any (λ q. q.0) r rows) a))
        | inr q ↦
            Any-imp (λ x. (x.0 ≡ latest) × (x.1 ≡ slot)) _ (r ∷ rows)
              (λ x e. (
                All-imp (λ y. y.0 ≤ latest) (λ y. y.0 ≤ x.0) (r ∷ rows)
                    (λ y le. omega (arith, le, e.0)) below,
                omega (arith, h.0, e.0),
                omega (arith, h.1, e.1),
              ))
              q
      ]

      one :
          (x : StoredAt)
          → IsRecent interval current (r ∷ rows) x
          → (x.0 ≢ latest) ⊎ (x.1 ≤ slot)
          → x.0 ≤ latest
          → (current.epoch ≤ latest + 1) × (current.slot_index < interval + slot)
      one x h (inl n) le = absurd (n (omega (arith, le, latest_epoch_le r rows x.0 h.0)))
      one x h (inr k) le = (omega (arith, h.1, le), omega (arith, h.2, k))

      recent :
          Any (IsRecent interval current (r ∷ rows)) (r ∷ rows)
          → (current.epoch ≤ latest + 1) × (current.slot_index < interval + slot)
      recent h = Any-const _ (r ∷ rows) (
          Any-All (IsRecent interval current (r ∷ rows))
            (λ x. ((x.0 ≢ latest) ⊎ (x.1 ≤ slot)) × (x.0 ≤ latest)) _ (r ∷ rows)
            (λ x p k. one x p k.0 k.1) h
            (All-both (λ x. (x.0 ≢ latest) ⊎ (x.1 ≤ slot)) (λ x. x.0 ≤ latest) _ (r ∷ rows)
              (λ x a b. (a, b)) (le-slot_in latest (r ∷ rows)) below))
