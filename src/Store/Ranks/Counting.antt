-- ===== src/Store/Ranks/Counting.antt =====
-- The ranks that the loop hands out, against their description by counting.
use delegation_strategy.Prelude.{
  ℕ, suc, ◌+◌, ◌-◌, ◌<◌, ◌≡◌, refl, ap₂, fun_ext, String, true, Option, none, some, List, [], ◌∷◌,
  map, arith, length, count, All, leb, IsSorted, ascending, ascending-IsOrder, sort_by,
  sort_by-IsSorted, count-sort_by, ◌>>=◌,
}
use delegation_strategy.Store.Dto.Validators.{ValidatorEpochStats}
use delegation_strategy.Store.Ranks.{
  Validators, EpochEntries, stat, next_same, write_rank, rank_loop, rank_epoch,
}

-- How many entries have at least the value: an entry's rank, counted from 1 for the unique best.
abbrev pub count_ge : ℕ → EpochEntries → ℕ
count_ge value = count (λ e. leb value e.1)

-- The ranks of an epoch by counting, smallest value first.
abbrev pub counted_ranks : EpochEntries → List (String × ℕ)
counted_ranks stats = map (λ e. (e.0, count_ge e.1 stats)) (sort_by (ascending stat) stats)

module _ {Float : Type 0} (rank_updater : ValidatorEpochStats Float → ℕ → ValidatorEpochStats Float)
    (epoch : ℕ) where
  -- Write given ranks, one after the other.
  unfoldable pub write_all : List (String × ℕ) → Validators Float → Option (Validators Float)
  write_all [] vs = some vs
  write_all ((vote_account, rank) ∷ rest) vs =
      write_rank rank_updater epoch vote_account rank vs >>= write_all rest

-- What the loop knows of the entries behind it: `behind t` of them have at least the value `t`.
abbrev Behind : Option ℕ → ℕ → (ℕ → ℕ) → EpochEntries → Type 0
Behind none same behind rest = (same ≡ 0) × ((t : ℕ) → behind t ≡ 0)
Behind (some p) same behind rest =
    All (λ e. leb p e.1 ≡ true) rest × (behind p ≡ suc same) × ((t : ℕ) → p < t → behind t ≡ 0)

-- In a sorted list every entry has at least the value of the first.
count_ge-All :
    (v : ℕ) (rest : EpochEntries) → All (λ e. leb v e.1 ≡ true) rest → count_ge v rest ≡ length rest
count_ge-All v [] h = refl
count_ge-All v (e ∷ rest) h = ground (arith, count_ge-All v rest h.1)

same_lem :
    (prev : Option ℕ) (same : ℕ) (behind : ℕ → ℕ) (e : String × ℕ) (rest : EpochEntries)
    → Behind prev same behind (e ∷ rest)
    → next_same prev e.1 same ≡ behind e.1
unfolding next_same
same_lem none same behind e rest b = omega (arith, b.1 e.1)
same_lem (some p) same behind e rest b = ground (arith, b.0.0, b.2 e.1)

-- The entry joins those behind.
step_lem :
    (prev : Option ℕ) (same : ℕ) (behind : ℕ → ℕ) (e : String × ℕ) (rest : EpochEntries)
    → IsSorted (ascending stat) (e ∷ rest)
    → Behind prev same behind (e ∷ rest)
    → Behind (some e.1) (next_same prev e.1 same) (λ t. behind t + count_ge t (e ∷ [])) rest
step_lem prev same behind e rest s b = (s.0, at_entry, above prev b)
  where
    at_entry : behind e.1 + count_ge e.1 (e ∷ []) ≡ suc (next_same prev e.1 same)
    at_entry = ground (arith, same_lem prev same behind e rest b)

    above :
        (q : Option ℕ)
        → Behind q same behind (e ∷ rest)
        → (t : ℕ) → e.1 < t
        → behind t + count_ge t (e ∷ []) ≡ 0
    above none c t h = ground (arith, c.1 t)
    above (some p) c t h = ground (arith, c.0.0, c.2 t)

module _ {Float : Type 0} (rank_updater : ValidatorEpochStats Float → ℕ → ValidatorEpochStats Float)
    (epoch : ℕ) where
  rank_loop-eq :
      (rank_of behind : ℕ → ℕ) (total index same : ℕ) (prev : Option ℕ) (rest : EpochEntries)
      (vs : Validators Float)
      → IsSorted (ascending stat) rest
      → Behind prev same behind rest
      → index + length rest ≡ total
      → ((t : ℕ) → rank_of t ≡ behind t + count_ge t rest)
      → rank_loop rank_updater epoch total index prev same rest vs
        ≡ write_all rank_updater epoch (map (λ e. (e.0, rank_of e.1)) rest) vs
  unfolding rank_loop write_all
  rank_loop-eq rank_of behind total index same prev [] vs s b n g = refl
  rank_loop-eq rank_of behind total index same prev (e ∷ rest) vs s b n g =
      ap₂ (λ r k. write_rank rank_updater epoch e.0 r vs >>= k) rank_lem
        (fun_ext λ vs'.
          rank_loop-eq rank_of (λ t. behind t + count_ge t (e ∷ [])) total (index + 1)
            (next_same prev e.1 same) (some e.1) rest vs' s.1 (step_lem prev same behind e rest s b)
            (omega arith) (λ t. ground (arith, g t)))
    where
      rank_lem : total - index + next_same prev e.1 same ≡ rank_of e.1
      rank_lem =
          ground (arith, g e.1, same_lem prev same behind e rest b, count_ge-All e.1 rest s.0)

  -- Ranking one epoch writes each entry's rank by counting: how many validators of the epoch have at
  -- least its value.
  pub rank_epoch-eq-counted_ranks :
      (stats : EpochEntries) (vs : Validators Float)
      → rank_epoch rank_updater epoch stats vs
        ≡ write_all rank_updater epoch (counted_ranks stats) vs
  unfolding rank_epoch
  rank_epoch-eq-counted_ranks stats vs =
      rank_loop-eq (λ t. count_ge t stats) (λ _. 0) _ 0 0 none _ vs
        (sort_by-IsSorted (ascending stat) (ascending-IsOrder stat) stats) (refl, λ t. refl)
        (omega arith) (λ t. omega (arith, count-sort_by (ascending stat) (λ e. leb t e.1) stats))
