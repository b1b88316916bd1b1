-- ===== src/Store/Ranks/Totality.antt =====
-- The two `unwrap`s of `update_validators_ranks`.
use delegation_strategy.Prelude.{
  ℕ, ◌≡◌, refl, ap, ◌∙◌, subst, String, Bool, true, some, List, [], ◌∷◌, ◌++◌, HashMap, arith, any,
  All, All-map, All-append, All-sort_by, All-update, DistinctKeys, get, get-insert_self,
  get-insert_ne, All-imp, All-get_self, insert, ascending, sort_by, ◌==◌, string_discrete,
  ℕ_discrete, Bool-cases, inl, inr,
}
use delegation_strategy.Store.Dto.Validators.{ValidatorEpochStats, ValidatorRecord}
use delegation_strategy.Store.Ranks.{
  Validators, EpochEntries, stat, collect_stats, stats_by_epoch, write_stat, write_rank,
  rank_epochs, update_validators_ranks,
}
use delegation_strategy.Store.Ranks.Counting.{write_all, counted_ranks, rank_epoch-eq-counted_ranks}

module _ {Float : Type 0} where
  abbrev has_epoch : ℕ → List (ValidatorEpochStats Float) → Bool
  has_epoch epoch = any (λ s. s.epoch == epoch)

  -- The validator is there, and has statistics of the epoch.
  abbrev HasStat : Validators Float → ℕ → String → Type 0
  HasStat vs epoch vote_account =
      (r : ValidatorRecord Float) × (get string_discrete vote_account vs ≡ some r)
      × (has_epoch epoch r.epoch_stats ≡ true)

HasStat-insert :
    {Float : Type 0} (va vb : String) (q : ℕ) (vs : Validators Float) (r : ValidatorRecord Float)
    (ss : List (ValidatorEpochStats Float))
    → get string_discrete va vs ≡ some r
    → has_epoch q ss ≡ has_epoch q r.epoch_stats
    → HasStat vs q vb
    → HasStat (insert string_discrete va (record r { epoch_stats = ss }) vs) q vb
HasStat-insert {Float} va vb q vs r ss found same (r', found', h) = elim (string_discrete va vb) [
  | yes e ↦ (
    new,
    subst (λ k. get string_discrete k (insert string_discrete va new vs) ≡ some new) e
        (get-insert_self string_discrete va new vs),
    same ∙ ap (λ o. has_epoch q o.epoch_stats) (same_record e) ∙ h,
  )
  | no n ↦ (r', get-insert_ne string_discrete va vb new vs n ∙ found', h)
]
  where
    new : ValidatorRecord Float
    new = record r { epoch_stats = ss }

    same_record : va ≡ vb → r ≡ r'
    same_record e = cc

module _ {Float : Type 0} (rank_updater : ValidatorEpochStats Float → ℕ → ValidatorEpochStats Float)
    (same_epoch : (s : ValidatorEpochStats Float) (r : ℕ)
      → (rank_updater s r).epoch ≡ s.epoch) where
  write_stat-total :
      (epoch rank : ℕ) (ss : List (ValidatorEpochStats Float))
      → has_epoch epoch ss ≡ true
      → (ss' : List (ValidatorEpochStats Float)) × (write_stat rank_updater epoch rank ss
          ≡ some ss')
        × ((q : ℕ) → has_epoch q ss' ≡ has_epoch q ss)
  unfolding write_stat
  write_stat-total epoch rank [] h = cc
  write_stat-total epoch rank (s ∷ ss) h = elim (Bool-cases (s.epoch == epoch)) [
    | inl e ↦ (rank_updater s rank ∷ ss, rw e, λ q. rw (same_epoch s rank))
    | inr e ↦
        let (ss', done, same) = write_stat-total epoch rank ss (ground arith) in
        (s ∷ ss', rw (e, done), λ q. rw (same q))
  ]

  write_rank-total :
      (epoch rank : ℕ) (va : String) (vs : Validators Float)
      → HasStat vs epoch va
      → (vs' : Validators Float) × (write_rank rank_updater epoch va rank vs ≡ some vs')
        × ((q : ℕ) (vb : String) → HasStat vs q vb → HasStat vs' q vb)
  unfolding write_rank
  write_rank-total epoch rank va vs (r, found, h) =
      let (ss, done, same) = write_stat-total epoch rank r.epoch_stats h in
      (
        insert string_discrete va (record r { epoch_stats = ss }) vs,
        rw (found, done),
        λ q vb has. HasStat-insert va vb q vs r ss found (same q) has,
      )

  write_all-total :
      (epoch : ℕ) (ranks : List (String × ℕ)) (vs : Validators Float)
      → All (λ e. HasStat vs epoch e.0) ranks
      → (vs' : Validators Float) × (write_all rank_updater epoch ranks vs ≡ some vs')
        × ((q : ℕ) (vb : String) → HasStat vs q vb → HasStat vs' q vb)
  unfolding write_all
  write_all-total epoch [] vs h = (vs, refl, λ q vb has. has)
  write_all-total epoch ((va, rank) ∷ ranks) vs h =
      let (vs', done, keeps) = write_rank-total epoch rank va vs h.0 in
      let (vs'', done', keeps') = write_all-total epoch ranks vs' (
        All-imp (λ e. HasStat vs epoch e.0) (λ e. HasStat vs' epoch e.0) ranks
          (λ e. keeps epoch e.0) h.1) in
      (vs'', rw done done', λ q vb has. keeps' q vb (keeps q vb has))

  rank_epochs-total :
      (groups : HashMap ℕ EpochEntries) (vs : Validators Float)
      → All (λ g. All (λ e. HasStat vs g.0 e.0) g.1) groups
      → (vs' : Validators Float) × (rank_epochs rank_updater groups vs ≡ some vs')
  unfolding rank_epochs
  rank_epochs-total [] vs h = (vs, refl)
  rank_epochs-total ((epoch, stats) ∷ groups) vs h =
      let (vs', done, keeps) = write_all-total epoch (counted_ranks stats) vs (
        All-map (λ e. HasStat vs epoch e.0) _ (sort_by (ascending stat) stats)
          (All-sort_by (ascending stat) (λ e. HasStat vs epoch e.0) stats h.0)) in
      let (vs'', done') = rank_epochs-total groups vs' (
        All-imp (λ g. All (λ e. HasStat vs g.0 e.0) g.1) (λ g. All (λ e. HasStat vs' g.0 e.0) g.1)
          groups
          (λ g.
            All-imp (λ e. HasStat vs g.0 e.0) (λ e. HasStat vs' g.0 e.0) g.1 (λ e. keeps g.0 e.0))
          h.1) in
      (vs'', rw (rank_epoch-eq-counted_ranks rank_updater epoch stats vs, done) done')

module _ {Float : Type 0} (field_extractor : ValidatorEpochStats Float → ℕ)
    (all : Validators Float) where
  abbrev Grouped : HashMap ℕ EpochEntries → Type 0
  Grouped = All (λ g. All (λ e. HasStat all g.0 e.0) g.1)

  collect_stats-Grouped :
      (va : String) (r : ValidatorRecord Float)
      → get string_discrete va all ≡ some r
      → (ss : List (ValidatorEpochStats Float)) (m : HashMap ℕ EpochEntries)
      → ((q : ℕ) → has_epoch q ss ≡ true → has_epoch q r.epoch_stats ≡ true)
      → Grouped m
      → Grouped (collect_stats field_extractor va ss m)
  unfolding collect_stats
  collect_stats-Grouped va r found [] m sub h = h
  collect_stats-Grouped va r found (s ∷ ss) m sub h =
      let own : HasStat all s.epoch va = (r, found, sub s.epoch (ground arith)) in
      collect_stats-Grouped va r found ss _ (λ q p. sub q (ground (arith, p)))
        (All-update ℕ_discrete (λ g. All (λ e. HasStat all g.0 e.0) g.1) s.epoch []
          (λ l. l ++ (va, field_extractor s) ∷ []) m (own, tt)
          (λ l old. All-append (λ e. HasStat all s.epoch e.0) l _ old (own, tt)) h)

  stats_by_epoch-Grouped :
      (vs : Validators Float) (m : HashMap ℕ EpochEntries)
      → All (λ e. get string_discrete e.0 all ≡ some e.1) vs
      → Grouped m
      → Grouped (stats_by_epoch field_extractor vs m)
  unfolding stats_by_epoch
  stats_by_epoch-Grouped [] m own h = h
  stats_by_epoch-Grouped ((va, r) ∷ vs) m own h =
      stats_by_epoch-Grouped vs _ own.1
        (collect_stats-Grouped va r own.0 r.epoch_stats m (λ q p. p) h)

-- Ranking never panics: for a map with distinct keys, and an updater that leaves the epoch alone,
-- `update_validators_ranks` returns.
pub update_validators_ranks-total :
    {Float : Type 0} (rank_updater : ValidatorEpochStats Float → ℕ → ValidatorEpochStats Float)
    (field_extractor : ValidatorEpochStats Float → ℕ) (vs : Validators Float)
    → ((s : ValidatorEpochStats Float) (r : ℕ) → (rank_updater s r).epoch ≡ s.epoch)
    → DistinctKeys string_discrete vs
    → (vs' : Validators Float) × (update_validators_ranks rank_updater field_extractor vs
        ≡ some vs')
unfolding update_validators_ranks
update_validators_ranks-total rank_updater field_extractor vs same_epoch d =
    rank_epochs-total rank_updater same_epoch (stats_by_epoch field_extractor vs []) vs
      (stats_by_epoch-Grouped field_extractor vs vs [] (All-get_self string_discrete vs d) tt)
