-- ===== src/Store/Uptime/Latest.antt =====
-- The latest row of a history of distinct ids.
use delegation_strategy.Prelude.{
  ◌≡◌, refl, sym, subst, ◌≢◌, inl, inr, String, Bool, true, none, some, List, [], ◌∷◌, ◌++◌, arith,
  ltb, ◌==◌, keep, any, All, All-both, All-imp, All-keep_of, Bool-cases, Option-cases,
}
use delegation_strategy.Store.Uptime.{UptimeRow, of_account, latest, later}
use delegation_strategy.Store.Uptime.History.{track, DistinctIds}

-- What every row has, the latest row has.
pub latest-All :
    (P : UptimeRow → Type 0) (rs : List UptimeRow) (l : UptimeRow)
    → All P rs
    → latest rs ≡ some l
    → P l
unfolding latest later
latest-All P [] l a e = cc
latest-All P (r ∷ rs) l a e = elim (Option-cases (latest rs)) [
  | inl f ↦ subst P (ground arith) a.0
  | inr (m, f) ↦ either m (latest-All P rs m a.1 f) (ground arith)
]
  where
    either : (m : UptimeRow) → P m → later (some m) r ≡ l → P l
    either m pm g = elim (Bool-cases (ltb r.end_at m.end_at)) [
      | inl h ↦ subst P (ground arith) pm
      | inr h ↦ subst P (ground arith) a.0
    ]

-- Of distinct ids one row has one id.
pub same_id :
    (rs : List UptimeRow) → DistinctIds rs → All (λ r. All (λ s. s.id ≡ r.id → s ≡ r) rs) rs
same_id [] d = tt
same_id (r ∷ rs) d = (
  (λ _. refl, All-imp _ _ rs (λ s n e. absurd (n e)) d.0),
  All-both (λ t. t.id ≢ r.id) _ _ rs (λ t n f. (λ e. absurd (n (sym e)), f)) d.0 (same_id rs d.1),
)

pub keep-DistinctIds :
    (p : UptimeRow → Bool) (rs : List UptimeRow) → DistinctIds rs → DistinctIds (keep p rs)
keep-DistinctIds p [] d = tt
keep-DistinctIds p (r ∷ rs) d =
    ground (arith, keep-DistinctIds p rs d.1, All-keep_of (λ s. s.id ≢ r.id) p rs d.0)

-- In a history the latest row is known by its id.
pub latest-by_id :
    (h : List UptimeRow) (l : UptimeRow)
    → DistinctIds h
    → latest h ≡ some l
    → All (λ s. s.id ≡ l.id → s ≡ l) h
latest-by_id h l d e = latest-All (λ l. All (λ s. s.id ≡ l.id → s ≡ l) h) h l (same_id h d) e

pub latest-any :
    (h : List UptimeRow) (l : UptimeRow) → latest h ≡ some l → any (λ r. l.id == r.id) h ≡ true
unfolding latest later
latest-any [] l e = cc
latest-any (r ∷ rs) l e = elim (Option-cases (latest rs)) [
  | inl f ↦ ground arith
  | inr (m, f) ↦ ground (arith, latest-any rs m f)
]

pub track-none :
    (new : UptimeRow) (h : List UptimeRow) → latest h ≡ none → track new h ≡ h ++ new ∷ []
unfolding track
track-none new h e = rw (track, e)

pub of_account-own :
    (va : String) (rows : List UptimeRow) → All (λ r. r.vote_account ≡ va) (of_account va rows)
of_account-own va [] = tt
of_account-own va (r ∷ rows) = ground (arith, of_account-own va rows)
