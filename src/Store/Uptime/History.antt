-- ===== src/Store/Uptime/History.antt =====
-- One validator's uptimes, oldest first: what a snapshot does to them, and the chains of intervals.
use delegation_strategy.Prelude.{
  ℕ, ◌+◌, ◌≤◌, ◌<◌, ◌≡◌, refl, sym, ap, ◌∙◌, subst, ◌≢◌, Bool, true, false, ◌&&◌, none, some, List,
  [], ◌∷◌, ◌++◌, map, arith, ltb, ◌==◌, if◌then◌else◌, holds, string_discrete, All, All-imp, ◌⊎◌,
  Bool-cases, inl, inr,
}
use delegation_strategy.Store.Dto.Scalars.{DateTime, minutes}
use delegation_strategy.Store.Uptime.{UptimeRow, latest, later}

unfoldable pub set_end : ℕ → DateTime → List UptimeRow → List UptimeRow
set_end i end_at = map λ r. if r.id == i then record r { end_at = end_at } else r

abbrev pub is_continued : UptimeRow → UptimeRow → Bool
is_continued l new = holds (string_discrete l.status new.status) && (l.epoch == new.epoch)

-- The new interval continues the latest one, follows it without a gap, or starts afresh.
unfoldable pub track : UptimeRow → List UptimeRow → List UptimeRow
track new h = elim (latest h) [
  | none ↦ h ++ new ∷ []
  | some l ↦
      if ltb new.start_at (l.end_at + minutes 5)
      then if is_continued l new
        then set_end l.id new.end_at h
        else set_end l.id new.start_at h ++ new ∷ []
      else h ++ new ∷ []
]

-- Each interval has a positive length, and none begins before the one in front of it ends.
abbrev pub IsChain : List UptimeRow → Type 0
IsChain [] = Unit
IsChain (r ∷ []) = r.start_at < r.end_at
IsChain (r ∷ s ∷ rs) = (r.start_at < r.end_at) × (r.end_at ≤ s.start_at) × IsChain (s ∷ rs)

abbrev pub DistinctIds : List UptimeRow → Type 0
DistinctIds [] = Unit
DistinctIds (r ∷ rs) = All (λ s. s.id ≢ r.id) rs × DistinctIds rs

close_last : DateTime → List UptimeRow → List UptimeRow
close_last end_at [] = []
close_last end_at (r ∷ []) = record r { end_at = end_at } ∷ []
close_last end_at (r ∷ s ∷ rs) = r ∷ close_last end_at (s ∷ rs)

last_row : UptimeRow → List UptimeRow → UptimeRow
last_row r [] = r
last_row r (s ∷ rs) = last_row s rs

last_row-end :
    (r : UptimeRow) (rs : List UptimeRow) → IsChain (r ∷ rs) → r.start_at < (last_row r rs).end_at
unfolding last_row
last_row-end r [] c = c
last_row-end r (s ∷ rs) c = omega (arith, last_row-end s rs c.2)

-- In a chain the row that ends last is the last one.
latest-last_row :
    (r : UptimeRow) (rs : List UptimeRow)
    → IsChain (r ∷ rs)
    → latest (r ∷ rs) ≡ some (last_row r rs)
unfolding last_row latest
latest-last_row r [] c = refl
latest-last_row r (s ∷ rs) c =
    ap (λ o. some (later o r)) (latest-last_row s rs c.2)
    ∙ ap some (later_lem (last_row s rs) (omega (arith, last_row-end s rs c.2)))
  where
    later_lem : (l : UptimeRow) → r.end_at < l.end_at → later (some l) r ≡ l
    later_lem l h = ground arith

last_row-mem :
    (P : UptimeRow → Type 0) (r : UptimeRow) (rs : List UptimeRow)
    → All P (r ∷ rs)
    → P (last_row r rs)
unfolding last_row
last_row-mem P r [] h = h.0
last_row-mem P r (s ∷ rs) h = last_row-mem P s rs h.1

set_end-absent :
    (i : ℕ) (e : DateTime) (rs : List UptimeRow) → All (λ s. s.id ≢ i) rs → set_end i e rs ≡ rs
unfolding set_end
set_end-absent i e [] h = refl
set_end-absent i e (r ∷ rs) h = ground (arith, set_end-absent i e rs h.1)

set_end-close_last :
    (e : DateTime) (r : UptimeRow) (rs : List UptimeRow)
    → DistinctIds (r ∷ rs)
    → set_end (last_row r rs).id e (r ∷ rs) ≡ close_last e (r ∷ rs)
unfolding last_row close_last set_end
set_end-close_last e r [] d = ground arith
set_end-close_last e r (s ∷ rs) d =
    ground (arith, last_row-mem (λ t. t.id ≢ r.id) s rs d.0, set_end-close_last e s rs d.1)

IsChain-append :
    (new r : UptimeRow) (rs : List UptimeRow)
    → new.start_at < new.end_at
    → IsChain (r ∷ rs)
    → (last_row r rs).end_at ≤ new.start_at
    → IsChain ((r ∷ rs) ++ new ∷ [])
unfolding last_row
IsChain-append new r [] p c h = (c, h, p)
IsChain-append new r (s ∷ rs) p c h = (c.0, c.1, IsChain-append new s rs p c.2 h)

IsChain-close_last :
    (e : DateTime) (r : UptimeRow) (rs : List UptimeRow)
    → IsChain (r ∷ rs)
    → All (λ s. s.start_at < e) (r ∷ rs)
    → IsChain (close_last e (r ∷ rs))
unfolding close_last
IsChain-close_last e r [] c h = h.0
IsChain-close_last e r (s ∷ []) c h = (c.0, c.1, h.1.0)
IsChain-close_last e r (s ∷ t ∷ rs) c h = (c.0, c.1, IsChain-close_last e s (t ∷ rs) c.2 h.1)

IsChain-close_last-append :
    (new r : UptimeRow) (rs : List UptimeRow)
    → new.start_at < new.end_at
    → IsChain (r ∷ rs)
    → All (λ s. s.start_at < new.start_at) (r ∷ rs)
    → IsChain (close_last new.start_at (r ∷ rs) ++ new ∷ [])
unfolding close_last
IsChain-close_last-append new r [] p c h = omega arith
IsChain-close_last-append new r (s ∷ []) p c h = omega arith
IsChain-close_last-append new r (s ∷ t ∷ rs) p c h =
    (c.0, c.1, IsChain-close_last-append new s (t ∷ rs) p c.2 h.1)

last_row-append : (new r : UptimeRow) (rs : List UptimeRow) → last_row r (rs ++ new ∷ []) ≡ new
unfolding last_row
last_row-append new r [] = refl
last_row-append new r (s ∷ rs) = last_row-append new s rs

latest-append :
    (new r : UptimeRow) (rs : List UptimeRow)
    → IsChain ((r ∷ rs) ++ new ∷ [])
    → latest ((r ∷ rs) ++ new ∷ []) ≡ some new
latest-append new r rs c = latest-last_row r (rs ++ new ∷ []) c ∙ ap some (last_row-append new r rs)

-- The same for a list whose last row has been given another end.
latest-close_last-append :
    (new : UptimeRow) (e : DateTime) (r : UptimeRow) (rs : List UptimeRow)
    → IsChain (close_last e (r ∷ rs) ++ new ∷ [])
    → latest (close_last e (r ∷ rs) ++ new ∷ []) ≡ some new
unfolding close_last
latest-close_last-append new e r [] c = latest-append new _ [] c
latest-close_last-append new e r (s ∷ rs) c = latest-append new r (close_last e (s ∷ rs)) c

last_row-close_last :
    (e : DateTime) (q r : UptimeRow) (rs : List UptimeRow)
    → last_row q (close_last e (r ∷ rs)) ≡ record (last_row r rs) { end_at = e }
unfolding last_row close_last
last_row-close_last e q r [] = refl
last_row-close_last e q r (s ∷ rs) = last_row-close_last e r s rs

latest-close_last :
    (e : DateTime) (r : UptimeRow) (rs : List UptimeRow)
    → IsChain (close_last e (r ∷ rs))
    → latest (close_last e (r ∷ rs)) ≡ some (record (last_row r rs) { end_at = e })
unfolding last_row close_last latest later
latest-close_last e r [] c = refl
latest-close_last e r (s ∷ rs) c =
    latest-last_row r (close_last e (s ∷ rs)) c ∙ ap some (last_row-close_last e r s rs)

latest-append-nil : (new : UptimeRow) → latest (new ∷ []) ≡ some new
unfolding latest later
latest-append-nil new = refl

track-nil : (new : UptimeRow) → track new [] ≡ new ∷ []
unfolding track latest
track-nil new = refl

-- The three ways in which a snapshot goes into a history.
track_cases :
    (P : List UptimeRow → Type 0) (new r : UptimeRow) (rs : List UptimeRow)
    → DistinctIds (r ∷ rs)
    → IsChain (r ∷ rs)
    → ((last_row r rs).status ≡ new.status
        → (last_row r rs).epoch ≡ new.epoch
        → P (close_last new.end_at (r ∷ rs)))
    → P (close_last new.start_at (r ∷ rs) ++ new ∷ [])
    → ((last_row r rs).end_at ≤ new.start_at → P ((r ∷ rs) ++ new ∷ []))
    → P (track new (r ∷ rs))
unfolding track
track_cases P new r rs d c continued closed gap =
    rw (track, latest-last_row r rs c) (cases (Bool-cases _) (Bool-cases _))
  where
    l : UptimeRow
    l = last_row r rs

    cases :
        (ltb new.start_at (l.end_at + minutes 5) ≡ true)
          ⊎ (ltb new.start_at (l.end_at + minutes 5) ≡ false)
        → (is_continued l new ≡ true) ⊎ (is_continued l new ≡ false)
        → P (
            if ltb new.start_at (l.end_at + minutes 5)
            then if is_continued l new
              then set_end l.id new.end_at (r ∷ rs)
              else set_end l.id new.start_at (r ∷ rs) ++ new ∷ []
            else (r ∷ rs) ++ new ∷ [])
    cases (inl e) (inl f) =
        rw (e, f)
          (subst P (sym (set_end-close_last new.end_at r rs d))
            (continued (ground arith) (ground arith)))
    cases (inl e) (inr f) =
        rw (e, f)
          (subst (λ xs. P (xs ++ new ∷ [])) (sym (set_end-close_last new.start_at r rs d)) closed)
    cases (inr e) _ = rw e (gap (ground arith))

module _ (new : UptimeRow) (p : new.start_at < new.end_at) where
  -- A snapshot that is newer than the start of every interval keeps the chain.
  pub track-IsChain :
      (h : List UptimeRow)
      → DistinctIds h
      → IsChain h
      → All (λ s. s.start_at < new.start_at) h
      → IsChain (track new h)
  track-IsChain [] d c a = rw (track-nil new) p
  track-IsChain (r ∷ rs) d c a =
      track_cases IsChain new r rs d c
        (λ _ _.
          IsChain-close_last new.end_at r rs c
            (All-imp _ (λ s. s.start_at < new.end_at) (r ∷ rs) (λ s q. omega arith) a))
        (IsChain-close_last-append new r rs p c a) (IsChain-append new r rs p c)

  abbrev Current : List UptimeRow → Type 0
  Current h =
      (r : UptimeRow) × (latest h ≡ some r)
      × (r.status ≡ new.status)
      × (r.epoch ≡ new.epoch)
      × (r.end_at ≡ new.end_at)

  -- Afterwards the latest uptime is that of the snapshot: its status, its epoch and its end.
  pub latest-track :
      (h : List UptimeRow)
      → DistinctIds h
      → IsChain h
      → All (λ s. s.start_at < new.start_at) h
      → (r : UptimeRow) × (latest (track new h) ≡ some r)
        × (r.status ≡ new.status)
        × (r.epoch ≡ new.epoch)
        × (r.end_at ≡ new.end_at)
  latest-track [] d c a = (new, rw (track-nil new) (latest-append-nil new), refl, refl, refl)
  latest-track (r ∷ rs) d c a =
      track_cases Current new r rs d c
        (λ e f. (
          record (last_row r rs) { end_at = new.end_at },
          latest-close_last new.end_at r rs (
              IsChain-close_last new.end_at r rs c
                (All-imp _ (λ s. s.start_at < new.end_at) (r ∷ rs) (λ s q. omega arith) a)),
          e,
          f,
          refl,
        ))
        (
          new,
          latest-close_last-append new new.start_at r rs (IsChain-close_last-append new r rs p c a),
          refl,
          refl,
          refl,
        )
        (λ q. (new, latest-append new r rs (IsChain-append new r rs p c q), refl, refl, refl))
