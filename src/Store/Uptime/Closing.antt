-- ===== src/Store/Uptime/Closing.antt =====
-- What the loop and the UPDATE do to one history is what `track` does.
use delegation_strategy.Prelude.{
  ℕ, ◌≡◌, refl, sym, ap, ap₂, ◌∙◌, subst, inl, inr, String, Bool, false, ◌&&◌, ◌||◌, Option, none,
  some, List, [], ◌∷◌, ◌++◌, map, arith, ◌==◌, if◌then◌else◌, holds, string_discrete, get, keep,
  any, All, All-imp, map-eq_of_All, map_id, Bool-cases,
}
use delegation_strategy.Store.Dto.Scalars.{DateTime}
use delegation_strategy.Collect.Performance.{ValidatorPerformance, ValidatorsPerformanceSnapshot}
use delegation_strategy.Store.Uptime.{
  UptimeRow, of_account, latest, is_id, ended, is_recent, is_same_status, new_row,
}
use delegation_strategy.Store.Uptime.History.{set_end, track, DistinctIds}
use delegation_strategy.Store.Uptime.Plan.{planned, extends, or_else}
use delegation_strategy.Store.Uptime.Latest.{latest-All, latest-by_id, latest-any, track-none}

module _ {Float : Type 0} (snapshot : ValidatorsPerformanceSnapshot Float) where
  pub close_with : Option DateTime → ℕ → List UptimeRow → List UptimeRow
  close_with none i h = h
  close_with (some e) i h = set_end i e h

  pub map-ended :
      (o : Option DateTime) (i : ℕ) (h : List UptimeRow)
      → map (λ r. ended r (if i == r.id then o else none)) h ≡ close_with o i h
  unfolding close_with set_end
  map-ended none i h = map_id _ h (λ r. ground arith)
  map-ended (some e) i [] = refl
  map-ended (some e) i (r ∷ h) = ground (arith, map-ended (some e) i h)

  pub one_end :
      (l r : UptimeRow)
      → (r.id ≡ l.id → r ≡ l)
      → ended r (if is_id r.id (some l) then or_else snapshot (planned snapshot r) none else none)
        ≡ ended r (if l.id == r.id then planned snapshot l else none)
  one_end l r f = elim (Bool-cases (l.id == r.id)) [
    | inl e ↦ rw e (
        ap (ended r) (or_else-none (planned snapshot r) ∙ ap (planned snapshot) (f (ground arith))))
    | inr e ↦ rw e
  ]
    where
      or_else-none : (o : Option DateTime) → or_else snapshot o none ≡ o
      or_else-none none = refl
      or_else-none (some t) = refl

  pub closed_lem :
      (h : List UptimeRow) (l : UptimeRow)
      → DistinctIds h
      → latest h ≡ some l
      → map
          (λ r.
            ended r
              (if is_id r.id (some l) then or_else snapshot (planned snapshot r) none else none))
          h
        ≡ close_with (planned snapshot l) l.id h
  closed_lem h l d e =
      map-eq_of_All _ (λ r. ended r (if l.id == r.id then planned snapshot l else none)) h
        (All-imp (λ s. s.id ≡ l.id → s ≡ l) _ h (one_end l) (latest-by_id h l d e))
      ∙ map-ended (planned snapshot l) l.id h

  pub marked_lem :
      (l : UptimeRow) (hs : List UptimeRow)
      → All (λ s. s.id ≡ l.id → s ≡ l) hs
      → any (extends snapshot) (keep (λ r. l.id == r.id) hs)
        ≡ (any (λ r. l.id == r.id) hs && extends snapshot l)
  marked_lem l [] a = refl
  marked_lem l (r ∷ hs) a = elim (Bool-cases (l.id == r.id)) [
    | inl e ↦
        rw (e, a.0 (ground arith), marked_lem l hs a.1)
          (absorb (extends snapshot l) (any (λ s. l.id == s.id) hs))
    | inr e ↦ rw e (marked_lem l hs a.1)
  ]
    where
      absorb : (x y : Bool) → (x || (y && x)) ≡ x
      absorb x y = ground arith

  pub any-keep :
      (p : UptimeRow → Bool) (q : Option UptimeRow) (va : String) (rs : List UptimeRow)
      → ((r : UptimeRow) → r.vote_account ≡ va → p r ≡ is_id r.id q)
      → any (λ r. holds (string_discrete r.vote_account va) && extends snapshot r) (keep p rs)
        ≡ any (extends snapshot) (keep (λ r. is_id r.id q) (of_account va rs))
  any-keep p q va [] same = refl
  any-keep p q va (r ∷ rs) same = ground (arith, same r, any-keep p q va rs same)

  abbrev pub assemble : Bool → List UptimeRow → UptimeRow → List UptimeRow
  assemble extended h new = if extended then h else h ++ new ∷ []

  abbrev pub after_update : Option UptimeRow → List UptimeRow → List UptimeRow
  after_update q =
      map λ r. ended r (if is_id r.id q then or_else snapshot (planned snapshot r) none else none)

  pub branches_lem :
      (va : String) (v : ValidatorPerformance Float) (j : ℕ) (h : List UptimeRow) (l : UptimeRow)
      → latest h ≡ some l
      → get string_discrete l.vote_account snapshot.validators ≡ some v
      → assemble
          (extends snapshot l)
          (close_with (planned snapshot l) l.id h)
          (new_row snapshot va v j)
        ≡ track (new_row snapshot va v j) h
  unfolding track extends planned close_with is_recent is_same_status
  branches_lem va v j h l e found = ground (arith, found, e)

  -- The parts of `store_uptime` put together over one history.
  pub history_lem :
      (va : String) (v : ValidatorPerformance Float) (j : ℕ) (h : List UptimeRow)
      → DistinctIds h
      → get string_discrete va snapshot.validators ≡ some v
      → All (λ r. r.vote_account ≡ va) h
      → (q : Option UptimeRow) → latest h ≡ q
      → assemble
          (any (extends snapshot) (keep (λ r. is_id r.id q) h))
          (after_update q h)
          (new_row snapshot va v j)
        ≡ track (new_row snapshot va v j) h
  history_lem va v j h d found own none e =
      ap₂ (λ b m. assemble b m (new_row snapshot va v j))
        (ap (any (extends snapshot)) (keep-none h)) (map_id (λ r. ended r none) h (λ r. refl))
      ∙ sym (track-none (new_row snapshot va v j) h e)
    where
      keep-none : (xs : List UptimeRow) → keep (λ r. false) xs ≡ []
      keep-none [] = refl
      keep-none (x ∷ xs) = keep-none xs
  history_lem va v j h d found own (some l) e =
      ap₂ (λ b m. assemble b m (new_row snapshot va v j))
        (marked_lem l h (latest-by_id h l d e)
          ∙ ap (λ b. b && extends snapshot l) (latest-any h l e))
        (closed_lem h l d e)
      ∙ branches_lem va v j h l e (
          subst (λ x. get string_discrete x snapshot.validators ≡ some v)
            (sym (latest-All (λ r. r.vote_account ≡ va) h l own e)) found)
