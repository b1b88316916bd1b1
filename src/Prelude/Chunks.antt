-- ===== src/Prelude/Chunks.antt =====
-- `slice::chunks`: runs of a given length, the last one perhaps shorter.
use Prim.Native.Nat.{ℕ, zero, suc, ◌-◌}
use mathlib.Core.Path.{◌≡◌, refl, ap, ◌∙◌}
use mathlib.Core.List.{List, [], ◌∷◌, ◌++◌, append_assoc}
use delegation_strategy.Prelude.Lists.{flat_map}

module _ {ℓ} {A : Type ℓ} where
  -- The run that is being filled has `room` left; a new one has `more` left after its first entry.
  unfoldable pub chunks_from : ℕ → ℕ → List A → List A → List (List A)
  chunks_from more room run [] = run ∷ []
  chunks_from more zero run (x ∷ xs) = run ∷ chunks_from more more (x ∷ []) xs
  chunks_from more (suc room) run (x ∷ xs) = chunks_from more room (run ++ x ∷ []) xs

  unfoldable pub chunks : ℕ → List A → List (List A)
  unfolding chunks_from
  chunks size [] = []
  chunks size (x ∷ xs) = chunks_from (size - 1) (size - 1) (x ∷ []) xs

  flat_map-chunks_from :
      (more room : ℕ) (run xs : List A)
      → flat_map (λ c. c) (chunks_from more room run xs) ≡ run ++ xs
  unfolding chunks_from
  flat_map-chunks_from more room run [] = refl
  flat_map-chunks_from more zero run (x ∷ xs) =
      ap (λ l. run ++ l) (flat_map-chunks_from more more (x ∷ []) xs)
  flat_map-chunks_from more (suc room) run (x ∷ xs) =
      flat_map-chunks_from more room (run ++ x ∷ []) xs ∙ append_assoc run (x ∷ []) xs

  -- The chunks, one after the other, are the list.
  pub flat_map-chunks : (size : ℕ) (xs : List A) → flat_map (λ c. c) (chunks size xs) ≡ xs
  unfolding chunks
  flat_map-chunks size [] = refl
  flat_map-chunks size (x ∷ xs) = flat_map-chunks_from (size - 1) (size - 1) (x ∷ []) xs
