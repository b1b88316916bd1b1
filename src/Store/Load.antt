-- ===== src/Store/Load.antt =====
-- store/src/utils.rs: what `load_validators` and the loaders beside it read from the tables. A query is
-- given by its rows, in its order, or by its error. A conversion of a number that does not fit is
-- `none` where the code unwraps it, and the error `out_of_range` where it has a `?`.
pub mod Yields
pub mod Concentrations
pub mod Grouped
pub mod Rows
pub mod Loop
pub mod Scores
pub mod Fits
pub mod Validators
use delegation_strategy.Prelude.{
  ℕ, ◌+◌, ◌-◌, Bool, Option, none, some, List, [], ◌∷◌, map, maximum, ltb, if◌then◌else◌,
  or_default, u64_mod, ℤ, pos, negsuc, add_u64, sub_u64, min, ◌>>=◌,
}
use delegation_strategy.Store.Query.{Result, ok, err, and_then}
use delegation_strategy.Store.Dto.Scalars.{Decimal}
use delegation_strategy.Store.Dto.Rows.{Validator}

-- `try_into` to a u64, and from an unsigned number to a u8.
abbrev pub to_u64 : ℕ → Option ℕ
to_u64 n = if ltb n u64_mod then some n else none

abbrev pub to_u8 : ℕ → Option ℕ
to_u8 n = if ltb n 256 then some n else none

-- From a signed number: `try_into` to a u64 or a u8.
abbrev pub signed_to_u64 : ℤ → Option ℕ
signed_to_u64 (pos n) = some n
signed_to_u64 (negsuc n) = none

abbrev pub signed_to_u8 : ℤ → Option ℕ
signed_to_u8 (pos n) = to_u8 n
signed_to_u8 (negsuc n) = none

-- `.map(|n| n.try_into().unwrap())`
abbrev pub in_option : {A : Type 0} → (A → Option ℕ) → Option A → Option (Option ℕ)
in_option f none = some none
in_option f (some n) = f n >>= λ m. some (some m)

-- `try_into()?`
abbrev pub or_error : {E A : Type 0} → E → Option A → Result E A
or_error e none = err e
or_error e (some a) = ok a

-- SELECT COALESCE(MAX(epoch), 0) FROM validators, which always has one row.
abbrev pub max_epoch : {Float : Type 0} → List (Validator Float) → Decimal
max_epoch table = maximum (map (λ v. v.epoch) table)

unfoldable pub get_last_epoch :
    {Float E : Type 0} → Result E (List (Validator Float)) → Result E (Option ℕ)
get_last_epoch table = and_then table (λ rows. ok (some (or_default 0 (to_u64 (max_epoch rows)))))

-- The first of the last `epochs` epochs; not below 1.
abbrev pub first_of : ℕ → ℕ → ℕ
first_of last_epoch epochs = add_u64 (last_epoch - min epochs last_epoch) 1
