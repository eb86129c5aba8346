-- ===== src/Prelude/Lists.antt =====
-- Lists searched and changed by position: the loops over slices that the source repeats.
use Prim.Native.Nat.{ℕ, zero, suc}
use Prim.Native.String.{String}
use mathlib.Core.Bool.{Bool, false, ◌||◌}
use mathlib.Core.Option.{Option, none, some}
use mathlib.Core.List.{List, [], ◌∷◌}
use bucketeer.Prelude.Tests.{if◌then◌else◌}
use bucketeer.Prelude.Text.{◌==◌}
use mathlib.Core.Option

module _ {ℓ} {A : Type ℓ} where
  abbrev pub length : List A → ℕ
  length [] = 0
  length (x ∷ xs) = suc (length xs)

  abbrev pub get_elem? : List A → ℕ → Option A
  get_elem? [] i = none
  get_elem? (x ∷ xs) zero = some x
  get_elem? (x ∷ xs) (suc i) = get_elem? xs i

  -- A write out of bounds changes nothing.
  abbrev pub set : List A → ℕ → A → List A
  set [] i v = []
  set (x ∷ xs) zero v = v ∷ xs
  set (x ∷ xs) (suc i) v = x ∷ set xs i v

  -- `append(xs[:i], xs[i+1:]...)`.
  unfoldable pub erase_at : List A → ℕ → List A
  erase_at [] i = []
  erase_at (x ∷ xs) zero = xs
  erase_at (x ∷ xs) (suc i) = x ∷ erase_at xs i

  -- The first position whose key is `k`: a `for i := range xs` loop that returns `i`.
  unfoldable pub index_by : (A → String) → String → List A → Option ℕ
  index_by key k [] = none
  index_by key k (x ∷ xs) = if key x == k then some 0 else Option.map suc (index_by key k xs)

  abbrev pub All {κ} : (A → Type κ) → List A → Type κ
  All P [] = Unit
  All P (x ∷ xs) = P x × All P xs

unfoldable pub contains : String → List String → Bool
contains needle [] = false
contains needle (x ∷ xs) = x == needle || contains needle xs

unfoldable pub erase : String → List String → List String
erase k [] = []
erase k (x ∷ xs) = if x == k then xs else x ∷ erase k xs
