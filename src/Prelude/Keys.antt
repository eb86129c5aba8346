-- ===== src/Prelude/Keys.antt =====
-- Laws of the searches and changes by position, through the list of keys.
use Prim.Native.Nat.{ℕ, zero, suc}
use Prim.Native.String.{String}
use mathlib.Core.Path.{◌≡◌, refl, sym, subst, ◌∙◌}
use mathlib.Core.Logic.{◌≢◌, inl, inr}
use mathlib.Core.Bool.{true, false, ◌||◌, false≢true}
use mathlib.Core.Option.{none, some}
use mathlib.Core.List.{List, [], ◌∷◌, ◌++◌, map}
use native.Mathlib.Omega.{arith}
use bucketeer.Prelude.Tests.{Option-cases}
use bucketeer.Prelude.Text.{◌==◌, eq_iff}
use bucketeer.Prelude.Lists.{get_elem?, set, erase_at, index_by, All, contains, erase}

pub contains-append :
    (k : String) (xs ys : List String) → contains k (xs ++ ys) ≡ (contains k xs || contains k ys)
unfolding contains
contains-append k [] ys = refl
contains-append k (x ∷ xs) ys = ground (arith, contains-append k xs ys)

-- Removing one key leaves the others.
pub contains-erase_ne :
    (k j : String) (xs : List String) → j ≢ k → contains j (erase k xs) ≡ contains j xs
unfolding contains erase
contains-erase_ne k j [] h = refl
contains-erase_ne k j (x ∷ xs) h = ground (arith, contains-erase_ne k j xs, eq_iff x k, eq_iff x j)

module _ {ℓ} {A : Type ℓ} (key : A → String) where
  index_by-zero : (k : String) (x : A) (xs : List A) → index_by key k (x ∷ xs) ≡ some 0 → key x ≡ k
  unfolding index_by
  index_by-zero k x xs h = ground (arith, eq_iff (key x) k)

  index_by-suc :
      (k : String) (x : A) (xs : List A) (i : ℕ)
      → index_by key k (x ∷ xs) ≡ some (suc i)
      → ((key x == k) ≡ false) × (index_by key k xs ≡ some i)
  unfolding index_by
  index_by-suc k x xs i h = ground arith

  pub index_by-contains :
      (k : String) (xs : List A) (i : ℕ)
      → index_by key k xs ≡ some i
      → contains k (map key xs) ≡ true
  unfolding contains
  index_by-contains k [] i h = unfold index_by in cc
  index_by-contains k (x ∷ xs) zero h = ground (arith, index_by-zero k x xs h, eq_iff (key x) k)
  index_by-contains k (x ∷ xs) (suc i) h =
      let (_, later) = index_by-suc k x xs i h in ground (arith, index_by-contains k xs i later)

  pub index_by-none :
      (k : String) (xs : List A) → index_by key k xs ≡ none → contains k (map key xs) ≡ false
  unfolding index_by contains
  index_by-none k [] h = refl
  index_by-none k (x ∷ xs) h = ground (arith, index_by-none k xs)

  -- A key that is there has a position.
  pub index_by-of_contains :
      (k : String) (xs : List A)
      → contains k (map key xs) ≡ true
      → (i : ℕ) × (index_by key k xs ≡ some i)
  index_by-of_contains k xs h = elim (Option-cases (index_by key k xs)) [
    | inl e ↦ absurd (false≢true (sym (index_by-none k xs e) ∙ h))
    | inr f ↦ f
  ]

  -- The position found is in range, and its element has the key.
  pub get_elem?-index_by :
      (k : String) (xs : List A) (i : ℕ)
      → index_by key k xs ≡ some i
      → (x : A) × (get_elem? xs i ≡ some x) × (key x ≡ k)
  get_elem?-index_by k [] i h = unfold index_by in cc
  get_elem?-index_by k (x ∷ xs) zero h = (x, refl, index_by-zero k x xs h)
  get_elem?-index_by k (x ∷ xs) (suc i) h = get_elem?-index_by k xs i (index_by-suc k x xs i h).1

  pub map-erase_at :
      (k : String) (xs : List A) (i : ℕ)
      → index_by key k xs ≡ some i
      → map key (erase_at xs i) ≡ erase k (map key xs)
  unfolding erase erase_at
  map-erase_at k [] i h = refl
  map-erase_at k (x ∷ xs) zero h = rw ((eq_iff (key x) k).1 (index_by-zero k x xs h))
  map-erase_at k (x ∷ xs) (suc i) h =
      let (other, later) = index_by-suc k x xs i h in rw (other, map-erase_at k xs i later)

-- A write that keeps the key keeps the list of keys.
pub map-set {ℓ κ} :
    {A : Type ℓ} {B : Type κ} (f : A → B) (xs : List A) (i : ℕ) (x y : A)
    → get_elem? xs i ≡ some x
    → f y ≡ f x
    → map f (set xs i y) ≡ map f xs
map-set f [] i x y g h = refl
map-set f (z ∷ zs) zero x y g h = cc
map-set f (z ∷ zs) (suc i) x y g h = rw (map-set f zs i x y g h)

module _ {ℓ κ} {A : Type ℓ} (P : A → Type κ) where
  pub All-append : (xs : List A) (y : A) → All P xs → P y → All P (xs ++ y ∷ [])
  All-append [] y h p = (p, tt)
  All-append (x ∷ xs) y h p = (h.0, All-append xs y h.1 p)

  pub All-set : (xs : List A) (i : ℕ) (y : A) → All P xs → P y → All P (set xs i y)
  All-set [] i y h p = tt
  All-set (x ∷ xs) zero y h p = (p, h.1)
  All-set (x ∷ xs) (suc i) y h p = (h.0, All-set xs i y h.1 p)

  pub All-erase_at : (xs : List A) (i : ℕ) → All P xs → All P (erase_at xs i)
  unfolding erase_at
  All-erase_at [] i h = tt
  All-erase_at (x ∷ xs) zero h = h.1
  All-erase_at (x ∷ xs) (suc i) h = (h.0, All-erase_at xs i h.1)

  pub All-get_elem? : (xs : List A) (i : ℕ) (x : A) → All P xs → get_elem? xs i ≡ some x → P x
  All-get_elem? [] i x h e = cc
  All-get_elem? (z ∷ zs) zero x h e = subst P (cc) h.0
  All-get_elem? (z ∷ zs) (suc i) x h e = All-get_elem? zs i x h.1 e

pub All-map {ℓ κ μ} :
    {A : Type ℓ} (P : A → Type κ) (Q : A → Type μ) (xs : List A)
    → ((x : A) → P x → Q x)
    → All P xs
    → All Q xs
All-map P Q [] f h = tt
All-map P Q (x ∷ xs) f h = (f x h.0, All-map P Q xs f h.1)

pub map-erase_at_pos {ℓ κ} :
    {A : Type ℓ} {B : Type κ} (f : A → B) (xs : List A) (i : ℕ)
    → map f (erase_at xs i) ≡ erase_at (map f xs) i
unfolding erase_at
map-erase_at_pos f [] i = refl
map-erase_at_pos f (x ∷ xs) zero = refl
map-erase_at_pos f (x ∷ xs) (suc i) = rw (map-erase_at_pos f xs i)

pub map-append_one {ℓ κ} :
    {A : Type ℓ} {B : Type κ} (f : A → B) (xs : List A) (y : A)
    → map f (xs ++ y ∷ []) ≡ map f xs ++ f y ∷ []
map-append_one f [] y = refl
map-append_one f (x ∷ xs) y = rw (map-append_one f xs y)
