-- ===== src/Feature/WellFormed/RoundTrip.antt =====
-- Adding a user to a target and removing it again (pkg/feature/domain/feature.go).
use bucketeer.Prelude.{
  ℤ, ℕ, zero, suc, String, false, List, [], ◌∷◌, ◌++◌, map, some, ◌≡◌, refl, ap, ◌∙◌, ◌==◌, eq_refl,
  arith, contains, index_by, get_elem?, set, erase_at, length, ok, map-set, Bool-cases, inl, inr,
}
use bucketeer.Feature.Model.{Target, Feature}
use bucketeer.Feature.Lookup.{target_variation, find_target, index}
use bucketeer.Feature.Targets.{add_user_to_variation, remove_user_from_variation}

-- A search only looks at the keys.
index_by-map :
    {A : Type 0} (key : A → String) (k : String) (xs ys : List A)
    → map key xs ≡ map key ys
    → index_by key k xs ≡ index_by key k ys
unfolding index_by
index_by-map key k [] [] e = refl
index_by-map key k [] (y ∷ ys) e = cc
index_by-map key k (x ∷ xs) [] e = cc
index_by-map key k (x ∷ xs) (y ∷ ys) e =
    let head : key x ≡ key y = cc in
    let tail : map key xs ≡ map key ys = cc in rw (head, index_by-map key k xs ys tail) refl

index-last :
    (u : String) (us : List String)
    → contains u us ≡ false
    → index_by (λ x. x) u (us ++ u ∷ []) ≡ some (length us)
unfolding index_by contains
index-last u [] h = rw eq_refl refl
index-last u (x ∷ us) h = elim (Bool-cases (x == u)) [
  | inl e ↦ ground arith
  | inr e ↦ rw (e, index-last u us (ground arith)) refl
]

erase_at-last : (u : String) (us : List String) → erase_at (us ++ u ∷ []) (length us) ≡ us
unfolding erase_at
erase_at-last u [] = refl
erase_at-last u (x ∷ us) = ap (λ l. x ∷ l) (erase_at-last u us)

set-back :
    {A : Type 0} (xs : List A) (i : ℕ) (x y : A)
    → get_elem? xs i ≡ some x
    → (get_elem? (set xs i y) i ≡ some y) × (set (set xs i y) i x ≡ xs)
set-back [] i x y e = cc
set-back (z ∷ xs) zero x y e = let same : x ≡ z = cc in (refl, ap (λ w. w ∷ xs) same)
set-back (z ∷ xs) (suc i) x y e = let k = set-back xs i x y e in (k.0, ap (λ l. z ∷ l) k.1)

-- A user that a target does not name yet is added to it, and removing the user again gives the
-- targets as they were: the operations change nothing else but the time of the change.
pub remove_user_from_variation-add_user_to_variation :
    (variation user : String) (now later : ℤ) (f : Feature) (i : ℕ) (t : Target)
    → index_by target_variation variation f.targets ≡ some i
    → get_elem? f.targets i ≡ some t
    → contains user t.users ≡ false
    → (g : Feature) × (add_user_to_variation variation user now f ≡ ok g)
      × (remove_user_from_variation variation user later g ≡ ok (record f { updated_at = later }))
unfolding add_user_to_variation remove_user_from_variation find_target index
remove_user_from_variation-add_user_to_variation variation user now later f i t found at new =
    let t' : Target = record t { users = t.users ++ user ∷ [] } in
    let back = set-back f.targets i t t' at in
    let still : index_by target_variation variation (set f.targets i t') ≡ some i =
      index_by-map target_variation variation (set f.targets i t') f.targets
        (map-set target_variation f.targets i t t' at refl)
      ∙ found in
    (
      record f { targets = set f.targets i t'; updated_at = now },
      rw (found, at, new) refl,
      rw (still, back.0, index-last user t.users new, erase_at-last user t.users)
          (ap (λ ts. ok (record f { targets = ts; updated_at = later })) back.1),
    )
