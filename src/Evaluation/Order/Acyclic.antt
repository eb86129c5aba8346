-- ===== src/Evaluation/Order/Acyclic.antt =====
-- `TopologicalSort` of pkg/feature/domain/evaluation.go where no error is due.
use mathlib.Core.List.{Memᴰ}
use bucketeer.Prelude.{
  ℕ, zero, suc, ◌≤◌, ◌<◌, Bool-cases, String, true, List, [], ◌∷◌, Option, none, some, is_some, ◌≡◌,
  ◌≢◌, refl, if◌then◌else◌, ◌==◌, eq_iff, arith, All, Safe, Result, ok, err, panic, or_err, length,
  ◌>>=◌, inl, inr, if_ind,
}
use bucketeer.Feature.Model.{Error, feature_not_found, Feature, Prerequisite}
use bucketeer.Evaluation.Order.{
  Mark, unvisited, temporary, permanently, Sorting, Step, enter, leave, is_unvisited, feature_at,
  sort_prerequisites, sort_marked, sort, sort_all, start, topological_sort,
}
use bucketeer.Evaluation.Order.Marks.{feature_at-Memᴰ}
use bucketeer.Evaluation.Order.Total.{IsSortOf, topological_sort-IsSortOf}

-- No error, and the value, if there is one, satisfies `P`.
abbrev NoError : {E A : Type 0} → (A → Type 0) → Result E A → Type 0
NoError P (ok a) = P a
NoError P (err e) = ⊥
NoError P panic = Unit

NoError-bind :
    {E A B : Type 0} (P : A → Type 0) (Q : B → Type 0) (m : Result E A) (f : A → Result E B)
    → NoError P m
    → ((a : A) → P a → NoError Q (f a))
    → NoError Q (m >>= f)
NoError-bind P Q (ok a) f h k = k a h
NoError-bind P Q (err e) f h k = h
NoError-bind P Q panic f h k = tt

NoError-map :
    {E A : Type 0} (P Q : A → Type 0) (r : Result E A)
    → ((a : A) → P a → Q a)
    → NoError P r
    → NoError Q r
NoError-map P Q (ok a) f h = f a h
NoError-map P Q (err e) f h = h
NoError-map P Q panic f h = tt

lookup-NoError :
    {E A : Type 0} (o : Option A) (e : E)
    → is_some o ≡ true
    → NoError (λ a. o ≡ some a) (or_err o e)
lookup-NoError none e h = cc
lookup-NoError (some a) e h = refl

-- `rank` puts each prerequisite below what needs it, so there is no cycle.
abbrev pub Ranked : (String → ℕ) → List Feature → Type 0
Ranked rank fs =
    (f : Feature)
    → Memᴰ f fs
    → All (λ (p : Prerequisite). rank p.feature_id < rank f.id) f.prerequisites

-- Every prerequisite names a feature of the list.
abbrev pub Closed : List Feature → Type 0
Closed fs =
    (f : Feature)
    → Memᴰ f fs
    → All (λ (p : Prerequisite). is_some (feature_at p.feature_id fs) ≡ true) f.prerequisites

module _ (rank : String → ℕ) (fs : List Feature) (ranked : Ranked rank fs)
    (closed : Closed fs) where
  -- The features being visited all lie above `bound`.
  abbrev Above : ℕ → Sorting → Type 0
  Above bound st = (id : String) → st.marks id ≡ temporary → bound < rank id

  abbrev NoneNew : Sorting → Sorting → Type 0
  NoneNew old new = (id : String) → new.marks id ≡ temporary → old.marks id ≡ temporary

  abbrev Succeeds : Step → Type 0
  Succeeds step =
      (f : Feature) (st : Sorting)
      → Memᴰ f fs
      → Above (rank f.id) st
      → NoError (NoneNew st) (step f st)

  abbrev AtLeast : ℕ → Sorting → Type 0
  AtLeast bound st = (id : String) → st.marks id ≡ temporary → bound ≤ rank id

  sort_prerequisites-NoError :
      (step : Step)
      → Succeeds step
      → (bound : ℕ) (ps : List Prerequisite) (st : Sorting)
      → All (λ (p : Prerequisite). rank p.feature_id < bound) ps
      → All (λ (p : Prerequisite). is_some (feature_at p.feature_id fs) ≡ true) ps
      → AtLeast bound st
      → NoError (NoneNew st) (sort_prerequisites fs step ps st)
  unfolding sort_prerequisites
  sort_prerequisites-NoError step succeeds bound [] st r c a = λ id e. e
  sort_prerequisites-NoError step succeeds bound (p ∷ ps) st r c a =
      NoError-bind _ (NoneNew st) (or_err (feature_at p.feature_id fs) feature_not_found) _
        (lookup-NoError _ feature_not_found c.0)
        λ f found.
          let (m, named) = feature_at-Memᴰ p.feature_id fs f found in
          let lower : rank f.id < bound = rw named r.0 in
          NoError-bind _ (NoneNew st) (step f st) _
            (succeeds f st m (λ id e. omega (arith, a id e)))
            λ mid k.
              NoError-map _ (NoneNew st) (sort_prerequisites fs step ps mid)
                (λ new l id e. k id (l id e))
                (sort_prerequisites-NoError step succeeds bound ps mid r.1 c.1
                  (λ id e. a id (k id e)))

  visit-NoError :
      (step : Step)
      → Succeeds step
      → (f : Feature) (st : Sorting) → Memᴰ f fs
      → Above (rank f.id) st
      → (m : Mark) → st.marks f.id ≡ m
      → NoError (NoneNew st) (sort_marked fs step m f st)
  unfolding sort_marked
  visit-NoError step succeeds f st m a permanently e = λ id t. t
  visit-NoError step succeeds f st m a temporary e = omega (arith, a f.id e)
  visit-NoError step succeeds f st m a unvisited e =
      NoError-bind _ (NoneNew st) (sort_prerequisites fs step f.prerequisites (enter f st)) _
        (sort_prerequisites-NoError step succeeds (rank f.id) f.prerequisites (enter f st)
          (ranked f m) (closed f m) entered)
        λ new k id t. left new k id t
    where
      entered : AtLeast (rank f.id) (enter f st)
      entered id t = elim (Bool-cases (id == f.id)) [
        | inl same ↦ rw ((eq_iff id f.id).0 same) (omega arith)
        | inr other ↦ let was : st.marks id ≡ temporary = rw other at t in omega (arith, a id was)
      ]

      left :
          (new : Sorting)
          → NoneNew (enter f st) new
          → (id : String) → (leave f new).marks id ≡ temporary
          → st.marks id ≡ temporary
      left new k id t = elim (Bool-cases (id == f.id)) [
        | inl same ↦ let no : permanently ≡ temporary = rw same at t in cc
        | inr other ↦ let now : new.marks id ≡ temporary = rw other at t in rw other at (k id now)
      ]

  sort-NoError : (n : ℕ) → Succeeds (sort n fs)
  unfolding sort
  sort-NoError zero f st m a = tt
  sort-NoError (suc n) f st m a =
      visit-NoError (sort n fs) (sort-NoError n) f st m a (st.marks f.id) refl

  sort_all-NoError :
      (n : ℕ) (rest : List Feature) (st : Sorting)
      → ((f : Feature) → Memᴰ f rest → Memᴰ f fs)
      → ((id : String) → st.marks id ≢ temporary)
      → NoError (λ _. Unit {0}) (sort_all n fs rest st)
  unfolding sort_all
  sort_all-NoError n [] st m k = tt
  sort_all-NoError n (f ∷ rest) st m k =
      NoError-bind (NoneNew st) (λ _. Unit {0})
        (if is_unvisited (st.marks f.id) then sort n fs f st else ok st) _
        (if_ind (NoError (NoneNew st)) (is_unvisited (st.marks f.id))
          (λ _. sort-NoError n f st (m f (Memᴰ.head refl)) (λ id e. absurd (k id e))) (λ _ id e. e))
        λ mid g. sort_all-NoError n rest mid (λ f' m'. m f' (Memᴰ.tail m')) (λ id e. k id (g id e))

-- For features whose prerequisites are all in the list and that have no cycle (some ranking puts
-- every prerequisite below what needs it), the sort succeeds.
pub topological_sort-total :
    (rank : String → ℕ) (fs : List Feature)
    → Ranked rank fs
    → Closed fs
    → (sorted : List Feature) × (topological_sort fs ≡ ok sorted)
topological_sort-total rank fs ranked closed =
    returns (topological_sort fs) (topological_sort-IsSortOf fs) no_error
  where
    no_error : NoError (λ _. Unit {0}) (topological_sort fs)
    no_error =
        unfold topological_sort in
        NoError-bind _ _ (sort_all (suc (length fs)) fs fs start) _
          (sort_all-NoError rank fs ranked closed (suc (length fs)) fs start (λ f m. m)
            (λ id e. cc))
          (λ st _. tt)

    returns :
        (r : Result Error (List Feature))
        → Safe (IsSortOf fs) r
        → NoError (λ _. Unit {0}) r
        → (sorted : List Feature) × (r ≡ ok sorted)
    returns (ok l) s h = (l, refl)
    returns (err e) s h = absurd h
    returns panic s h = absurd s
