-- ===== src/Evaluation/Order/Marks.antt =====
-- How marks change during a sort, and how many features are not visited yet.
use mathlib.Core.List.{Memᴰ}
use bucketeer.Prelude.{
  ℕ, suc, ◌≤◌, ◌<◌, String, true, map, contains, List, [], ◌∷◌, none, some, ◌≡◌, ◌≢◌, refl,
  if◌then◌else◌, ◌==◌, eq_iff, eq_refl, arith, Bool-cases, Option-cases, inl, inr, ap, subst, ◌∙◌,
}
use bucketeer.Feature.Model.{Feature}
use bucketeer.Evaluation.Order.{
  Mark, unvisited, temporary, permanently, set_mark, is_unvisited, feature_at,
}

-- What one completed call may do to a mark: a feature that was not visited may have been placed,
-- and nothing else changes.
abbrev pub Moves : Mark → Mark → Type 0
Moves unvisited m = m ≢ temporary
Moves temporary m = m ≡ temporary
Moves permanently m = m ≡ permanently

abbrev pub Grows : (String → Mark) → (String → Mark) → Type 0
Grows old new = (id : String) → Moves (old id) (new id)

Moves-refl : (m : Mark) → Moves m m
Moves-refl unvisited = λ e. cc
Moves-refl temporary = refl
Moves-refl permanently = refl

Moves-trans : (a b c : Mark) → Moves a b → Moves b c → Moves a c
Moves-trans unvisited unvisited c h k = k
Moves-trans unvisited temporary c h k = absurd (h refl)
Moves-trans unvisited permanently c h k = λ e. cc
Moves-trans temporary temporary c h k = k
Moves-trans temporary unvisited c h k = cc
Moves-trans temporary permanently c h k = cc
Moves-trans permanently permanently c h k = k
Moves-trans permanently unvisited c h k = cc
Moves-trans permanently temporary c h k = cc

pub Grows-refl : (m : String → Mark) → Grows m m
Grows-refl m id = Moves-refl (m id)

pub Grows-trans : (a b c : String → Mark) → Grows a b → Grows b c → Grows a c
Grows-trans a b c h k id = Moves-trans (a id) (b id) (c id) (h id) (k id)

-- A visit: the mark is temporary while the prerequisites are sorted, then permanent.
pub Grows-visit :
    (id : String) (old new : String → Mark)
    → old id ≡ unvisited
    → Grows (set_mark id temporary old) new
    → Grows old (set_mark id permanently new)
Grows-visit id old new u g j = elim (Bool-cases (j == id)) [
  | inl e ↦ rw e (rw ((eq_iff j id).0 e) (rw u (λ f. cc)))
  | inr e ↦ rw e (rw e at (g j))
]

-- How many features of a list are not visited.
abbrev pub open_count : (String → Mark) → List Feature → ℕ
open_count marks [] = 0
open_count marks (f ∷ fs) =
    if is_unvisited (marks f.id) then suc (open_count marks fs) else open_count marks fs

unvisited_before : (a b : Mark) → Moves a b → is_unvisited b ≡ true → is_unvisited a ≡ true
unvisited_before unvisited b h e = refl
unvisited_before temporary b h e = cc
unvisited_before permanently b h e = cc

pub open_count-le :
    (old new : String → Mark) (fs : List Feature)
    → Grows old new
    → open_count new fs ≤ open_count old fs
open_count-le old new [] g = omega arith
open_count-le old new (f ∷ fs) g =
    ground (arith, open_count-le old new fs g, unvisited_before (old f.id) (new f.id) (g f.id))

open_count_enter-le :
    (id : String) (marks : String → Mark) (fs : List Feature)
    → open_count (set_mark id temporary marks) fs ≤ open_count marks fs
open_count_enter-le id marks [] = omega arith
open_count_enter-le id marks (f ∷ fs) = ground (arith, open_count_enter-le id marks fs)

abbrev pub feature_ids : List Feature → List String
feature_ids fs = map (λ f. f.id) fs

-- Entering a feature of the list leaves fewer.
pub open_count_enter-lt :
    (id : String) (marks : String → Mark) (fs : List Feature)
    → contains id (feature_ids fs) ≡ true
    → marks id ≡ unvisited
    → open_count (set_mark id temporary marks) fs < open_count marks fs
open_count_enter-lt id marks [] h u = unfold contains in cc
open_count_enter-lt id marks (f ∷ fs) h u = elim (Bool-cases (f.id == id)) [
  | inl e ↦
      let fewer = open_count_enter-le id marks fs in
      rw ((eq_iff f.id id).0 e) (rw (eq_refl, u) (omega arith))
  | inr e ↦
      let later : contains id (feature_ids fs) ≡ true = unfold contains in ground arith in
      ground (arith, open_count_enter-lt id marks fs later u)
]

pub contains_of_Memᴰ :
    {f : Feature} {fs : List Feature} → Memᴰ f fs → contains f.id (feature_ids fs) ≡ true
unfolding contains
contains_of_Memᴰ {f} (Memᴰ.head {x = g} e) = rw e (rw eq_refl)
contains_of_Memᴰ (Memᴰ.tail m) = ground (arith, contains_of_Memᴰ m)

pub feature_at-Memᴰ :
    (id : String) (fs : List Feature) (f : Feature)
    → feature_at id fs ≡ some f
    → Memᴰ f fs × (f.id ≡ id)
unfolding feature_at
feature_at-Memᴰ id [] f e = cc
feature_at-Memᴰ id (g ∷ fs) f e = elim (Option-cases (feature_at id fs)) [
  | inl none_later ↦ elim (Bool-cases (g.id == id)) [
    | inl same ↦
        let first : some g ≡ some f = rw (none_later, same) at e in
        let found : f ≡ g = cc in
        (Memᴰ.head found, ap (λ (h : Feature). h.id) found ∙ (eq_iff g.id id).0 same)
    | inr other ↦ let nothing : none ≡ some f = rw (none_later, other) at e in cc
  ]
  | inr (h, later) ↦
      let last : some h ≡ some f = rw later at e in
      let found : h ≡ f = cc in
      let (m, named) = feature_at-Memᴰ id fs h later in
      (Memᴰ.tail (subst (λ k. Memᴰ k fs) found m), subst (λ (k : Feature). k.id ≡ id) found named)
]
