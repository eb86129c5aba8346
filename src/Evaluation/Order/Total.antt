-- ===== src/Evaluation/Order/Total.antt =====
-- The order and the end of `TopologicalSort` of pkg/feature/domain/evaluation.go.
use mathlib.Core.List.{Memᴰ}
use bucketeer.Prelude.{
  ℕ, zero, suc, ◌≤◌, String, true, false, List, [], ◌∷◌, ◌≡◌, ◌≢◌, refl, if◌then◌else◌, eq_refl,
  arith, contains, All, All-map, Safe, Safe-bind, Safe-map, or_err-Safe, or_err, ok, length, if_ind,
  subst,
}
use bucketeer.Feature.Model.{feature_not_found, Feature, Prerequisite}
use bucketeer.Feature.WellFormed.{Unique}
use bucketeer.Evaluation.Order.{
  Mark, unvisited, temporary, permanently, Sorting, Step, enter, is_unvisited, feature_at,
  sort_prerequisites, sort_marked, sort, sort_all, start, topological_sort,
}
use bucketeer.Evaluation.Order.Marks.{
  Moves, Grows, Grows-refl, Grows-trans, Grows-visit, open_count, open_count-le,
  open_count_enter-lt, feature_ids, contains_of_Memᴰ, feature_at-Memᴰ,
}
use bucketeer.Evaluation.Order.Placed.{Ordered, Inv, enter-Inv, leave-Inv}

module _ (fs : List Feature) where
  -- What a call has done that answers a state.
  record Done (id : String) (old new : Sorting) : Type 0 where
    inv : Inv fs new
    grows : Grows old.marks new.marks
    done : new.marks id ≡ permanently

  record AllDone (ps : List Prerequisite) (old new : Sorting) : Type 0 where
    inv : Inv fs new
    grows : Grows old.marks new.marks
    done : All (λ (p : Prerequisite). new.marks p.feature_id ≡ permanently) ps

  stays :
      (old new : Sorting) (id : String)
      → Grows old.marks new.marks
      → old.marks id ≡ permanently
      → new.marks id ≡ permanently
  stays old new id g e = rw e at (g id)

  -- `n` is enough for the features that are open.
  abbrev Enough : ℕ → Step → Type 0
  Enough n step =
      (f : Feature) (st : Sorting)
      → Memᴰ f fs
      → open_count st.marks fs ≤ n
      → Inv fs st
      → Safe (Done f.id st) (step f st)

  sort_prerequisites-Safe :
      (n : ℕ) (step : Step)
      → Enough n step
      → (ps : List Prerequisite) (st : Sorting) → open_count st.marks fs ≤ n
      → Inv fs st
      → Safe (AllDone ps st) (sort_prerequisites fs step ps st)
  unfolding sort_prerequisites
  sort_prerequisites-Safe n step enough [] st h v = record {
    inv = v;
    grows = Grows-refl st.marks;
    done = tt;
  }
  sort_prerequisites-Safe n step enough (p ∷ ps) st h v =
      Safe-bind _ (AllDone (p ∷ ps) st) (or_err (feature_at p.feature_id fs) feature_not_found) _
        (or_err-Safe _ feature_not_found)
        λ f found.
          let (m, named) = feature_at-Memᴰ p.feature_id fs f found in
          Safe-bind _ (AllDone (p ∷ ps) st) (step f st) _ (enough f st m h v) λ mid d.
            let fewer = open_count-le st.marks mid.marks fs d.grows in
            Safe-map _ (AllDone (p ∷ ps) st) (sort_prerequisites fs step ps mid)
              (λ new r. record {
                inv = r.inv;
                grows = Grows-trans st.marks mid.marks new.marks d.grows r.grows;
                done = (
                  stays mid new p.feature_id r.grows
                      (subst (λ k. mid.marks k ≡ permanently) named d.done),
                  r.done,
                );
              })
              (sort_prerequisites-Safe n step enough ps mid (omega arith) d.inv)

  visit-Safe :
      (n : ℕ) (step : Step)
      → Enough n step
      → (f : Feature) (st : Sorting) → Memᴰ f fs
      → open_count st.marks fs ≤ suc n
      → Inv fs st
      → (m : Mark) → st.marks f.id ≡ m
      → Safe (Done f.id st) (sort_marked fs step m f st)
  unfolding sort_marked
  visit-Safe n step enough f st m h v permanently e = record {
    inv = v;
    grows = Grows-refl st.marks;
    done = e;
  }
  visit-Safe n step enough f st m h v temporary e = tt
  visit-Safe n step enough f st m h v unvisited e =
      let fewer = open_count_enter-lt f.id st.marks fs (contains_of_Memᴰ m) e in
      Safe-bind _ (Done f.id st) (sort_prerequisites fs step f.prerequisites (enter f st)) _
        (sort_prerequisites-Safe n step enough f.prerequisites (enter f st) (omega arith)
          (enter-Inv fs f st e v))
        λ new r. record {
          inv = leave-Inv fs f new m (rw eq_refl at (r.grows f.id)) r.done r.inv;
          grows = Grows-visit f.id st.marks new.marks e r.grows;
          done = rw eq_refl;
        }

  -- No feature is open, so this one is not.
  visit_closed-Safe :
      (step : Step) (f : Feature) (st : Sorting)
      → Memᴰ f fs
      → open_count st.marks fs ≤ 0
      → Inv fs st
      → (m : Mark) → st.marks f.id ≡ m
      → Safe (Done f.id st) (sort_marked fs step m f st)
  unfolding sort_marked
  visit_closed-Safe step f st m h v permanently e = record {
    inv = v;
    grows = Grows-refl st.marks;
    done = e;
  }
  visit_closed-Safe step f st m h v temporary e = tt
  visit_closed-Safe step f st m h v unvisited e =
      absurd (omega (arith, open_count_enter-lt f.id st.marks fs (contains_of_Memᴰ m) e))

  sort-Safe : (n : ℕ) → Enough n (sort (suc n) fs)
  unfolding sort
  sort-Safe zero f st m h v = visit_closed-Safe (sort 0 fs) f st m h v (st.marks f.id) refl
  sort-Safe (suc n) f st m h v =
      visit-Safe n (sort (suc n) fs) (sort-Safe n) f st m h v (st.marks f.id) refl

  record AllSorted (rest : List Feature) (old new : Sorting) : Type 0 where
    inv : Inv fs new
    grows : Grows old.marks new.marks
    done : All (λ f. new.marks f.id ≡ permanently) rest

  -- Between the calls of the main loop no mark is temporary.
  abbrev NoneTemporary : Sorting → Type 0
  NoneTemporary st = (id : String) → st.marks id ≢ temporary

  visited : (m : Mark) → m ≢ temporary → is_unvisited m ≡ false → m ≡ permanently
  visited unvisited h e = cc
  visited temporary h e = absurd (h refl)
  visited permanently h e = refl

  none_temporary : (a b : Mark) → Moves a b → a ≢ temporary → b ≢ temporary
  none_temporary unvisited b h k = h
  none_temporary temporary b h k = absurd (k refl)
  none_temporary permanently b h k = λ e. cc

  sort_all-Safe :
      (n : ℕ) (rest : List Feature) (st : Sorting)
      → All (λ f. Memᴰ f fs) rest
      → open_count st.marks fs ≤ n
      → NoneTemporary st
      → Inv fs st
      → Safe (AllSorted rest st) (sort_all (suc n) fs rest st)
  unfolding sort_all
  sort_all-Safe n [] st m h k v = record { inv = v; grows = Grows-refl st.marks; done = tt }
  sort_all-Safe n (f ∷ rest) st m h k v =
      Safe-bind (Done f.id st) (AllSorted (f ∷ rest) st)
        (if is_unvisited (st.marks f.id) then sort (suc n) fs f st else ok st) _
        (if_ind (Safe (Done f.id st)) (is_unvisited (st.marks f.id)) (λ _. sort-Safe n f st m.0 h v)
          (λ e. record {
            inv = v;
            grows = Grows-refl st.marks;
            done = visited (st.marks f.id) (k f.id) e;
          }))
        λ mid d.
          let fewer = open_count-le st.marks mid.marks fs d.grows in
          Safe-map _ (AllSorted (f ∷ rest) st) (sort_all (suc n) fs rest mid)
            (λ new r. record {
              inv = r.inv;
              grows = Grows-trans st.marks mid.marks new.marks d.grows r.grows;
              done = (stays mid new f.id r.grows d.done, r.done);
            })
            (sort_all-Safe n rest mid m.1 (omega arith)
              (λ id. none_temporary (st.marks id) (mid.marks id) (d.grows id) (k id)) d.inv)

-- What a topological sort promises: every feature that was given is placed once, nothing else is
-- placed, and prerequisites stand first.
pub record IsSortOf (fs sorted : List Feature) : Type 0 where
  pub ordered : Ordered [] sorted
  pub unique : Unique (feature_ids sorted)
  pub given : All (λ f. Memᴰ f fs) sorted
  pub complete : All (λ (f : Feature). contains f.id (feature_ids sorted) ≡ true) fs

start-Inv : (fs : List Feature) → Inv fs start
unfolding contains
start-Inv fs = record {
  placed = λ id e. cc;
  marked = λ id e. cc;
  ordered = tt;
  unique = tt;
  given = tt;
}

All-given :
    (fs gs : List Feature) → ((f : Feature) → Memᴰ f gs → Memᴰ f fs) → All (λ f. Memᴰ f fs) gs
All-given fs [] k = tt
All-given fs (g ∷ gs) k = (k g (Memᴰ.head refl), All-given fs gs (λ f m. k f (Memᴰ.tail m)))

open_count-le-length : (fs : List Feature) → open_count (λ _. unvisited) fs ≤ length fs
open_count-le-length [] = omega arith
open_count-le-length (f ∷ fs) = omega (arith, open_count-le-length fs)

-- For every list of features the sort ends (the recursion is never cut off and nothing panics)
-- with an error or with a list in which every given feature's id is placed exactly once, only
-- given features are placed, and each stands behind all of its prerequisites.
pub topological_sort-IsSortOf : (fs : List Feature) → Safe (IsSortOf fs) (topological_sort fs)
unfolding topological_sort
topological_sort-IsSortOf fs =
    Safe-bind _ (IsSortOf fs) (sort_all (suc (length fs)) fs fs start) _
      (sort_all-Safe fs (length fs) fs start (All-given fs fs (λ f m. m)) (open_count-le-length fs)
        (λ id e. cc) (start-Inv fs))
      λ st r. record {
        ordered = r.inv.ordered;
        unique = r.inv.unique;
        given = r.inv.given;
        complete = All-map _ _ fs (λ f e. r.inv.placed f.id e) r.done;
      }
