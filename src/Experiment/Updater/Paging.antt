-- ===== src/Experiment/Updater/Paging.antt =====
-- Listing by pages gives the whole list: the loops of
-- pkg/experiment/batch/job/experiment_status_updater.go against the cursors of
-- pkg/experiment/api/experiment.go.
use bucketeer.Prelude.{
  ℕ, zero, suc, ◌+◌, ◌<◌, ◌≤◌, arith, String, List, [], ◌∷◌, ◌++◌, Bool, true, false, Bool-cases,
  inl, inr, ◌||◌, ◌≡◌, refl, sym, ap, subst, ◌∙◌, eqb, ltb, length, if◌then◌else◌, Result, ok,
}
use mathlib.Core.List.{append_assoc}
use bucketeer.Experiment.Updater.{Page, list_from}

module _ {A : Type 0} where
  abbrev pub take : ℕ → List A → List A
  take zero xs = []
  take (suc n) [] = []
  take (suc n) (x ∷ xs) = x ∷ take n xs

  abbrev pub drop : ℕ → List A → List A
  drop zero xs = xs
  drop (suc n) [] = []
  drop (suc n) (x ∷ xs) = drop n xs

  -- A page that is not full is the rest of the list.
  take_short : (n : ℕ) (xs : List A) → length (take n xs) < n → take n xs ≡ xs
  take_short zero xs h = absurd (omega (arith, h))
  take_short (suc n) [] h = refl
  take_short (suc n) (x ∷ xs) h = ap (λ ys. x ∷ ys) (take_short n xs (omega arith))

  take-drop : (n : ℕ) (xs : List A) → take n xs ++ drop (length (take n xs)) xs ≡ xs
  take-drop zero xs = refl
  take-drop (suc n) [] = refl
  take-drop (suc n) (x ∷ xs) = ap (λ ys. x ∷ ys) (take-drop n xs)

  pub drop_nil : (k : ℕ) → drop k [] ≡ []
  drop_nil zero = refl
  drop_nil (suc k) = refl

  drop-drop : (m n : ℕ) (xs : List A) → drop m (drop n xs) ≡ drop (n + m) xs
  drop-drop m zero xs = ap (λ k. drop k xs) (omega arith)
  drop-drop m (suc n) [] = drop_nil m ∙ sym (drop_nil (suc n + m))
  drop-drop m (suc n) (x ∷ xs) =
      let e : suc (n + m) ≡ suc n + m = omega arith in
      drop-drop m n xs ∙ ap (λ k. drop k (x ∷ xs)) e

  length-drop : (n : ℕ) (xs : List A) → n ≤ length xs → length (drop n xs) + n ≡ length xs
  length-drop zero xs h = omega arith
  length-drop (suc n) [] h = absurd (omega (arith, h))
  length-drop (suc n) (x ∷ xs) h = omega (arith, length-drop n xs)

  length-take : (n : ℕ) (xs : List A) → length (take n xs) ≤ length xs
  length-take zero xs = omega arith
  length-take (suc n) [] = omega arith
  length-take (suc n) (x ∷ xs) = omega (arith, length-take n xs)

-- A listing by pages: the empty cursor stands for the start, and the cursor answered stands behind
-- the page (strconv.Itoa of the next offset).
pub record Paged {E A : Type 0} (size : ℕ) (fetch : String → Result E (Page A))
    (cursor_at : ℕ → String) (all : List A) : Type 0 where
  pub first :
      fetch "" ≡ ok (record { items = take size all; cursor = cursor_at (length (take size all)) })
  pub later :
      (n : ℕ)
      → fetch (cursor_at n)
        ≡ ok (record {
          items = take size (drop n all);
          cursor = cursor_at (n + length (take size (drop n all)));
        })

module _ {E A : Type 0} (size : ℕ) (positive : 0 < size) (fetch : String → Result E (Page A))
    (cursor_at : ℕ → String) (all : List A) (paged : Paged size fetch cursor_at all) where
  abbrev page_at : ℕ → Page A
  page_at n = record {
    items = take size (drop n all);
    cursor = cursor_at (n + length (take size (drop n all)));
  }

  -- One page: the end of the list, or the pages that follow.
  abbrev page_end : Bool → ℕ → Page A → List A → Result E (List A)
  page_end b fuel p acc =
      if b then ok (acc ++ p.items) else list_from size fetch fuel p.cursor (acc ++ p.items)

  list_from-page :
      (fuel : ℕ) (c : String) (acc : List A) (p : Page A)
      → fetch c ≡ ok p
      → list_from size fetch (suc fuel) c acc
        ≡ page_end (eqb (length p.items) 0 || ltb (length p.items) size) fuel p acc
  unfolding list_from
  list_from-page fuel c acc p f = rw f refl

  ended :
      {b : Bool} (fuel : ℕ) (p : Page A) (acc : List A)
      → b ≡ true
      → page_end b fuel p acc ≡ ok (acc ++ p.items)
  ended fuel p acc t = rw t

  followed :
      {b : Bool} (fuel : ℕ) (p : Page A) (acc : List A)
      → b ≡ false
      → page_end b fuel p acc ≡ list_from size fetch fuel p.cursor (acc ++ p.items)
  followed fuel p acc t = rw t

  list_from-all :
      (fuel n : ℕ) (c : String) (acc : List A)
      → fetch c ≡ ok (page_at n)
      → length (drop n all) < fuel
      → list_from size fetch fuel c acc ≡ ok (acc ++ drop n all)
  list_from-all zero n c acc f h = absurd (omega (arith, h))
  list_from-all (suc fuel) n c acc f h =
      let rest = drop n all in
      let page = take size rest in
      let k = length page in
      elim (Bool-cases (eqb k 0 || ltb k size)) [
        | inl t ↦
            list_from-page fuel c acc (page_at n) f
            ∙ ended fuel (page_at n) acc t
            ∙ ap (λ ys. ok (acc ++ ys)) (take_short size rest (ground (arith, positive)))
        | inr t ↦
            let bound : length (drop (n + k) all) < fuel =
              subst (λ ys. length ys < fuel) (drop-drop k n all)
                (ground (arith, length-drop k rest, length-take size rest, t, h)) in
            let joined : acc ++ page ++ drop (n + k) all ≡ acc ++ rest =
              append_assoc acc page (drop (n + k) all)
              ∙ ap (λ ys. acc ++ ys)
                  (ap (λ ys. page ++ ys) (sym (drop-drop k n all)) ∙ take-drop size rest) in
            list_from-page fuel c acc (page_at n) f
            ∙ followed fuel (page_at n) acc t
            ∙ list_from-all fuel (n + k) (cursor_at (n + k)) (acc ++ page) (paged.later (n + k))
                bound
            ∙ ap ok joined
      ]

  first_page : fetch "" ≡ ok (page_at 0)
  first_page =
      paged.first
      ∙ ap (λ k. ok (record { items = take size all; cursor = cursor_at k })) (omega arith)

  -- The loop over the pages, from the empty cursor, ends with the whole list: one unit of fuel more
  -- than there are elements is enough.
  pub list_from-enough : (fuel : ℕ) → length all < fuel → list_from size fetch fuel "" [] ≡ ok all
  list_from-enough fuel h = list_from-all fuel 0 "" [] first_page h
