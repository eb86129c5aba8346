-- ===== src/Evaluation/Order/Placed.antt =====
-- What holds of the marks and of the features placed while a sort runs.
use mathlib.Core.List.{Memᴰ, append_assoc, append-nil}
use bucketeer.Prelude.{
  String, Bool, true, false, ◌||◌, List, [], ◌∷◌, ◌++◌, ◌≡◌, ◌∙◌, sym, refl, ◌==◌, eq_iff, arith,
  Bool-cases, inl, inr, contains, contains-append, All, All-append, All-map, map-append_one, subst,
  ap,
}
use bucketeer.Feature.Model.{Feature, Prerequisite}
use bucketeer.Feature.WellFormed.{Unique, Unique-append}
use bucketeer.Evaluation.Order.{unvisited, temporary, permanently, Sorting, enter, leave}
use bucketeer.Evaluation.Order.Marks.{feature_ids}

-- Every feature stands behind the features that its prerequisites name.
abbrev pub Ordered : List String → List Feature → Type 0
Ordered seen [] = Unit
Ordered seen (f ∷ fs) =
    All (λ (p : Prerequisite). contains p.feature_id seen ≡ true) f.prerequisites
    × Ordered (seen ++ f.id ∷ []) fs

Ordered-append :
    (seen : List String) (fs : List Feature) (f : Feature)
    → Ordered seen fs
    → All
        (λ (p : Prerequisite). contains p.feature_id (seen ++ feature_ids fs) ≡ true)
        f.prerequisites
    → Ordered seen (fs ++ f ∷ [])
Ordered-append seen [] f o h = (
  subst (λ l. All (λ (p : Prerequisite). contains p.feature_id l ≡ true) f.prerequisites)
      (append-nil seen) h,
  tt,
)
Ordered-append seen (g ∷ fs) f o h =
    (o.0, Ordered-append (seen ++ g.id ∷ []) fs f o.1 (rw append_assoc h))

contains_last :
    (id : String) (fs : List Feature) (f : Feature)
    → contains id (feature_ids (fs ++ f ∷ [])) ≡ (contains id (feature_ids fs) || f.id == id)
unfolding contains
contains_last id fs f =
    ap (contains id) (map-append_one (λ (g : Feature). g.id) fs f)
    ∙ contains-append id (feature_ids fs) (f.id ∷ [])
    ∙ ap (λ b. contains id (feature_ids fs) || b) (||_false (f.id == id))
  where
    ||_false : (b : Bool) → (b || false) ≡ b
    ||_false true = refl
    ||_false false = refl

module _ (fs : List Feature) where
  -- The permanent marks are the features placed, each once and in order.
  pub record Inv (st : Sorting) : Type 0 where
    pub placed :
        (id : String) → st.marks id ≡ permanently → contains id (feature_ids st.sorted) ≡ true
    pub marked :
        (id : String) → contains id (feature_ids st.sorted) ≡ true → st.marks id ≡ permanently
    pub ordered : Ordered [] st.sorted
    pub unique : Unique (feature_ids st.sorted)
    pub given : All (λ f. Memᴰ f fs) st.sorted

  pub enter-Inv :
      (f : Feature) (st : Sorting) → st.marks f.id ≡ unvisited → Inv st → Inv (enter f st)
  enter-Inv f st u v = record {
    placed = λ id e. v.placed id (ground (arith, eq_iff id f.id));
    marked = λ id c. let p = v.marked id c in ground (arith, eq_iff id f.id);
    ordered = v.ordered;
    unique = v.unique;
    given = v.given;
  }

  pub leave-Inv :
      (f : Feature) (st : Sorting)
      → Memᴰ f fs
      → st.marks f.id ≡ temporary
      → All (λ (p : Prerequisite). st.marks p.feature_id ≡ permanently) f.prerequisites
      → Inv st
      → Inv (leave f st)
  leave-Inv f st m t ready v = record {
    placed = λ id e.
        ground (arith, v.placed id, contains_last id st.sorted f, eq_iff id f.id, eq_iff f.id id);
    marked = λ id c.
        ground (arith, v.marked id, contains_last id st.sorted f, eq_iff id f.id, eq_iff f.id id);
    ordered =
        Ordered-append [] st.sorted f v.ordered
          (All-map _ _ f.prerequisites (λ p e. v.placed p.feature_id e) ready);
    unique =
        subst Unique (sym (map-append_one (λ (g : Feature). g.id) st.sorted f))
          (Unique-append (feature_ids st.sorted) f.id v.unique (absent (v.marked f.id)));
    given = All-append _ st.sorted f v.given m;
  }
    where
      absent :
          (contains f.id (feature_ids st.sorted) ≡ true → st.marks f.id ≡ permanently)
          → contains f.id (feature_ids st.sorted) ≡ false
      absent k = elim (Bool-cases (contains f.id (feature_ids st.sorted))) [
        | inl c ↦ let both : temporary ≡ permanently = sym t ∙ k c in cc
        | inr e ↦ e
      ]
