-- ===== src/Experiment/Goals.antt =====
-- The goals of a new experiment: `removeDuplicated` of pkg/experiment/domain/experiment.go.
use bucketeer.Prelude.{
  arith, String, List, [], ◌∷◌, true, false, not, ◌&&◌, Bool-cases, inl, inr, ◌==◌, eq_iff, eq_refl,
  ◌≡◌, refl, contains,
}
use bucketeer.Feature.WellFormed.{Unique}
use bucketeer.Experiment.Operations.{remove_encountered, remove_duplicated}

contains-eq : (v k : String) (xs : List String) → (v == k) ≡ true → contains k xs ≡ contains v xs
contains-eq v k xs e = rw ((eq_iff v k).0 e)

remove_encountered-seen :
    (seen : List String) (v : String) (args : List String)
    → contains v seen ≡ true
    → remove_encountered seen (v ∷ args) ≡ remove_encountered seen args
unfolding remove_encountered
remove_encountered-seen seen v args h = rw (remove_encountered, h)

remove_encountered-new :
    (seen : List String) (v : String) (args : List String)
    → contains v seen ≡ false
    → remove_encountered seen (v ∷ args) ≡ v ∷ remove_encountered (v ∷ seen) args
unfolding remove_encountered
remove_encountered-new seen v args h = rw (remove_encountered, h)

-- What is kept is what occurs and was not encountered.
contains-remove_encountered :
    (seen args : List String) (k : String)
    → contains k (remove_encountered seen args) ≡ (contains k args && not (contains k seen))
unfolding contains
contains-remove_encountered seen [] k = unfold remove_encountered in refl
contains-remove_encountered seen (v ∷ args) k = elim (Bool-cases (contains v seen)) [
  | inl h ↦
      rw (remove_encountered-seen seen v args h, contains-remove_encountered seen args k)
        (ground (arith, contains-eq v k seen))
  | inr h ↦
      rw (remove_encountered-new seen v args h)
        (ground (arith, contains-eq v k seen, contains-remove_encountered (v ∷ seen) args k))
]

remove_encountered-Unique : (seen args : List String) → Unique (remove_encountered seen args)
remove_encountered-Unique seen [] = unfold remove_encountered in tt
remove_encountered-Unique seen (v ∷ args) = elim (Bool-cases (contains v seen)) [
  | inl h ↦ rw (remove_encountered-seen seen v args h) (remove_encountered-Unique seen args)
  | inr h ↦ rw (remove_encountered-new seen v args h) (
    unfold contains in ground (arith, contains-remove_encountered (v ∷ seen) args v, eq_refl v),
    remove_encountered-Unique (v ∷ seen) args,
  )
]

-- The goals are kept once each, and none is lost or added.
pub remove_duplicated_lem :
    (args : List String)
    → Unique (remove_duplicated args)
      × ((k : String) → contains k (remove_duplicated args) ≡ contains k args)
unfolding remove_duplicated
remove_duplicated_lem args = (
  remove_encountered-Unique [] args,
  λ k. unfold contains in ground (arith, contains-remove_encountered [] args k),
)
