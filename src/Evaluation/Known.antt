-- ===== src/Evaluation/Known.antt =====
-- `findVariation` and the entries of a rollout (pkg/feature/domain), for known variations.
use bucketeer.Prelude.{
  pos, String, true, ◌&&◌, List, [], ◌∷◌, ◌≡◌, sym, ltb_ℤ, ◌==◌, eq_iff, arith, contains, All,
  Returns, Returns-map, if_ind, Bool-cases, inl, inr, subst,
}
use bucketeer.Feature.Model.{Variation, RolloutVariation}
use bucketeer.Feature.Lookup.{find_variation, variation_ids}
use bucketeer.Feature.Variations.{has_weight}
use bucketeer.Feature.WellFormed.{Known, ServesEntry}

find_variation-Returns :
    (v : String) (vs : List Variation)
    → Known (variation_ids vs) v
    → Returns (λ x. x.id ≡ v) (find_variation v vs)
unfolding find_variation contains
find_variation-Returns v [] h = cc
find_variation-Returns v (x ∷ vs) h =
    if_ind (Returns (λ y. y.id ≡ v)) (x.id == v) (λ e. (eq_iff x.id v).0 e)
      (λ e. find_variation-Returns v vs (rw e at h))

-- The variation of the list with the id sought.
pub own_variation :
    (v : String) (vs : List Variation)
    → Known (variation_ids vs) v
    → Returns (λ x. Known (variation_ids vs) x.id) (find_variation v vs)
own_variation v vs h =
    Returns-map _ _ (find_variation v vs) (λ x e. subst (Known (variation_ids vs)) (sym e) h)
      (find_variation-Returns v vs h)

pub has_weight-Known :
    (ids : List String) (id : String) (rs : List RolloutVariation)
    → has_weight id rs ≡ true
    → All (ServesEntry ids) rs
    → Known ids id
unfolding has_weight
has_weight-Known ids id [] e h = cc
has_weight-Known ids id (r ∷ rs) e h =
    elim (Bool-cases (r.variation == id && ltb_ℤ (pos 0) r.weight)) [
      | inl here ↦ subst (Known ids) ((eq_iff r.variation id).0 (ground arith)) (h.0 (ground arith))
      | inr there ↦ has_weight-Known ids id rs (rw there at e) h.1
    ]
