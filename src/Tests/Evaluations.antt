-- ===== src/Tests/Evaluations.antt =====
-- Evaluation of pkg/feature/domain on sample features.
use mathlib.Core.List.{Memᴰ}
use bucketeer.Prelude.{
  map, contains, zero, suc, ℕ, ℤ, pos, negsuc, String, true, false, [], ◌∷◌, List, ◌≡◌, refl, ◌==◌,
  ltb_ℤ, ◌+ℤ◌, arith, Safe, ok, if◌then◌else◌, subst, sym,
}
use bucketeer.Feature.Model.{Feature}
use bucketeer.Evaluation.Order.{topological_sort, feature_at}
use bucketeer.Evaluation.Order.Total.{IsSortOf, topological_sort-IsSortOf}
use bucketeer.Evaluation.Order.Acyclic.{Ranked, Closed, topological_sort-total}
use bucketeer.Feature.Model.{Variation}
use bucketeer.Feature.Lookup.{variation_ids}
use bucketeer.Feature.Variations.{has_weight, validate_variation, add_variation}
use bucketeer.Feature.WellFormed.Variations.{extended_feature}
use bucketeer.Evaluation.Addition.{add_variation-assign_user}
use bucketeer.Feature.WellFormed.{Known, WellFormed}
use bucketeer.Evaluation.Model.{Reason, User, SegmentUser}
use bucketeer.Evaluation.Strategy.{rollout, bucket, hash, pick, share}
use bucketeer.Evaluation.Rollout.{FloatLaws, rollout_weight}
use bucketeer.Evaluation.Assign.{assign_user}
use bucketeer.Evaluation.Assignment.{assign_user_total}
use bucketeer.Evaluation.Model.{UserEvaluations}
use bucketeer.Evaluation.Evaluate.{evaluate_features}
use bucketeer.Evaluation.EveryFeature.{tagged_ids, evaluated_id, evaluate_features-total}
use bucketeer.Tests.Samples.{toggle, needs_toggle, external, sign, all_on, beta_user, parsers}
use bucketeer.Tests.Commands.{toggle-WellFormed}

topological_sort-IsSortOf_example :
    Safe (IsSortOf (needs_toggle ∷ toggle ∷ [])) (topological_sort (needs_toggle ∷ toggle ∷ []))
topological_sort-IsSortOf_example = topological_sort-IsSortOf (needs_toggle ∷ toggle ∷ [])

rank : String → ℕ
rank s = if s == "g" then 1 else 0

abbrev both : List Feature
both = needs_toggle ∷ toggle ∷ []

each_of_two : (P : Feature → Type 0) → P needs_toggle → P toggle → (f : Feature) → Memᴰ f both → P f
each_of_two P a b f (Memᴰ.head e) = subst P (sym e) a
each_of_two P a b f (Memᴰ.tail (Memᴰ.head e)) = subst P (sym e) b
each_of_two P a b f (Memᴰ.tail (Memᴰ.tail m)) = elim m [ ]

both-Ranked : Ranked rank both
unfolding rank ◌==◌
both-Ranked = each_of_two _ (omega arith, tt) tt

both-Closed : Closed both
unfolding feature_at ◌==◌
both-Closed = each_of_two _ (refl, tt) tt

topological_sort-total_example : (sorted : List Feature) × (topological_sort both ≡ ok sorted)
topological_sort-total_example = topological_sort-total rank both both-Ranked both-Closed

sign_not_negative : (n : ℕ) → ltb_ℤ (sign (pos n)) (pos 0) ≡ false
sign_not_negative zero = refl
sign_not_negative (suc n) = refl

no_more :
    (b sum weight : ℤ)
    → ltb_ℤ (pos 0) weight ≡ false
    → ltb_ℤ b sum ≡ false
    → ltb_ℤ b (sum +ℤ sign weight) ≡ false
unfolding ◌+ℤ◌
no_more b (pos s) (pos zero) e h = ground (arith, h)
no_more b (negsuc s) (pos zero) e h = ground (arith, h)
no_more b sum (pos (suc n)) e h = ground (arith, e)
no_more b (pos s) (negsuc n) e h = ground (arith, h)
no_more b (negsuc s) (negsuc n) e h = ground (arith, h)

external-FloatLaws : FloatLaws external
external-FloatLaws = record { bucket_not_negative = sign_not_negative; no_gain = no_more }

serves_on : rollout external all_on "w" "f" "" ≡ ok "A"
unfolding rollout bucket hash pick share ◌+ℤ◌
serves_on = refl

rollout_weight_example : has_weight "A" all_on.variations ≡ true
rollout_weight_example = rollout_weight external external-FloatLaws all_on "w" "f" "" "A" serves_on

assign_user_total_example :
    (a : Reason × Variation) × (assign_user external toggle beta_user [] [] ≡ ok a)
    × Known (variation_ids toggle.variations) a.1.id
assign_user_total_example =
    assign_user_total external external-FloatLaws toggle beta_user [] [] toggle-WellFormed tt
      ((("A", serves_on), tt), tt)

needs_toggle-WellFormed : WellFormed needs_toggle
unfolding ◌==◌ contains
needs_toggle-WellFormed = record {
  aligned = refl;
  off_known = refl;
  default_serves = refl;
  rules_serve = tt;
  rules_unique = tt;
  users_unique = ((refl, tt), (tt, tt));
}

evaluate_features-total_example :
    (sorted : List Feature) × IsSortOf both sorted
    × ((answer : UserEvaluations) × (evaluate_features external both beta_user [] "web" (pos 9)
          ≡ ok answer)
        × (map evaluated_id answer.evaluations ≡ tagged_ids "web" sorted))
evaluate_features-total_example =
    evaluate_features-total external external-FloatLaws beta_user [] "web" rank both (pos 9)
      both-Ranked both-Closed
      (each_of_two _ (needs_toggle-WellFormed, (tt, tt))
        (toggle-WellFormed, ((("A", serves_on), tt), tt)))

add_variation-assign_user_example :
    (g : Feature) × (add_variation parsers "C" "true" "also on" "" (pos 9) toggle ≡ ok g)
    × (g
        ≡ extended_feature
            (record { id = "C"; value = "true"; name = "also on"; description = "" })
            (pos 9)
            toggle)
    × ((user : User) (us : List SegmentUser) (flags : List (String × String))
        → assign_user external g user us flags ≡ assign_user external toggle user us flags)
unfolding validate_variation ◌==◌
add_variation-assign_user_example =
    add_variation-assign_user external external-FloatLaws parsers "C" "true" "also on" "" (pos 9)
      toggle toggle-WellFormed refl
