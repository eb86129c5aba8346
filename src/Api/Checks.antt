-- ===== src/Api/Checks.antt =====
-- The single checks of pkg/feature/api/validation.go, and what passing them shows.
use bucketeer.Prelude.{
  ℤ, String, Bool, true, false, List, [], ◌∷◌, Option, none, some, ◌≡◌, refl, Safe, Safe-bind,
  Safe-map, guard_trivial, if_ind, index_by, err, panic, guard, is_some, not, ◌==◌, ok, ◌>>◌,
  Result, ltb_ℤ, pos, eqb, eqb_ℤ, length,
}
use bucketeer.Feature.Model.{
  Error, Variation, Strategy, StrategyType, FixedStrategy, RolloutStrategy, RolloutVariation, Rule,
  Prerequisite, Feature,
}
use bucketeer.Feature.Lookup.{variation_id}
use bucketeer.Feature.WellFormed.Rules.{Complete, CompleteType}
use bucketeer.Api.Model.{
  ApiError, missing_rule_id, incorrect_uuid_format, missing_variation_id,
  incorrect_variation_weight, different_variations_size, exceeded_max_variation_weight,
  invalid_variation_id,
}
use bucketeer.Api.Identifiers.{is_uuid}
use bucketeer.Api.Validation.{
  Checked, add_int32, validate_fixed, validate_weights, validate_rollout, validate_strategy,
  validate_rule, find_feature, validate_variation_id, sort_status,
}

pub validate_fixed-Safe :
    (s : Option FixedStrategy) → Safe (λ _. is_some s ≡ true) (validate_fixed s)
unfolding validate_fixed
validate_fixed-Safe none = tt
validate_fixed-Safe (some s) =
    Safe-map (λ _. Unit {0}) _ (guard (not (s.variation == "")) missing_variation_id) (λ _ _. refl)
      (guard_trivial _ missing_variation_id)

validate_weights-Safe :
    (vs : List RolloutVariation) (sum : ℤ) → Safe (λ _. Unit {0}) (validate_weights vs sum)
unfolding validate_weights
validate_weights-Safe [] sum = tt
validate_weights-Safe (v ∷ vs) sum =
    Safe-bind _ (λ _. Unit {0}) (guard (not (v.variation == "")) missing_variation_id) _
      (guard_trivial _ missing_variation_id)
      λ _ _.
        Safe-bind _ (λ _. Unit {0})
          (guard (not (ltb_ℤ v.weight (pos 0))) incorrect_variation_weight) _
          (guard_trivial _ incorrect_variation_weight)
          λ _ _. validate_weights-Safe vs (add_int32 sum v.weight)

pub validate_rollout-Safe :
    (vs : List Variation) (s : Option RolloutStrategy)
    → Safe (λ _. is_some s ≡ true) (validate_rollout vs s)
unfolding validate_rollout
validate_rollout-Safe vs none = tt
validate_rollout-Safe vs (some s) =
    Safe-bind _ _ (guard (eqb (length vs) (length s.variations)) different_variations_size) _
      (guard_trivial _ different_variations_size)
      λ _ _.
        Safe-bind _ _ (validate_weights s.variations (pos 0)) _
          (validate_weights-Safe s.variations (pos 0))
          λ sum _.
            Safe-map (λ _. Unit {0}) _
              (guard (eqb_ℤ sum (pos 100000)) exceeded_max_variation_weight) (λ _ _. refl)
              (guard_trivial _ exceeded_max_variation_weight)

pub validate_strategy-Safe :
    (vs : List Variation) (s : Option Strategy) → Safe (λ _. Complete s) (validate_strategy vs s)
unfolding validate_strategy
validate_strategy-Safe vs none = tt
validate_strategy-Safe vs (some s) = by_type s.type s.fixed_strategy s.rollout_strategy
  where
    by_type :
        (t : StrategyType) (f : Option FixedStrategy) (r : Option RolloutStrategy)
        → Safe
            (λ _. CompleteType t (record { type = t; fixed_strategy = f; rollout_strategy = r }))
            (validate_strategy vs
              (some (record { type = t; fixed_strategy = f; rollout_strategy = r })))
    by_type StrategyType.fixed f r = validate_fixed-Safe f
    by_type StrategyType.rollout f r = validate_rollout-Safe vs r
    by_type (StrategyType.unknown n) f r = tt

pub after_guard :
    (P : Type 0) (b : Bool) (e : ApiError) (m : Checked)
    → Safe (λ _. P) m
    → Safe (λ _. P) (guard b e >> m)
after_guard P true e m h = h
after_guard P false e m h = tt

pub validate_rule-Safe :
    (vs : List Variation) (r : Rule) → Safe (λ _. Complete r.strategy) (validate_rule vs (some r))
unfolding validate_rule
validate_rule-Safe vs r =
    after_guard _ (not (r.id == "")) missing_rule_id _
      (after_guard _ (is_uuid r.id) incorrect_uuid_format _ (validate_strategy-Safe vs r.strategy))

find_feature-Safe : (fs : List Feature) (id : String) → Safe (λ _. Unit {0}) (find_feature fs id)
unfolding find_feature
find_feature-Safe [] id = tt
find_feature-Safe (f ∷ fs) id =
    if_ind (Safe (λ _. Unit {0})) (f.id == id) (λ _. tt) (λ _. find_feature-Safe fs id)

pub validate_variation_id-Safe :
    (fs : List Feature) (q : Prerequisite) → Safe (λ _. Unit {0}) (validate_variation_id fs q)
unfolding validate_variation_id
validate_variation_id-Safe fs q =
    Safe-bind _ _ (find_feature fs q.feature_id) _ (find_feature-Safe fs q.feature_id) λ f _.
      guard_trivial (is_some (index_by variation_id q.variation_id f.variations))
        invalid_variation_id

pub sort_status-Safe :
    (P : List Feature → Type 0) (r : Result Error (List Feature))
    → Safe P r
    → Safe (λ _. Unit {0}) (sort_status r)
sort_status-Safe P (ok l) h = tt
sort_status-Safe P panic h = h
sort_status-Safe P (err e) h = tt
