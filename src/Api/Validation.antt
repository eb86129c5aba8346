-- ===== src/Api/Validation.antt =====
-- pkg/feature/api/validation.go: the checks of the requests that create a feature, change its
-- targeting or its variations, and archive it. `validate_add_prerequisite` also changes the target
-- feature, which stands in the list of features: it answers the list that results.
use bucketeer.Prelude.{
  ℤ, pos, negsuc, ℕ, String, Bool, not, List, [], ◌∷◌, ◌++◌, Option, is_some, if◌then◌else◌, ◌==◌,
  ◌+ℤ◌, ◌-ℤ◌, ltb_ℤ, leb_ℤ, eqb_ℤ, ltb, eqb, length, set, index_by, read, deref, guard, or_err,
  Result, ok, err, panic, ◌>>=◌, ◌>>◌,
}
use bucketeer.Feature.Model.{
  Error, Variation, Strategy, StrategyType, FixedStrategy, RolloutStrategy, RolloutVariation, Rule,
  Prerequisite, Feature,
}
use bucketeer.Feature.Lookup.{variation_id, prerequisite_feature}
use bucketeer.Evaluation.Order.{topological_sort}
use bucketeer.Command.Model.{Command}
use bucketeer.Api.Model.{
  ApiError, missing_command, missing_id, invalid_id, missing_name, missing_feature_variations,
  missing_feature_tags, missing_default_on_variation, invalid_default_on_variation,
  missing_default_off_variation, invalid_default_off_variation, missing_rule_id,
  incorrect_uuid_format, missing_rule_strategy, unknown_strategy, missing_fixed_strategy,
  missing_rollout_strategy, missing_variation_id, different_variations_size,
  incorrect_variation_weight, exceeded_max_variation_weight, invalid_prerequisite,
  invalid_variation_id, cycle_exists, internal, invalid_changing_variation, invalid_archive,
  CreateFeature,
}
use bucketeer.Api.Identifiers.{is_feature_id, is_uuid}

abbrev pub Checked : Type 0
Checked = Result ApiError (Unit {0})

-- `sum += v.Weight` on int32 values.
unfoldable pub add_int32 : ℤ → ℤ → ℤ
add_int32 a b =
    let s = a +ℤ b in
    if ltb_ℤ (pos 2147483647) s
    then s -ℤ pos 4294967296
    else if ltb_ℤ s (negsuc 2147483647)
    then s +ℤ pos 4294967296
    else s

unfoldable pub validate_create_feature : Option CreateFeature → Checked
validate_create_feature c = do
  cmd ← or_err c missing_command
  guard (not (cmd.id == "")) missing_id
  guard (is_feature_id cmd.id) invalid_id
  guard (not (cmd.name == "")) missing_name
  guard (not (ltb (length cmd.variations) 2)) missing_feature_variations
  guard (not (eqb (length cmd.tags) 0)) missing_feature_tags
  on ← or_err cmd.on_index missing_default_on_variation
  guard (not (leb_ℤ (pos (length cmd.variations)) on)) invalid_default_on_variation
  off ← or_err cmd.off_index missing_default_off_variation
  guard (not (leb_ℤ (pos (length cmd.variations)) off)) invalid_default_off_variation

unfoldable pub validate_fixed : Option FixedStrategy → Checked
validate_fixed s = do
  strategy ← or_err s missing_fixed_strategy
  guard (not (strategy.variation == "")) missing_variation_id

-- The loop over the entries: `sum` is the weight of the entries passed.
unfoldable pub validate_weights : List RolloutVariation → ℤ → Result ApiError ℤ
validate_weights [] sum = ok sum
validate_weights (v ∷ vs) sum = do
  guard (not (v.variation == "")) missing_variation_id
  guard (not (ltb_ℤ v.weight (pos 0))) incorrect_variation_weight
  validate_weights vs (add_int32 sum v.weight)

unfoldable pub validate_rollout : List Variation → Option RolloutStrategy → Checked
validate_rollout variations s = do
  strategy ← or_err s missing_rollout_strategy
  guard (eqb (length variations) (length strategy.variations)) different_variations_size
  sum ← validate_weights strategy.variations (pos 0)
  guard (eqb_ℤ sum (pos 100000)) exceeded_max_variation_weight

check_by_type : List Variation → StrategyType → Strategy → Checked
check_by_type variations StrategyType.fixed s = validate_fixed s.fixed_strategy
check_by_type variations StrategyType.rollout s = validate_rollout variations s.rollout_strategy
check_by_type variations (StrategyType.unknown n) s = err unknown_strategy

unfoldable pub validate_strategy : List Variation → Option Strategy → Checked
unfolding check_by_type
validate_strategy variations s = do
  strategy ← or_err s missing_rule_strategy
  check_by_type variations strategy.type strategy

unfoldable pub validate_rule : List Variation → Option Rule → Checked
validate_rule variations r = do
  rule ← deref r
  guard (not (rule.id == "")) missing_rule_id
  guard (is_uuid rule.id) incorrect_uuid_format
  validate_strategy variations rule.strategy

unfoldable pub find_feature : List Feature → String → Result ApiError Feature
find_feature [] id = err internal
find_feature (f ∷ fs) id = if f.id == id then ok f else find_feature fs id

unfoldable pub validate_variation_id : List Feature → Prerequisite → Checked
validate_variation_id fs p = do
  f ← find_feature fs p.feature_id
  guard (is_some (index_by variation_id p.variation_id f.variations)) invalid_variation_id

-- The error of the sort, as a status.
abbrev status_of : Error → ApiError
status_of Error.cycle_exists = cycle_exists
status_of _ = internal

abbrev pub sort_status : Result Error (List Feature) → Checked
sort_status (ok sorted) = ok tt
sort_status (err e) = err (status_of e)
sort_status panic = panic

-- The target is the feature at the position `target`.
unfoldable pub validate_add_prerequisite :
    List Feature → ℕ → Option Prerequisite → Result ApiError (List Feature)
validate_add_prerequisite fs target q = do
  f ← read fs target
  p ← deref q
  guard (not (f.id == p.feature_id)) invalid_prerequisite
  guard (not (is_some (index_by prerequisite_feature p.feature_id f.prerequisites)))
      invalid_prerequisite
  validate_variation_id fs p
  let fs' : List Feature = set fs target (record f { prerequisites = f.prerequisites ++ p ∷ [] })
  sort_status (topological_sort fs')
  ok fs'

-- A check that leaves the features as they are.
abbrev keeping : List Feature → Checked → Result ApiError (List Feature)
keeping fs c = c >>= λ _. ok fs

unfoldable pub validate_targeting : List Feature → ℕ → Command → Result ApiError (List Feature)
validate_targeting fs target (Command.add_rule rule) = do
  f ← read fs target
  keeping fs (validate_rule f.variations rule)
validate_targeting fs target (Command.change_rule_strategy rule_id s) = do
  f ← read fs target
  keeping fs (guard (not (rule_id == "")) missing_rule_id >> validate_strategy f.variations s)
validate_targeting fs target (Command.change_default_strategy s) = do
  f ← read fs target
  keeping fs (guard (is_some s) missing_rule_strategy >> validate_strategy f.variations s)
validate_targeting fs target (Command.change_fixed_strategy rule_id s) =
    keeping fs (guard (not (rule_id == "")) missing_rule_id >> validate_fixed s)
validate_targeting fs target (Command.change_rollout_strategy rule_id s) = do
  f ← read fs target
  keeping fs (guard (not (rule_id == "")) missing_rule_id >> validate_rollout f.variations s)
validate_targeting fs target (Command.add_prerequisite q) = validate_add_prerequisite fs target q
validate_targeting fs target (Command.change_prerequisite_variation q) =
    keeping fs (deref q >>= λ p. validate_variation_id fs p)
validate_targeting fs target _ = ok fs

-- No prerequisite of the features asks for the variation.
unfoldable pub validate_variation_command : List Feature → String → Checked
validate_variation_command [] id = ok tt
validate_variation_command (f ∷ fs) id = do
  guard (not (is_some (index_by (λ (p : Prerequisite). p.variation_id) id f.prerequisites)))
      invalid_changing_variation
  validate_variation_command fs id

unfoldable pub validate_variations : List Feature → Command → Checked
validate_variations fs (Command.remove_variation id) = validate_variation_command fs id
validate_variations fs (Command.change_variation_value id text) = validate_variation_command fs id
validate_variations fs _ = ok tt

-- The loop of validateArchiveFeatureRequest.
unfoldable pub not_required : List Feature → String → Checked
not_required [] id = ok tt
not_required (f ∷ fs) id = do
  guard (not (is_some (index_by prerequisite_feature id f.prerequisites))) invalid_archive
  not_required fs id

unfoldable pub validate_archive : Bool → String → List Feature → Checked
validate_archive has_command id fs = do
  guard (not (id == "")) missing_id
  guard has_command missing_command
  not_required fs id
