-- ===== src/Feature/Rules.antt =====
-- The operations of pkg/feature/domain/feature.go on rules and strategies, with their validation.
-- A nil strategy, or one whose part for its type is nil, is dereferenced and panics.
use bucketeer.Prelude.{
  ℤ, String, List, [], ◌∷◌, ◌++◌, Option, some, is_some, not, index_by, erase_at, set, read, deref,
  guard, Result, ok, err, fail_as, ◌>>=◌, ◌>>◌,
}
use bucketeer.Feature.Model.{
  Error, rule_already_exists, variation_not_found, unsupported_strategy, Variation, Strategy,
  StrategyType, fixed, rollout, unknown, FixedStrategy, RolloutStrategy, RolloutVariation, Rule,
  Feature,
}
use bucketeer.Feature.Lookup.{Outcome, rule_id, find_variation, find_rule}

-- `if _, err := findVariation(…); err != nil { return errVariationNotFound }`.
unfoldable pub require_variation : String → List Variation → Result Error (Unit {0})
require_variation v vs = fail_as (find_variation v vs) variation_not_found

-- The loop over the variations of a rollout.
unfoldable pub require_variations : List RolloutVariation → List Variation → Result Error (Unit {0})
require_variations [] vs = ok tt
require_variations (r ∷ rs) vs = do require_variation r.variation vs; require_variations rs vs

unfoldable pub validate_fixed_strategy :
    Option FixedStrategy → List Variation → Result Error (Unit {0})
validate_fixed_strategy s vs = do strategy ← deref s; require_variation strategy.variation vs

unfoldable pub validate_rollout_strategy :
    Option RolloutStrategy → List Variation → Result Error (Unit {0})
validate_rollout_strategy s vs = do strategy ← deref s; require_variations strategy.variations vs

-- The `switch` on the strategy's type.
validate_by_type : StrategyType → Strategy → List Variation → Result Error (Unit {0})
validate_by_type fixed s vs = validate_fixed_strategy s.fixed_strategy vs
validate_by_type rollout s vs = validate_rollout_strategy s.rollout_strategy vs
validate_by_type (unknown n) s vs = err unsupported_strategy

unfoldable pub validate_strategy : Option Strategy → List Variation → Result Error (Unit {0})
unfolding validate_by_type
validate_strategy s vs = do strategy ← deref s; validate_by_type strategy.type strategy vs

unfoldable pub add_rule : Rule → ℤ → Feature → Outcome
add_rule rule now f = do
  guard (not (is_some (index_by rule_id rule.id f.rules))) rule_already_exists
  validate_strategy rule.strategy f.variations
  ok (record f { rules = f.rules ++ rule ∷ []; updated_at = now })

unfoldable pub delete_rule : String → ℤ → Feature → Outcome
delete_rule rule now f = do
  idx ← find_rule rule f
  ok (record f { rules = erase_at f.rules idx; updated_at = now })

unfoldable pub change_rule_strategy : String → Option Strategy → ℤ → Feature → Outcome
change_rule_strategy id strategy now f = do
  idx ← find_rule id f
  validate_strategy strategy f.variations
  rule ← read f.rules idx
  ok (record f { rules = set f.rules idx (record rule { strategy = strategy }); updated_at = now })

-- `strategy` is the new part; the rule's strategy keeps its type and its other part.
unfoldable pub change_fixed_strategy : String → Option FixedStrategy → ℤ → Feature → Outcome
change_fixed_strategy id strategy now f = do
  idx ← find_rule id f
  new ← deref strategy
  _ ← find_variation new.variation f.variations
  rule ← read f.rules idx
  old ← deref rule.strategy
  ok (record f {
    rules =
        set f.rules idx
          (record rule { strategy = some (record old { fixed_strategy = strategy }) });
    updated_at = now;
  })

unfoldable pub change_rollout_strategy : String → Option RolloutStrategy → ℤ → Feature → Outcome
change_rollout_strategy id strategy now f = do
  idx ← find_rule id f
  new ← deref strategy
  require_variations new.variations f.variations
  rule ← read f.rules idx
  old ← deref rule.strategy
  ok (record f {
    rules =
        set f.rules idx
          (record rule { strategy = some (record old { rollout_strategy = strategy }) });
    updated_at = now;
  })

-- The strategy is stored as it is given; its validation is the caller's.
unfoldable pub change_default_strategy : Option Strategy → ℤ → Feature → Outcome
change_default_strategy s now f = ok (record f { default_strategy = s; updated_at = now })
