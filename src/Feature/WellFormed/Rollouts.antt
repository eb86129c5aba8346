-- ===== src/Feature/WellFormed/Rollouts.antt =====
-- How far the loop of removeVariationFromRules (pkg/feature/domain/feature.go) gets.
use bucketeer.Prelude.{String, false, List, [], ◌∷◌, ◌++◌, some, ◌≡◌, refl, ok, All}
use bucketeer.Feature.Model.{Strategy, StrategyType, RolloutStrategy, Rule}
use bucketeer.Feature.Variations.{
  is_rollout, remove_variation_from_rollout_strategy, remove_variation_from_rules,
}

-- A rule with a strategy that is not a rollout.
abbrev pub IsFixedRule : Rule → Type 0
IsFixedRule r = (s : Strategy) × (r.strategy ≡ some s) × (is_rollout s.type ≡ false)

-- Where the first rule with a rollout has its rollout part, and the rules before it have other
-- strategies, only that rule loses its entry for the variation: every rule behind it is left as it
-- was, its entry for the variation included.
pub first_rollout_only :
    (id : String) (before rest : List Rule) (r : Rule) (s : Strategy) (x : RolloutStrategy)
    → All IsFixedRule before
    → r.strategy ≡ some s
    → s.type ≡ StrategyType.rollout
    → s.rollout_strategy ≡ some x
    → remove_variation_from_rules id (before ++ r ∷ rest)
      ≡ ok (
          before
          ++ record r {
            strategy = some (record s {
              rollout_strategy = some (remove_variation_from_rollout_strategy id x);
            });
          }
            ∷ rest)
unfolding remove_variation_from_rules
first_rollout_only id [] rest r s x h has is_type part = rw (has, is_type, part) refl
first_rollout_only id (b ∷ before) rest r s x h has is_type part =
    rw (h.0.1, h.0.2, first_rollout_only id before rest r s x h.1 has is_type part) refl
