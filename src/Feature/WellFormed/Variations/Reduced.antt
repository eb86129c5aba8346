-- ===== src/Feature/WellFormed/Variations/Reduced.antt =====
-- When a variation of pkg/feature/domain/feature.go is in use, and a feature without it.
use bucketeer.Prelude.{
  ℕ, ℤ, String, Bool, false, ◌||◌, List, [], ◌∷◌, Option, none, some, if◌then◌else◌, ◌==◌, index_by,
  erase_at,
}
use bucketeer.Feature.Model.{
  Feature, Strategy, StrategyType, FixedStrategy, RolloutStrategy, RolloutVariation, Rule,
}
use bucketeer.Feature.Variations.{has_weight, is_rollout}

-- Whether a strategy may serve the variation: a rollout that gives it a positive weight, or a fixed
-- strategy that names it.
abbrev pub type_serves :
    String → StrategyType → Option FixedStrategy → Option RolloutStrategy → Bool
type_serves id StrategyType.fixed (some s) r = s.variation == id
type_serves id StrategyType.fixed none r = false
type_serves id StrategyType.rollout f (some s) = has_weight id s.variations
type_serves id StrategyType.rollout f none = false
type_serves id (StrategyType.unknown n) f r = false

abbrev pub may_serve : String → Option Strategy → Bool
may_serve id none = false
may_serve id (some s) = type_serves id s.type s.fixed_strategy s.rollout_strategy

abbrev pub some_rule_serves : String → List Rule → Bool
some_rule_serves id [] = false
some_rule_serves id (r ∷ rs) = may_serve id r.strategy || some_rule_serves id rs

-- The variation is in use by the default strategy, by a rule, or as the off variation.
abbrev pub in_use : String → Feature → Bool
in_use id f =
    may_serve id f.default_strategy || some_rule_serves id f.rules || f.off_variation == id

abbrev pub entry_variation : RolloutVariation → String
entry_variation v = v.variation

-- The entries of a rollout without the first for the variation, if there is one.
abbrev pub cut_at : List RolloutVariation → Option ℕ → List RolloutVariation
cut_at vs none = vs
cut_at vs (some i) = erase_at vs i

abbrev pub cut_part : String → StrategyType → Option RolloutStrategy → Option RolloutStrategy
cut_part id StrategyType.rollout (some s) =
    some (record { variations = cut_at s.variations (index_by entry_variation id s.variations) })
cut_part id StrategyType.rollout none = none
cut_part id StrategyType.fixed r = r
cut_part id (StrategyType.unknown n) r = r

abbrev pub cut : String → Strategy → Strategy
cut id s = record s { rollout_strategy = cut_part id s.type s.rollout_strategy }

abbrev pub cut_if : String → Option Strategy → Option Strategy
cut_if id none = none
cut_if id (some s) = some (cut id s)

abbrev pub has_rollout : Option Strategy → Bool
has_rollout none = false
has_rollout (some s) = is_rollout s.type

-- Only the first rule with a rollout is cut.
abbrev pub cut_rules : String → List Rule → List Rule
cut_rules id [] = []
cut_rules id (r ∷ rs) =
    if has_rollout r.strategy
    then record r { strategy = cut_if id r.strategy } ∷ rs
    else r ∷ cut_rules id rs

-- The feature without the variation and the target at one index.
abbrev pub reduced_feature : String → ℕ → ℤ → Feature → Feature
reduced_feature id i now f = record f {
  variations = erase_at f.variations i;
  targets = erase_at f.targets i;
  rules = cut_rules id f.rules;
  default_strategy = cut_if id f.default_strategy;
  updated_at = now;
}
