-- ===== src/Feature/WellFormed/Variations/Extended.antt =====
-- What AddVariation of pkg/feature/domain/feature.go makes of a consistent feature.
use bucketeer.Prelude.{
  ℤ, pos, String, List, [], ◌∷◌, ◌++◌, map, Option, none, some, ◌≡◌, refl, All, Result, ok, ◌>>=◌,
  deref,
}
use bucketeer.Feature.Model.{
  Error, Feature, Variation, Strategy, StrategyType, FixedStrategy, RolloutStrategy,
  RolloutVariation, Rule,
}
use bucketeer.Feature.Lookup.{variation_ids}
use bucketeer.Feature.Variations.{
  Parsers, validate_variation, add_target, add_variation_to_rollout_strategy, on_rollout,
  add_variation_to_rules, add_variation_to_default_strategy, add_variation,
}
use bucketeer.Feature.WellFormed.{WellFormed, Serves, ServesType, RuleServes}

-- The entry of a new variation has no weight.
abbrev pub no_share : String → RolloutVariation
no_share id = record { variation = id; weight = pos 0 }

-- The rollout part of a strategy with one more entry, where the strategy is a rollout.
abbrev pub extended_part : String → StrategyType → Option RolloutStrategy → Option RolloutStrategy
extended_part id StrategyType.rollout (some r) =
    some (record { variations = r.variations ++ no_share id ∷ [] })
extended_part id StrategyType.rollout none = none
extended_part id StrategyType.fixed r = r
extended_part id (StrategyType.unknown n) r = r

abbrev pub extended : String → Strategy → Strategy
extended id s = record s { rollout_strategy = extended_part id s.type s.rollout_strategy }

abbrev pub extended_if : String → Option Strategy → Option Strategy
extended_if id none = none
extended_if id (some s) = some (extended id s)

abbrev pub extended_rule : String → Rule → Rule
extended_rule id r = record r { strategy = extended_if id r.strategy }

-- The feature with one more variation `v`: a target of no users, and an entry of no weight in every
-- rollout.
abbrev pub extended_feature : Variation → ℤ → Feature → Feature
extended_feature v now f = record f {
  variations = f.variations ++ v ∷ [];
  targets = f.targets ++ record { variation = v.id; users = [] } ∷ [];
  rules = map (extended_rule v.id) f.rules;
  default_strategy = extended_if v.id f.default_strategy;
  updated_at = now;
}

module _ (ids : List String) (id : String) where
  on_rollout-extended :
      (s : Strategy)
      → Serves ids (some s)
      → on_rollout (add_variation_to_rollout_strategy id) s.type s ≡ ok (extended id s)
  unfolding add_variation_to_rollout_strategy
  on_rollout-extended s h = by_type s.type s.fixed_strategy s.rollout_strategy h
    where
      by_type :
          (t : StrategyType) (f : Option FixedStrategy) (r : Option RolloutStrategy)
          → ServesType ids t (record { type = t; fixed_strategy = f; rollout_strategy = r })
          → on_rollout
              (add_variation_to_rollout_strategy id)
              t
              (record { type = t; fixed_strategy = f; rollout_strategy = r })
            ≡ ok (extended id (record { type = t; fixed_strategy = f; rollout_strategy = r }))
      by_type StrategyType.fixed f r h = refl
      by_type StrategyType.rollout f (some x) h = refl
      by_type StrategyType.rollout f none h = absurd h
      by_type (StrategyType.unknown n) f r h = refl

  one_rule :
      (o : Option Strategy) (r : Rule) (rest : Result Error (List Rule)) (rs : List Rule)
      → Serves ids o
      → rest ≡ ok rs
      → (do
        s ← deref o
        s' ← on_rollout (add_variation_to_rollout_strategy id) s.type s
        rs' ← rest
        ok (record r { strategy = some s' } ∷ rs'))
        ≡ ok (record r { strategy = extended_if id o } ∷ rs)
  one_rule none r rest rs h e = absurd h
  one_rule (some s) r rest rs h e = rw (on_rollout-extended s h, e) refl

  add_variation_to_rules-extended :
      (rs : List Rule)
      → All (RuleServes ids) rs
      → add_variation_to_rules id rs ≡ ok (map (extended_rule id) rs)
  unfolding add_variation_to_rules
  add_variation_to_rules-extended [] h = refl
  add_variation_to_rules-extended (r ∷ rs) h =
      one_rule r.strategy r (add_variation_to_rules id rs) (map (extended_rule id) rs) h.0
        (add_variation_to_rules-extended rs h.1)

  add_variation_to_default_strategy-extended :
      (o : Option Strategy)
      → Serves ids o
      → add_variation_to_default_strategy id o ≡ ok (extended_if id o)
  unfolding add_variation_to_default_strategy
  add_variation_to_default_strategy-extended none h = absurd h
  add_variation_to_default_strategy-extended (some s) h = rw (on_rollout-extended s h) refl

-- Where the value fits the type, a consistent feature gets the variation.
pub add_variation-extended :
    (p : Parsers) (id value name description : String) (now : ℤ) (f : Feature)
    → WellFormed f
    → validate_variation p f.variation_type value ≡ ok tt
    → add_variation p id value name description now f
      ≡ ok (
          extended_feature
            (record { id = id; value = value; name = name; description = description })
            now
            f)
unfolding add_variation add_target
add_variation-extended p id value name description now f w valid =
    rw
      (
        valid,
        add_variation_to_rules-extended (variation_ids f.variations) id f.rules w.rules_serve,
        add_variation_to_default_strategy-extended (variation_ids f.variations) id
            f.default_strategy w.default_serves,
      )
      refl
