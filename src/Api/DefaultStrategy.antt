-- ===== src/Api/DefaultStrategy.antt =====
-- A new default strategy: what the request's check and the operation leave unchecked.
use bucketeer.Prelude.{
  ℤ, ℕ, String, List, Option, none, some, false, ◌≡◌, refl, ok, err, ◌==◌, get_elem?, get_elem?,
}
use bucketeer.Feature.Model.{Strategy, StrategyType, Feature, variation_not_found}
use bucketeer.Feature.Lookup.{find_variation}
use bucketeer.Feature.Rules.{change_default_strategy}
use bucketeer.Evaluation.External.{External}
use bucketeer.Evaluation.Strategy.{evaluate_strategy}
use bucketeer.Evaluation.Assign.{assign_default}
use bucketeer.Command.Model.{Command}
use bucketeer.Api.Validation.{validate_targeting, validate_strategy, validate_fixed}

abbrev pub fixed_at : String → Option Strategy
fixed_at v = some (record {
  type = StrategyType.fixed;
  fixed_strategy = some (record { variation = v });
  rollout_strategy = none;
})

-- A fixed default strategy that names a variation which the feature does not have passes the
-- request's check, is stored by the operation, and then fails for every user who meets the default
-- strategy.
pub unknown_default_accepted :
    (x : External) (v user_id : String) (fs : List Feature) (target : ℕ) (now : ℤ) (f : Feature)
    → get_elem? fs target ≡ some f
    → (v == "") ≡ false
    → find_variation v f.variations ≡ err variation_not_found
    → (g : Feature) × (validate_targeting fs target (Command.change_default_strategy (fixed_at v))
        ≡ ok fs)
      × (change_default_strategy (fixed_at v) now f ≡ ok g)
      × (assign_default x g user_id ≡ err variation_not_found)
unfolding validate_targeting validate_strategy validate_fixed change_default_strategy assign_default
    evaluate_strategy
unknown_default_accepted x v user_id fs target now f at named unknown = (
  record f { default_strategy = fixed_at v; updated_at = now },
  rw (at, named) refl,
  refl,
  rw unknown refl,
)
