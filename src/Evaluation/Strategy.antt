-- ===== src/Evaluation/Strategy.antt =====
-- pkg/feature/domain/strategy_evaluator.go: a fixed variation, or one picked by the user's bucket.
use Prim.Native.String.{slice, ◌++◌ as str_append}
use bucketeer.Prelude.{
  pos, String, List, [], ◌∷◌, Option, if◌then◌else◌, deref, or_err, Result, ok, err, ◌>>=◌,
}
use bucketeer.Feature.Model.{
  Error, variation_not_found, unsupported_strategy, parse_error, Variation, Strategy, StrategyType,
  RolloutStrategy, RolloutVariation,
}
use bucketeer.Feature.Lookup.{find_variation}
use bucketeer.Evaluation.External.{External}

module _ (x : External) where
  open x use {Float64, float64, add, div, float_lt, md5_hex, parse_hex}

  unfoldable pub hash : String → String → String → String
  hash user_id feature_id sampling_seed =
      md5_hex (str_append (str_append (str_append feature_id "-") user_id) sampling_seed)

  -- The first 16 hexadecimal digits of the hash, over the largest uint64 as a float.
  unfoldable pub bucket : String → String → String → Result Error Float64
  bucket user_id feature_id sampling_seed = do
    n ← or_err (parse_hex (slice (hash user_id feature_id sampling_seed) 0 16)) parse_error
    ok (div (float64 (pos n)) (float64 (pos 18446744073709551615)))

  -- `float64(weight) / 100000.0`.
  unfoldable pub share : RolloutVariation → Float64
  share v = div (float64 v.weight) (float64 (pos 100000))

  -- The loop of `rollout`: `sum` is the share of the entries passed.
  unfoldable pub pick : Float64 → Float64 → List RolloutVariation → Result Error String
  pick b sum [] = err variation_not_found
  pick b sum (v ∷ vs) =
      let next = add sum (share v) in if float_lt b next then ok v.variation else pick b next vs

  unfoldable pub rollout : RolloutStrategy → String → String → String → Result Error String
  rollout strategy user_id feature_id sampling_seed = do
    b ← bucket user_id feature_id sampling_seed
    pick b (float64 (pos 0)) strategy.variations

  evaluate_by_type :
      StrategyType → Strategy → String → List Variation → String → String → Result Error Variation
  evaluate_by_type StrategyType.fixed s user_id vs feature_id seed = do
    fixed ← deref s.fixed_strategy
    find_variation fixed.variation vs
  evaluate_by_type StrategyType.rollout s user_id vs feature_id seed = do
    strategy ← deref s.rollout_strategy
    v ← rollout strategy user_id feature_id seed
    find_variation v vs
  evaluate_by_type (StrategyType.unknown n) s user_id vs feature_id seed = err unsupported_strategy

  unfoldable pub evaluate_strategy :
      Option Strategy → String → List Variation → String → String → Result Error Variation
  unfolding evaluate_by_type
  evaluate_strategy s user_id vs feature_id seed = do
    strategy ← deref s
    evaluate_by_type strategy.type strategy user_id vs feature_id seed
