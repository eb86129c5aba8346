-- ===== src/Evaluation/Unweighted.antt =====
-- The searches and the strategies of pkg/feature/domain with one more variation that has no weight.
use Prim.Native.String.{slice}
use bucketeer.Prelude.{
  ℕ, pos, String, false, List, [], ◌∷◌, ◌++◌, Option, none, some, ◌≡◌, refl, ap, ◌∙◌, if◌then◌else◌,
  ◌==◌, contains, arith, Bool-cases, inl, inr, Result, ok, err, panic, ◌>>=◌, or_err,
}
use bucketeer.Feature.Model.{
  Error, parse_error, Variation, Target, Strategy, StrategyType, FixedStrategy, RolloutStrategy,
  RolloutVariation,
}
use bucketeer.Feature.Lookup.{find_variation, variation_ids}
use bucketeer.Feature.WellFormed.{Known, Serves, ServesType}
use bucketeer.Feature.WellFormed.Variations.{no_share, extended, extended_if}
use bucketeer.Evaluation.External.{External}
use bucketeer.Evaluation.Strategy.{hash, bucket, share, pick, rollout, evaluate_strategy}
use bucketeer.Evaluation.Rollout.{FloatLaws, rollout_weight}
use bucketeer.Evaluation.Assign.{find_user_target}
use bucketeer.Evaluation.Known.{has_weight-Known}

-- A search for a known variation does not reach one that stands behind.
pub find_variation-more :
    (k : String) (vs : List Variation) (v : Variation)
    → Known (variation_ids vs) k
    → find_variation k (vs ++ v ∷ []) ≡ find_variation k vs
unfolding find_variation contains
find_variation-more k [] v h = cc
find_variation-more k (w ∷ vs) v h = elim (Bool-cases (w.id == k)) [
  | inl e ↦ rw (find_variation, e) refl
  | inr e ↦
      let later : Known (variation_ids vs) k = ground (arith, h, e) in
      let rest = find_variation-more k vs v later in rw (find_variation, e, rest) refl
]

-- A target of no users is nobody's.
pub find_user_target-more :
    (user variation : String) (ts : List Target)
    → find_user_target user (ts ++ record { variation = variation; users = [] } ∷ [])
      ≡ find_user_target user ts
unfolding find_user_target contains
find_user_target-more user variation [] = refl
find_user_target-more user variation (t ∷ ts) =
    ap (λ r. if contains user t.users then some t else r) (find_user_target-more user variation ts)

module _ (x : External) (laws : FloatLaws x) where
  pick-more :
      (b sum : x.Float64) (id : String) (vs : List RolloutVariation)
      → x.float_lt b sum ≡ false
      → pick x b sum (vs ++ no_share id ∷ []) ≡ pick x b sum vs
  unfolding pick share
  pick-more b sum id [] h = rw (pick, laws.no_gain b sum (pos 0) refl h) refl
  pick-more b sum id (v ∷ vs) h = elim (Bool-cases (x.float_lt b (x.add sum (share x v)))) [
    | inl e ↦ rw (pick, e) refl
    | inr e ↦ let rest = pick-more b (x.add sum (share x v)) id vs e in rw (pick, e, rest) refl
  ]

  rollout-more :
      (r : RolloutStrategy) (id user_id feature_id seed : String)
      → rollout x (record { variations = r.variations ++ no_share id ∷ [] }) user_id feature_id seed
        ≡ rollout x r user_id feature_id seed
  unfolding rollout bucket
  rollout-more r id user_id feature_id seed =
      by_hash (x.parse_hex (slice (hash x user_id feature_id seed) 0 16))
    where
      pick_from : Option ℕ → List RolloutVariation → Result Error String
      pick_from o vs =
          (or_err o parse_error >>= λ n.
          ok (x.div (x.float64 (pos n)) (x.float64 (pos 18446744073709551615))))
          >>= λ b. pick x b (x.float64 (pos 0)) vs

      by_hash :
          (o : Option ℕ) → pick_from o (r.variations ++ no_share id ∷ []) ≡ pick_from o r.variations
      by_hash none = refl
      by_hash (some n) =
          pick-more _ (x.float64 (pos 0)) id r.variations (laws.bucket_not_negative n)

  module _ (vs : List Variation) (v : Variation) where
    abbrev ids : List String
    ids = variation_ids vs

    abbrev more : List Variation
    more = vs ++ v ∷ []

    -- What a rollout picks is found as before.
    picked :
        (r : RolloutStrategy) (user_id feature_id seed : String) (m : Result Error String)
        → ((id : String) → m ≡ ok id → Known ids id)
        → (m >>= λ id. find_variation id more) ≡ (m >>= λ id. find_variation id vs)
    picked r user_id feature_id seed (ok id) h = find_variation-more id vs v (h id refl)
    picked r user_id feature_id seed (err e) h = refl
    picked r user_id feature_id seed panic h = refl

    pub evaluate_strategy-more :
        (o : Option Strategy) (user_id feature_id seed : String)
        → Serves ids o
        → evaluate_strategy x (extended_if v.id o) user_id more feature_id seed
          ≡ evaluate_strategy x o user_id vs feature_id seed
    unfolding evaluate_strategy
    evaluate_strategy-more none user_id feature_id seed h = absurd h
    evaluate_strategy-more (some s) user_id feature_id seed h =
        by_type s.type s.fixed_strategy s.rollout_strategy h
      where
        by_type :
            (t : StrategyType) (f : Option FixedStrategy) (r : Option RolloutStrategy)
            → ServesType ids t (record { type = t; fixed_strategy = f; rollout_strategy = r })
            → evaluate_strategy x
                (some
                  (extended v.id (record { type = t; fixed_strategy = f; rollout_strategy = r })))
                user_id
                more
                feature_id
                seed
              ≡ evaluate_strategy x
                  (some (record { type = t; fixed_strategy = f; rollout_strategy = r }))
                  user_id
                  vs
                  feature_id
                  seed
        by_type StrategyType.fixed (some c) r h = find_variation-more c.variation vs v h
        by_type StrategyType.fixed none r h = absurd h
        by_type StrategyType.rollout f (some r) h =
            ap (λ m. m >>= λ id. find_variation id more)
              (rollout-more r v.id user_id feature_id seed)
            ∙ picked r user_id feature_id seed (rollout x r user_id feature_id seed) (λ id e.
              has_weight-Known ids id r.variations
                (rollout_weight x laws r user_id feature_id seed id e) h)
        by_type StrategyType.rollout f none h = absurd h
        by_type (StrategyType.unknown n) f r h = absurd h
