-- ===== src/Evaluation/Rollout.antt =====
-- Which variation a rollout picks (pkg/feature/domain/strategy_evaluator.go).
use Prim.Native.String.{slice}
use mathlib.Core.Bool.{false≢true}
use bucketeer.Prelude.{
  ℕ, ℤ, pos, String, true, false, List, [], ◌∷◌, Option, none, some, ◌≡◌, ltb_ℤ, eq_refl, arith,
  if_ind, Holds-map, Holds-ok, sym, ◌∙◌, or_err, ok, Bool-cases, inl, inr, Holds, ◌>>=◌,
}
use bucketeer.Feature.Model.{parse_error, RolloutVariation, RolloutStrategy}
use bucketeer.Feature.Variations.{has_weight}
use bucketeer.Evaluation.External.{External}
use bucketeer.Evaluation.Strategy.{hash, bucket, share, pick, rollout}

-- What evaluation needs of the floats: a quotient of two numbers of uint64 is not negative, and a
-- sum does not grow by a share that is not positive.
pub record FloatLaws (x : External) : Type 0 where
  pub bucket_not_negative :
      (n : ℕ)
      → x.float_lt
          (x.div (x.float64 (pos n)) (x.float64 (pos 18446744073709551615)))
          (x.float64 (pos 0))
        ≡ false
  pub no_gain :
      (b sum : x.Float64) (weight : ℤ)
      → ltb_ℤ (pos 0) weight ≡ false
      → x.float_lt b sum ≡ false
      → x.float_lt b (x.add sum (x.div (x.float64 weight) (x.float64 (pos 100000)))) ≡ false

module _ (x : External) (laws : FloatLaws x) where
  pick_weight :
      (b sum : x.Float64) (vs : List RolloutVariation)
      → x.float_lt b sum ≡ false
      → Holds (λ id. has_weight id vs ≡ true) (pick x b sum vs)
  unfolding pick has_weight share
  pick_weight b sum [] h = tt
  pick_weight b sum (v ∷ vs) h =
      if_ind (Holds (λ id. has_weight id (v ∷ vs) ≡ true)) (x.float_lt b (x.add sum (share x v)))
        (λ below. elim (Bool-cases (ltb_ℤ (pos 0) v.weight)) [
          | inl positive ↦ rw (eq_refl, positive)
          | inr none_of_it ↦
              let above = laws.no_gain b sum v.weight none_of_it h in
              absurd (false≢true (sym above ∙ below))
        ])
        (λ above.
          Holds-map _ _ (pick x b (x.add sum (share x v)) vs) (λ id k. ground arith)
            (pick_weight b (x.add sum (share x v)) vs above))

  -- Where the floats obey `FloatLaws`, a rollout gives only variations that have an entry with a
  -- positive weight: an entry of weight 0 (or less) is never served, whatever the user's bucket
  -- is.
  pub rollout_weight :
      (s : RolloutStrategy) (user_id feature_id seed id : String)
      → rollout x s user_id feature_id seed ≡ ok id
      → has_weight id s.variations ≡ true
  unfolding rollout bucket
  rollout_weight s user_id feature_id seed id e =
      Holds-ok (λ id. has_weight id s.variations ≡ true) (rollout x s user_id feature_id seed) id
        (by_hash (parse_hex (slice (hash x user_id feature_id seed) 0 16))) e
    where
      open x use {parse_hex, div, float64}

      by_hash :
          (o : Option ℕ)
          → Holds
              (λ id. has_weight id s.variations ≡ true)
              ((or_err o parse_error >>= λ n.
                  ok (div (float64 (pos n)) (float64 (pos 18446744073709551615))))
                >>= λ b. pick x b (float64 (pos 0)) s.variations)
      by_hash none = tt
      by_hash (some n) = pick_weight _ (float64 (pos 0)) s.variations (laws.bucket_not_negative n)
