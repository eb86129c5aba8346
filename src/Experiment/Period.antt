-- ===== src/Experiment/Period.antt =====
-- `validateExperimentPeriod` of pkg/experiment/api/experiment.go: the period of an experiment, by
-- a subtraction of int64 values.
use bucketeer.Prelude.{
  ℕ, ◌+◌, ◌-◌, ◌<◌, ◌≤◌, arith, pos, negsuc, Bool, true, false, not, ◌||◌, ◌≡◌, refl, ◌↔◌, leb_ℤ,
  ltb_ℤ, ok, guard, ◌-ℤ◌, ◌+ℤ◌, sub_int64, Holds, Result, err, panic,
}
use bucketeer.Experiment.Api.{ApiError, validate_experiment_period, max_experiment_period}

-- The difference of two times that are not negative does not wrap.
sub_int64-pos :
    (a b : ℕ)
    → a < 9223372036854775808
    → b < 9223372036854775808
    → sub_int64 (pos b) (pos a) ≡ pos b -ℤ pos a
unfolding sub_int64 ◌-ℤ◌ ◌+ℤ◌
sub_int64-pos a b ha hb = ground arith

within : (b : Bool) → (guard {E = ApiError} b ApiError.period_too_long ≡ ok tt) ↔ (b ≡ true)
within true = (λ _. refl, λ _. refl)
within false = (λ e. cc, λ e. cc)

pub period_test :
    (a b : ℕ)
    → (not (leb_ℤ (pos b -ℤ pos a) (pos 0) || ltb_ℤ max_experiment_period (pos b -ℤ pos a)) ≡ true)
      ↔ ((a < b) × (b ≤ a + 2592000))
unfolding ◌-ℤ◌
period_test a b = ground arith

-- For times of an int64 that are not negative, a period is accepted exactly where it ends after it
-- starts and lasts thirty days at most.
pub validate_experiment_period-bounds :
    (a b : ℕ)
    → a < 9223372036854775808
    → b < 9223372036854775808
    → (validate_experiment_period (pos a) (pos b) ≡ ok tt) ↔ ((a < b) × (b ≤ a + 2592000))
unfolding validate_experiment_period
validate_experiment_period-bounds a b ha hb =
    let there = within _ in
    let test = period_test a b in
    rw (sub_int64-pos a b ha hb) (λ e. test.0 (there.0 e), λ h. there.1 (test.1 h))

-- With a negative time the subtraction wraps: for every length up to thirty days, the last time of
-- an int64 is accepted as the start of a period that stops before year zero.
pub validate_experiment_period-wraps :
    (d : ℕ)
    → 0 < d
    → d ≤ 2592000
    → validate_experiment_period (pos 9223372036854775807) (negsuc (9223372036854775808 - d))
      ≡ ok tt
unfolding validate_experiment_period sub_int64 ◌-ℤ◌ ◌+ℤ◌
validate_experiment_period-wraps d h k = (within _).1 (ground arith)

Holds-self : (Q : Type 0) (r : Result ApiError (Unit {0})) → (r ≡ ok tt → Q) → Holds (λ _. Q) r
Holds-self Q (ok tt) f = f refl
Holds-self Q (err e) f = tt
Holds-self Q panic f = tt

pub validate_experiment_period-ordered :
    (a b : ℕ)
    → a < 9223372036854775808
    → b < 9223372036854775808
    → Holds (λ _. leb_ℤ (pos b) (pos a) ≡ false) (validate_experiment_period (pos a) (pos b))
validate_experiment_period-ordered a b ha hb =
    Holds-self _ (validate_experiment_period (pos a) (pos b))
      (λ e. let (lt, _) = (validate_experiment_period-bounds a b ha hb).0 e in ground arith)
