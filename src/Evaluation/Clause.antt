-- ===== src/Evaluation/Clause.antt =====
-- pkg/feature/domain/clause_evaluator.go and segment_evaluator.go: whether a clause holds of an
-- attribute's value.
use Prim.Native.String.{slice, len, compare}
use text.Mathlib.Text.{starts_with as has_prefix, is_lt, is_le}
use bucketeer.Prelude.{
  ◌-◌, String, Bool, true, false, not, ◌&&◌, ◌||◌, List, [], ◌∷◌, Option, none, some, leb, eqb,
  ltb_ℤ, if◌then◌else◌, ◌==◌,
}
use bucketeer.Feature.Model.{Clause, Operator}
use bucketeer.Evaluation.Model.{SegmentUser, SegmentUserState}
use bucketeer.Evaluation.External.{External}
use bucketeer.Evaluation.Integers.{parse_int64}

-- `for _, v := range values { if test(v) { return true } }; return false`.
unfoldable pub any {ℓ} : {A : Type ℓ} → (A → Bool) → List A → Bool
any test [] = false
any test (v ∷ vs) = test v || any test vs

-- The values that parse; the others are left out.
unfoldable pub parsed {ℓ} : {A : Type ℓ} → (String → Option A) → List String → List A
parsed parse [] = []
parsed parse (v ∷ vs) = elim (parse v) [ none ↦ parsed parse vs | some a ↦ a ∷ parsed parse vs ]

abbrev has_suffix : String → String → Bool
has_suffix s t = leb (len t) (len s) && (slice s (len s - len t) (len s) == t)

abbrev pub str_lt : String → String → Bool
str_lt s t = is_lt (compare s t)

abbrev pub str_le : String → String → Bool
str_le s t = is_le (compare s t)

unfoldable pub same_state : SegmentUserState → SegmentUserState → Bool
same_state SegmentUserState.included SegmentUserState.included = true
same_state SegmentUserState.excluded SegmentUserState.excluded = true
same_state (SegmentUserState.unknown m) (SegmentUserState.unknown n) = eqb m n
same_state _ _ = false

unfoldable pub contains_segment_user : String → String → SegmentUserState → List SegmentUser → Bool
contains_segment_user segment_id user_id state [] = false
contains_segment_user segment_id user_id state (u ∷ us) =
    let rest = contains_segment_user segment_id user_id state us in
    if not (u.segment_id == segment_id)
    then rest
    else if not (u.user_id == user_id)
    then rest
    else if not (same_state u.state state)
    then rest
    else true

-- Every segment must hold the user.
unfoldable pub find_segment_user : List String → String → SegmentUserState → List SegmentUser → Bool
find_segment_user [] user_id state us = true
find_segment_user (s ∷ segment_ids) user_id state us =
    if not (contains_segment_user s user_id state us)
    then false
    else find_segment_user segment_ids user_id state us

unfoldable pub evaluate_segments : List String → String → List SegmentUser → Bool
evaluate_segments segment_ids user_id us =
    find_segment_user segment_ids user_id SegmentUserState.included us

unfoldable pub equals : String → List String → Bool
equals target values = any (λ v. target == v) values

unfoldable pub in_values : String → List String → Bool
in_values target values = any (λ v. target == v) values

unfoldable pub starts_with : String → List String → Bool
starts_with target values = any (λ v. has_prefix target v) values

unfoldable pub ends_with : String → List String → Bool
ends_with target values = any (λ v. has_suffix target v) values

-- Both tests are false where the target is no integer.
unfoldable pub before : String → List String → Bool
before target values = elim (parse_int64 target) [
  | none ↦ false
  | some t ↦ any (λ v. ltb_ℤ t v) (parsed parse_int64 values)
]

unfoldable pub after : String → List String → Bool
after target values = elim (parse_int64 target) [
  | none ↦ false
  | some t ↦ any (λ v. ltb_ℤ v t) (parsed parse_int64 values)
]

module _ (x : External) where
  open x use {
    Float64, parse_float, float_lt, float_le, Semver, parse_semver, semver_gt, semver_gte,
    semver_lt, semver_lte,
  }

  -- The shape that the four order tests share: as floats where the target is one, else as
  -- versions where the target is one, else as texts. Each test takes the target first.
  unfoldable pub ordered_by :
      (Float64 → Float64 → Bool)
      → (Semver → Semver → Bool)
      → (String → String → Bool)
      → String
      → List String
      → Bool
  ordered_by by_float by_version by_text target values = elim (parse_float target) [
    | some t ↦ any (by_float t) (parsed parse_float values)
    | none ↦ elim (parse_semver target) [
      | some t ↦ any (by_version t) (parsed parse_semver values)
      | none ↦ any (by_text target) values
    ]
  ]

  unfoldable pub greater : String → List String → Bool
  greater = ordered_by (λ t v. float_lt v t) semver_gt (λ t v. str_lt v t)

  unfoldable pub greater_or_equal : String → List String → Bool
  greater_or_equal = ordered_by (λ t v. float_le v t) semver_gte (λ t v. str_le v t)

  unfoldable pub less : String → List String → Bool
  less = ordered_by float_lt semver_lt str_lt

  unfoldable pub less_or_equal : String → List String → Bool
  less_or_equal = ordered_by float_le semver_lte str_le

  -- The `switch` on the operator.
  by_operator : Operator → String → List String → String → List SegmentUser → Bool
  by_operator Operator.equals target values user_id us = equals target values
  by_operator Operator.in_values target values user_id us = in_values target values
  by_operator Operator.starts_with target values user_id us = starts_with target values
  by_operator Operator.ends_with target values user_id us = ends_with target values
  by_operator Operator.segment target values user_id us = evaluate_segments values user_id us
  by_operator Operator.greater target values user_id us = greater target values
  by_operator Operator.greater_or_equal target values user_id us = greater_or_equal target values
  by_operator Operator.less target values user_id us = less target values
  by_operator Operator.less_or_equal target values user_id us = less_or_equal target values
  by_operator Operator.before target values user_id us = before target values
  by_operator Operator.after target values user_id us = after target values
  by_operator (Operator.unknown n) target values user_id us = false

  unfoldable pub evaluate_clause_value : String → Clause → String → List SegmentUser → Bool
  unfolding by_operator
  evaluate_clause_value target clause user_id us =
      by_operator clause.operator target clause.values user_id us
