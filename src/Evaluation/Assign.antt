-- ===== src/Evaluation/Assign.antt =====
-- `assignUser` of pkg/feature/domain/feature.go: the variation of one feature for one user, with
-- the reason.
use bucketeer.Prelude.{
  String, not, ◌&&◌, List, [], ◌∷◌, Option, none, some, if◌then◌else◌, ◌==◌, contains, Result, ok,
  err, ◌>>=◌,
}
use bucketeer.Feature.Model.{
  Error, prerequisite_variation_not_found, default_strategy_not_found, Variation, Target,
  Prerequisite, Feature,
}
use bucketeer.Feature.Lookup.{find_variation}
use bucketeer.Evaluation.Model.{User, SegmentUser, Reason, ReasonType}
use bucketeer.Evaluation.External.{External}
use bucketeer.Evaluation.Rule.{evaluate_rules}
use bucketeer.Evaluation.Strategy.{evaluate_strategy}

abbrev pub Assigned : Type 0
Assigned = Result Error (Reason × Variation)

abbrev pub because : ReasonType → Result Error Variation → Assigned
because t r = do v ← r; ok (record { type = t; rule_id = "" }, v)

-- `flagVariations[id]`: the variations given so far, the latest first.
unfoldable pub flag_at : String → List (String × String) → Option String
flag_at k [] = none
flag_at k ((j, v) ∷ m) = if j == k then some v else flag_at k m

-- The loop over the prerequisites: `some` is a return, `none` goes on.
unfoldable pub check_prerequisites :
    List Prerequisite → List (String × String) → Feature → Option Assigned
check_prerequisites [] flags f = none
check_prerequisites (p ∷ ps) flags f =
    let rest = check_prerequisites ps flags f in
    elim (flag_at p.feature_id flags) [
      | none ↦ some (err prerequisite_variation_not_found)
      | some variation ↦
          if not (p.variation_id == variation) && not (f.off_variation == "")
          then some (because ReasonType.prerequisite (find_variation f.off_variation f.variations))
          else rest
    ]

-- The loop over the targets.
unfoldable pub find_user_target : String → List Target → Option Target
find_user_target user_id [] = none
find_user_target user_id (t ∷ ts) =
    if contains user_id t.users then some t else find_user_target user_id ts

module _ (x : External) where
  unfoldable pub assign_default : Feature → String → Assigned
  assign_default f user_id = elim f.default_strategy [
    | none ↦ err default_strategy_not_found
    | some s ↦
        because ReasonType.default
          (evaluate_strategy x (some s) user_id f.variations f.id f.sampling_seed)
  ]

  -- From the rules on.
  unfoldable pub assign_by_rules : Feature → User → List SegmentUser → Assigned
  unfolding assign_default
  assign_by_rules f user us = elim (evaluate_rules x f.rules user us) [
    | some rule ↦ do
      v ← evaluate_strategy x rule.strategy user.id f.variations f.id f.sampling_seed
      ok (record { type = ReasonType.rule; rule_id = rule.id }, v)
    | none ↦ assign_default f user.id
  ]

  -- From the off variation on.
  unfoldable pub assign_enabled : Feature → User → List SegmentUser → Assigned
  unfolding assign_by_rules
  assign_enabled f user us =
      if not f.enabled && not (f.off_variation == "")
      then because ReasonType.off_variation (find_variation f.off_variation f.variations)
      else elim (find_user_target user.id f.targets) [
        | some t ↦ because ReasonType.target (find_variation t.variation f.variations)
        | none ↦ assign_by_rules f user us
      ]

  unfoldable pub assign_user : Feature → User → List SegmentUser → List (String × String) → Assigned
  unfolding assign_enabled
  assign_user f user us flags = elim (check_prerequisites f.prerequisites flags f) [
    | some r ↦ r
    | none ↦ assign_enabled f user us
  ]
