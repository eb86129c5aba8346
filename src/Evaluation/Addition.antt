-- ===== src/Evaluation/Addition.antt =====
-- AddVariation and assignUser of pkg/feature/domain/feature.go: a new variation serves nobody.
use bucketeer.Prelude.{
  ℤ, String, Bool, true, false, not, ◌&&◌, List, [], ◌∷◌, ◌++◌, map, Option, none, some, ◌≡◌, refl,
  ap, subst, ◌∙◌, if◌then◌else◌, ◌==◌, contains, Result, ok, err, ◌>>=◌,
}
use bucketeer.Feature.Model.{
  Error, prerequisite_variation_not_found, default_strategy_not_found, Feature, Variation, Target,
  Strategy, Prerequisite, Rule,
}
use bucketeer.Feature.Lookup.{find_variation, variation_ids}
use bucketeer.Feature.Variations.{Parsers, validate_variation, add_variation}
use bucketeer.Feature.WellFormed.{WellFormed, Serves, RuleServes}
use bucketeer.Feature.WellFormed.Variations.{
  extended_if, extended_rule, extended_feature, add_variation-extended,
}
use bucketeer.Evaluation.Model.{User, SegmentUser, ReasonType}
use bucketeer.Evaluation.External.{External}
use bucketeer.Evaluation.Rule.{evaluate_rule, evaluate_rules}
use bucketeer.Evaluation.Strategy.{evaluate_strategy}
use bucketeer.Evaluation.Rollout.{FloatLaws}
use bucketeer.Evaluation.Assign.{
  Assigned, because, flag_at, check_prerequisites, find_user_target, assign_default,
  assign_by_rules, assign_enabled, assign_user,
}
use bucketeer.Evaluation.Assignment.{find_user_target-Known, evaluate_rules-All}
use bucketeer.Evaluation.Unweighted.{
  find_variation-more, find_user_target-more, evaluate_strategy-more,
}

module _ (x : External) (laws : FloatLaws x) where
  abbrev extended_result : String → Option Rule → Option Rule
  extended_result id none = none
  extended_result id (some r) = some (extended_rule id r)

  -- The rules decide as before, since their clauses are the same.
  evaluate_rules-extended :
      (id : String) (rs : List Rule) (user : User) (us : List SegmentUser)
      → evaluate_rules x (map (extended_rule id) rs) user us
        ≡ extended_result id (evaluate_rules x rs user us)
  unfolding evaluate_rules evaluate_rule
  evaluate_rules-extended id [] user us = refl
  evaluate_rules-extended id (r ∷ rs) user us =
      by_clauses (evaluate_rule x r user us) (evaluate_rules-extended id rs user us)
    where
      by_clauses :
          (b : Bool)
          → evaluate_rules x (map (extended_rule id) rs) user us
            ≡ extended_result id (evaluate_rules x rs user us)
          → (if b
              then some (extended_rule id r)
              else evaluate_rules x (map (extended_rule id) rs) user us)
            ≡ extended_result id (if b then some r else evaluate_rules x rs user us)
      by_clauses true later = refl
      by_clauses false later = later

  module _ (f : Feature) (v : Variation) (now : ℤ) (w : WellFormed f) (user : User) where
    abbrev g : Feature
    g = extended_feature v now f

    check_prerequisites-more :
        (ps : List Prerequisite) (flags : List (String × String))
        → check_prerequisites ps flags g ≡ check_prerequisites ps flags f
    unfolding check_prerequisites
    check_prerequisites-more [] flags = refl
    check_prerequisites-more (p ∷ ps) flags =
        by_flag (flag_at p.feature_id flags) (check_prerequisites-more ps flags)
      where
        step : Feature → Result Error Variation → Option Assigned → Option String → Option Assigned
        step f off rest o = elim o [
          | none ↦ some (err prerequisite_variation_not_found)
          | some variation ↦
              if not (p.variation_id == variation) && not (f.off_variation == "")
              then some (because ReasonType.prerequisite off)
              else rest
        ]

        by_flag :
            (o : Option String)
            → check_prerequisites ps flags g ≡ check_prerequisites ps flags f
            → step g
                (find_variation f.off_variation g.variations)
                (check_prerequisites ps flags g)
                o
              ≡ step f
                  (find_variation f.off_variation f.variations)
                  (check_prerequisites ps flags f)
                  o
        by_flag none rest = refl
        by_flag (some variation) rest =
            let off = find_variation-more f.off_variation f.variations v w.off_known in
            rw (off, rest) refl

    assign_default-more : assign_default x g user.id ≡ assign_default x f user.id
    unfolding assign_default
    assign_default-more = by_strategy f.default_strategy w.default_serves
      where
        by_strategy :
            (o : Option Strategy)
            → Serves (variation_ids f.variations) o
            → Path Assigned
                (elim (extended_if v.id o) [
                  | none ↦ err default_strategy_not_found
                  | some s ↦ because ReasonType.default (
                      evaluate_strategy x
                        (some s)
                        user.id
                        (f.variations ++ v ∷ [])
                        f.id
                        f.sampling_seed)
                ])
                (elim o [
                  | none ↦ err default_strategy_not_found
                  | some s ↦
                      because ReasonType.default
                        (evaluate_strategy x (some s) user.id f.variations f.id f.sampling_seed)
                ])
        by_strategy none h = refl
        by_strategy (some s) h =
            ap (because ReasonType.default)
              (evaluate_strategy-more x laws f.variations v (some s) user.id f.id f.sampling_seed h)

    assign_by_rules-more :
        (us : List SegmentUser) → assign_by_rules x g user us ≡ assign_by_rules x f user us
    unfolding assign_by_rules
    assign_by_rules-more us = by_rule (evaluate_rules x f.rules user us) refl
      where
        by_rule :
            (o : Option Rule)
            → evaluate_rules x f.rules user us ≡ o
            → Path Assigned (assign_by_rules x g user us) (elim o [
              | some rule ↦
                  evaluate_strategy x rule.strategy user.id f.variations f.id f.sampling_seed
                  >>= λ v. ok (record { type = ReasonType.rule; rule_id = rule.id }, v)
              | none ↦ assign_default x f user.id
            ])
        by_rule none e =
            let more = evaluate_rules-extended v.id f.rules user us ∙ ap (extended_result v.id) e in
            rw (assign_by_rules, more) assign_default-more
        by_rule (some r) e =
            let more = evaluate_rules-extended v.id f.rules user us ∙ ap (extended_result v.id) e in
            let serves =
              evaluate_rules-All x laws f user (RuleServes (variation_ids f.variations)) f.rules us
                r w.rules_serve e in
            rw (assign_by_rules, more)
              (ap (λ m. m >>= λ v. ok (record { type = ReasonType.rule; rule_id = r.id }, v))
                (evaluate_strategy-more x laws f.variations v r.strategy user.id f.id
                  f.sampling_seed serves))

    assign_enabled-more :
        (us : List SegmentUser) → assign_enabled x g user us ≡ assign_enabled x f user us
    unfolding assign_enabled
    assign_enabled-more us =
        let off = find_variation-more f.off_variation f.variations v w.off_known in
        let found = find_user_target-more user.id v.id f.targets in
        rw (off, found)
          (ap
            (λ r.
              if not f.enabled && not (f.off_variation == "")
              then because ReasonType.off_variation (find_variation f.off_variation f.variations)
              else r)
            (by_target (find_user_target user.id f.targets) refl))
      where
        by_target :
            (o : Option Target)
            → find_user_target user.id f.targets ≡ o
            → Path Assigned
                (elim o [
                  | some t ↦ because ReasonType.target (find_variation t.variation g.variations)
                  | none ↦ assign_by_rules x g user us
                ])
                (elim o [
                  | some t ↦ because ReasonType.target (find_variation t.variation f.variations)
                  | none ↦ assign_by_rules x f user us
                ])
        by_target none e = assign_by_rules-more us
        by_target (some t) e = ap (because ReasonType.target) (
            find_variation-more t.variation f.variations v (
              subst (λ l. contains t.variation l ≡ true) w.aligned
                (find_user_target-Known x laws f user f.targets t e)))

    assign_user-more :
        (us : List SegmentUser) (flags : List (String × String))
        → assign_user x g user us flags ≡ assign_user x f user us flags
    unfolding assign_user
    assign_user-more us flags =
        ap (λ o. early o (assign_enabled x g user us))
          (check_prerequisites-more f.prerequisites flags)
        ∙ ap (early (check_prerequisites f.prerequisites flags f)) (assign_enabled-more us)
      where
        early : Option Assigned → Assigned → Assigned
        early o a = elim o [ some r ↦ r | none ↦ a ]

  -- Adding a variation whose value fits the type to a consistent feature succeeds: the variation and
  -- a target of no users stand behind the others, every rollout of a rule or of the default strategy
  -- has one more entry, of no weight, and nothing else is changed but the time. Where the floats obey
  -- `FloatLaws`, every user is then assigned as before, with the same variation and reason or the
  -- same error.
  pub add_variation-assign_user :
      (p : Parsers) (id value name description : String) (now : ℤ) (f : Feature)
      → WellFormed f
      → validate_variation p f.variation_type value ≡ ok tt
      → (g : Feature) × (add_variation p id value name description now f ≡ ok g)
        × (g
            ≡ extended_feature
                (record { id = id; value = value; name = name; description = description })
                now
                f)
        × ((user : User) (us : List SegmentUser) (flags : List (String × String))
            → assign_user x g user us flags ≡ assign_user x f user us flags)
  add_variation-assign_user p id value name description now f w valid =
      let v : Variation = record {
        id = id;
        value = value;
        name = name;
        description = description;
      } in
      (
        extended_feature v now f,
        add_variation-extended p id value name description now f w valid,
        refl,
        λ user us flags. assign_user-more f v now w user us flags,
      )
