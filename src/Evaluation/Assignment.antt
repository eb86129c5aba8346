-- ===== src/Evaluation/Assignment.antt =====
-- `assignUser` of pkg/feature/domain/feature.go on consistent features.
use bucketeer.Prelude.{
  String, true, not, ◌&&◌, List, [], ◌∷◌, map, Option, none, some, is_some, ◌≡◌, refl,
  if◌then◌else◌, ◌==◌, eq_refl, arith, contains, All, Returns, Returns-bind, Returns-ok, Result, ok,
  err, if_ind, Bool-cases, inl, inr, subst, ◌>>=◌,
}
use bucketeer.Feature.Model.{
  Error, default_strategy_not_found, prerequisite_variation_not_found, Variation, Target, Strategy,
  StrategyType, FixedStrategy, RolloutStrategy, Prerequisite, Rule, Feature,
}
use bucketeer.Feature.Lookup.{find_variation, variation_ids, target_variation}
use bucketeer.Feature.WellFormed.{WellFormed, Known, Serves, ServesType, RuleServes}
use bucketeer.Evaluation.Model.{User, SegmentUser, Reason, ReasonType}
use bucketeer.Evaluation.External.{External}
use bucketeer.Evaluation.Rule.{evaluate_rules, evaluate_rule}
use bucketeer.Evaluation.Strategy.{rollout, evaluate_strategy}
use bucketeer.Evaluation.Rollout.{FloatLaws, rollout_weight}
use bucketeer.Evaluation.Assign.{
  Assigned, because, assign_default, assign_by_rules, assign_enabled, flag_at, check_prerequisites,
  find_user_target, assign_user,
}
use bucketeer.Evaluation.Known.{own_variation, has_weight-Known}

module _ (x : External) (laws : FloatLaws x) (f : Feature) (user : User) where
  abbrev ids : List String
  ids = variation_ids f.variations

  -- Where the strategy is a rollout, the shares reach the user's bucket.
  abbrev CoveredType : StrategyType → Option RolloutStrategy → Type 0
  CoveredType StrategyType.rollout (some s) =
      (id : String) × (rollout x s user.id f.id f.sampling_seed ≡ ok id)
  CoveredType _ _ = Unit

  abbrev pub Covered : Option Strategy → Type 0
  Covered none = Unit
  Covered (some s) = CoveredType s.type s.rollout_strategy

  -- A strategy that serves gives a variation of the feature.
  evaluate_strategy-Returns :
      (o : Option Strategy)
      → Serves ids o
      → Covered o
      → Returns
          (λ v. Known ids v.id)
          (evaluate_strategy x o user.id f.variations f.id f.sampling_seed)
  unfolding evaluate_strategy
  evaluate_strategy-Returns none h c = h
  evaluate_strategy-Returns (some s) h c = by_type s.type s.fixed_strategy s.rollout_strategy h c
    where
      by_type :
          (t : StrategyType) (fixed : Option FixedStrategy) (r : Option RolloutStrategy)
          → ServesType ids t (record { type = t; fixed_strategy = fixed; rollout_strategy = r })
          → CoveredType t r
          → Returns
              (λ v. Known ids v.id)
              (evaluate_strategy x
                (some (record { type = t; fixed_strategy = fixed; rollout_strategy = r }))
                user.id
                f.variations
                f.id
                f.sampling_seed)
      by_type StrategyType.fixed (some v) r h c = own_variation v.variation f.variations h
      by_type StrategyType.fixed none r h c = h
      by_type StrategyType.rollout fixed (some s) h c = rw c.1 (
          own_variation c.0 f.variations (
            has_weight-Known ids c.0 s.variations
              (rollout_weight x laws s user.id f.id f.sampling_seed c.0 c.1) h))
      by_type StrategyType.rollout fixed none h c = h
      by_type (StrategyType.unknown n) fixed r h c = h

  abbrev Own : Reason × Variation → Type 0
  Own a = Known ids a.1.id

  because-Returns :
      (r : Reason) (m : Result Error Variation)
      → Returns (λ v. Known ids v.id) m
      → Returns Own (m >>= λ v. ok (r, v))
  because-Returns r m h = Returns-bind _ Own m _ h (λ v k. k)

  abbrev EarlyReturns : Option Assigned → Type 0
  EarlyReturns none = Unit
  EarlyReturns (some r) = Returns Own r

  check_prerequisites-Returns :
      (ps : List Prerequisite) (flags : List (String × String))
      → Known ids f.off_variation
      → All (λ (p : Prerequisite). is_some (flag_at p.feature_id flags) ≡ true) ps
      → EarlyReturns (check_prerequisites ps flags f)
  unfolding check_prerequisites
  check_prerequisites-Returns [] flags off h = tt
  check_prerequisites-Returns (p ∷ ps) flags off h =
      by_flag (flag_at p.feature_id flags) h.0 (check_prerequisites-Returns ps flags off h.1)
    where
      by_flag :
          (o : Option String)
          → is_some o ≡ true
          → EarlyReturns (check_prerequisites ps flags f)
          → EarlyReturns (elim o [
            | none ↦ some (err prerequisite_variation_not_found)
            | some variation ↦
                if not (p.variation_id == variation) && not (f.off_variation == "")
                then some (
                    find_variation f.off_variation f.variations >>= λ v.
                    ok (record { type = ReasonType.prerequisite; rule_id = "" }, v))
                else check_prerequisites ps flags f
          ])
      by_flag none e rest = cc
      by_flag (some variation) e rest =
          if_ind EarlyReturns (not (p.variation_id == variation) && not (f.off_variation == ""))
            (λ _.
              because-Returns _ (find_variation f.off_variation f.variations)
                (own_variation f.off_variation f.variations off))
            (λ _. rest)

  pub find_user_target-Known :
      (ts : List Target) (t : Target)
      → find_user_target user.id ts ≡ some t
      → contains t.variation (map target_variation ts) ≡ true
  unfolding find_user_target contains
  find_user_target-Known [] t e = cc
  find_user_target-Known (s ∷ ts) t e = elim (Bool-cases (contains user.id s.users)) [
    | inl here ↦
        let same : some s ≡ some t = rw here at e in
        let found : s ≡ t = cc in
        subst (λ (k : Target). contains k.variation (map target_variation (s ∷ ts)) ≡ true) found
          (rw eq_refl)
    | inr later ↦ let next = find_user_target-Known ts t (rw later at e) in ground arith
  ]

  pub evaluate_rules-All :
      (P : Rule → Type 0) (rs : List Rule) (us : List SegmentUser) (r : Rule)
      → All P rs
      → evaluate_rules x rs user us ≡ some r
      → P r
  unfolding evaluate_rules
  evaluate_rules-All P [] us r h e = cc
  evaluate_rules-All P (q ∷ rs) us r h e = elim (Bool-cases (evaluate_rule x q user us)) [
    | inl here ↦ let same : some q ≡ some r = rw here at e in subst P (cc) h.0
    | inr later ↦ evaluate_rules-All P rs us r h.1 (rw later at e)
  ]

  assign_default-Returns :
      Serves ids f.default_strategy
      → Covered f.default_strategy
      → Returns Own (assign_default x f user.id)
  unfolding assign_default
  assign_default-Returns h c = by_strategy f.default_strategy h c
    where
      by_strategy :
          (o : Option Strategy)
          → Serves ids o
          → Covered o
          → Returns Own (elim o [
            | none ↦ err default_strategy_not_found
            | some s ↦
                because ReasonType.default
                  (evaluate_strategy x (some s) user.id f.variations f.id f.sampling_seed)
          ])
      by_strategy none h c = h
      by_strategy (some s) h c =
          because-Returns _ (evaluate_strategy x (some s) user.id f.variations f.id f.sampling_seed)
            (evaluate_strategy-Returns (some s) h c)

  -- The rules that a user may meet, and the default strategy, are covered.
  abbrev pub AllCovered : Type 0
  AllCovered = All (λ (r : Rule). Covered r.strategy) f.rules × Covered f.default_strategy

  assign_by_rules-Returns :
      (us : List SegmentUser)
      → WellFormed f
      → AllCovered
      → Returns Own (assign_by_rules x f user us)
  unfolding assign_by_rules
  assign_by_rules-Returns us w c = by_rule (evaluate_rules x f.rules user us) refl
    where
      by_rule :
          (o : Option Rule)
          → evaluate_rules x f.rules user us ≡ o
          → Returns Own (elim o [
            | some rule ↦
                evaluate_strategy x rule.strategy user.id f.variations f.id f.sampling_seed >>= λ v.
                ok (record { type = ReasonType.rule; rule_id = rule.id }, v)
            | none ↦ assign_default x f user.id
          ])
      by_rule none e = assign_default-Returns w.default_serves c.1
      by_rule (some r) e =
          because-Returns _
            (evaluate_strategy x r.strategy user.id f.variations f.id f.sampling_seed)
            (evaluate_strategy-Returns r.strategy
              (evaluate_rules-All (RuleServes ids) f.rules us r w.rules_serve e)
              (evaluate_rules-All (λ q. Covered q.strategy) f.rules us r c.0 e))

  assign_enabled-Returns :
      (us : List SegmentUser) → WellFormed f → AllCovered → Returns Own (assign_enabled x f user us)
  unfolding assign_enabled
  assign_enabled-Returns us w c =
      if_ind (Returns Own) (not f.enabled && not (f.off_variation == ""))
        (λ _.
          because-Returns _ (find_variation f.off_variation f.variations)
            (own_variation f.off_variation f.variations w.off_known))
        (λ _. by_target (find_user_target user.id f.targets) refl)
    where
      by_target :
          (o : Option Target)
          → find_user_target user.id f.targets ≡ o
          → Returns Own (elim o [
            | some t ↦ because ReasonType.target (find_variation t.variation f.variations)
            | none ↦ assign_by_rules x f user us
          ])
      by_target none e = assign_by_rules-Returns us w c
      by_target (some t) e = because-Returns _ (find_variation t.variation f.variations) (
          own_variation t.variation f.variations (
            subst (λ l. contains t.variation l ≡ true) w.aligned
              (find_user_target-Known f.targets t e)))

  -- Where the floats obey `FloatLaws`, a consistent feature assigns every user one of its own
  -- variations, with no error and no panic, when the features that it needs have been given a
  -- variation and the shares of its rollouts reach the user's bucket.
  pub assign_user_total :
      (us : List SegmentUser) (flags : List (String × String))
      → WellFormed f
      → All (λ (p : Prerequisite). is_some (flag_at p.feature_id flags) ≡ true) f.prerequisites
      → AllCovered
      → (a : Reason × Variation) × (assign_user x f user us flags ≡ ok a)
        × Known (variation_ids f.variations) a.1.id
  unfolding assign_user
  assign_user_total us flags w h c = Returns-ok Own (assign_user x f user us flags) (
      by_prerequisites (check_prerequisites f.prerequisites flags f)
        (check_prerequisites-Returns f.prerequisites flags w.off_known h))
    where
      by_prerequisites :
          (o : Option Assigned)
          → EarlyReturns o
          → Returns Own (elim o [ some r ↦ r | none ↦ assign_enabled x f user us ])
      by_prerequisites none e = assign_enabled-Returns us w c
      by_prerequisites (some r) e = e
