-- ===== src/Feature/WellFormed/Variations/Remove.antt =====
-- RemoveVariation of pkg/feature/domain/feature.go on consistent features.
use bucketeer.Prelude.{
  ℤ, String, Bool, List, [], ◌∷◌, map, Option, none, some, ◌≡◌, ◌≢◌, ◌∙◌, sym, refl, false, not,
  contains-erase_ne, erase, map-erase_at, All, All-erase_at, Safe, Safe-bind, Safe-map, deref,
  eq-false, eq_iff, ◌==◌, arith, ap, or_err-Safe, guard, guard-Safe, subst, if_ind,
}
use bucketeer.Feature.Model.{
  Error, Feature, Strategy, StrategyType, FixedStrategy, RolloutStrategy, RolloutVariation, Rule,
  variation_not_found, target_not_found, variation_in_use,
}
use bucketeer.Feature.Lookup.{
  variation_ids, variation_id, target_variation, rule_id, find_variation_index, find_target,
}
use bucketeer.Feature.Variations.{
  on_rollout, has_weight, strategy_contains_variation, rules_contains_variation,
  validate_remove_variation, remove_entry, remove_variation_from_rollout_strategy,
  remove_variation_from_rules, is_rollout, remove_variation_from_default_strategy, remove_target,
  remove_variation,
}
use bucketeer.Feature.WellFormed.{
  WellFormed, Known, Serves, ServesType, ServesEntry, RuleServes, Unique, UniqueUsers,
  deref_strategy-Safe,
}
use bucketeer.Feature.WellFormed.Variations.Add.{on_rollout-Serves}

module _ (ids : List String) (id : String) where
  abbrev fewer_ids : List String
  fewer_ids = erase id ids

  Known-fewer : (v : String) → v ≢ id → Known ids v → Known fewer_ids v
  Known-fewer v h k = rw (contains-erase_ne id v ids h) k

  -- Without a positive weight on `id` the entries need only the other ids.
  entries-Serve :
      (rs : List RolloutVariation)
      → has_weight id rs ≡ false
      → All (ServesEntry ids) rs
      → All (ServesEntry fewer_ids) rs
  unfolding has_weight
  entries-Serve [] e h = tt
  entries-Serve (r ∷ rs) e h = (
    (λ positive.
        Known-fewer r.variation (λ same. ground (arith, eq_iff r.variation id)) (h.0 positive)),
    entries-Serve rs (ground arith) h.1,
  )

  strategy_contains-Safe :
      (o : Option Strategy)
      → Serves ids o
      → Safe (λ used. used ≡ false → Serves fewer_ids o) (strategy_contains_variation id o)
  unfolding strategy_contains_variation
  strategy_contains-Safe none h = h
  strategy_contains-Safe (some s) h = by_type s.type s.fixed_strategy s.rollout_strategy h
    where
      by_type :
          (t : StrategyType) (f : Option FixedStrategy) (r : Option RolloutStrategy)
          → ServesType ids t (record { type = t; fixed_strategy = f; rollout_strategy = r })
          → Safe
              (λ used.
                used ≡ false
                → Serves fewer_ids
                    (some (record { type = t; fixed_strategy = f; rollout_strategy = r })))
              (strategy_contains_variation id
                (some (record { type = t; fixed_strategy = f; rollout_strategy = r })))
      by_type StrategyType.fixed (some x) r h =
          λ e. Known-fewer x.variation (eq-false x.variation id e) h
      by_type StrategyType.fixed none r h = h
      by_type StrategyType.rollout f (some x) h = λ e. entries-Serve x.variations e h
      by_type StrategyType.rollout f none h = h
      by_type (StrategyType.unknown n) f r h = λ e. h

  rules_contains-Safe :
      (rs : List Rule)
      → All (RuleServes ids) rs
      → Safe (λ used. used ≡ false → All (RuleServes fewer_ids) rs) (rules_contains_variation id rs)
  unfolding rules_contains_variation
  rules_contains-Safe [] h = λ e. tt
  rules_contains-Safe (r ∷ rs) h =
      let Q : Bool → Type 0 = λ used. used ≡ false → All (RuleServes fewer_ids) (r ∷ rs) in
      Safe-bind _ Q (strategy_contains_variation id r.strategy) _
        (strategy_contains-Safe r.strategy h.0)
        λ used k.
          if_ind (Safe Q) used (λ e f. cc)
            λ e.
              Safe-map _ _ (rules_contains_variation id rs) (λ later g f. (k e, g f))
                (rules_contains-Safe rs h.1)

  validate_remove-Safe :
      (f : Feature)
      → Serves ids f.default_strategy
      → All (RuleServes ids) f.rules
      → Safe
          (λ _.
            Serves fewer_ids f.default_strategy
            × All (RuleServes fewer_ids) f.rules
            × (f.off_variation ≢ id))
          (validate_remove_variation id f)
  unfolding validate_remove_variation
  validate_remove-Safe f d r =
      let Q : Unit {0} → Type 0 = λ _.
        Serves fewer_ids f.default_strategy
        × All (RuleServes fewer_ids) f.rules
        × (f.off_variation ≢ id) in
      Safe-bind _ Q (strategy_contains_variation id f.default_strategy) _
        (strategy_contains-Safe f.default_strategy d)
        λ u hd.
          Safe-bind _ Q (guard (not u) variation_in_use) _ (guard-Safe (not u) variation_in_use)
            λ _ eu.
              Safe-bind _ Q (rules_contains_variation id f.rules) _ (rules_contains-Safe f.rules r)
                λ v hr.
                  Safe-bind _ Q (guard (not v) variation_in_use) _
                    (guard-Safe (not v) variation_in_use)
                    λ _ ev.
                      Safe-map _ Q (guard (not (f.off_variation == id)) variation_in_use)
                        (λ _ eo. (
                          hd (ground arith),
                          hr (ground arith),
                          eq-false f.off_variation id (ground arith),
                        ))
                        (guard-Safe (not (f.off_variation == id)) variation_in_use)

  remove_entry-Serves :
      (rs : List RolloutVariation)
      → All (ServesEntry fewer_ids) rs
      → All (ServesEntry fewer_ids) (remove_entry id rs)
  unfolding remove_entry
  remove_entry-Serves [] h = tt
  remove_entry-Serves (r ∷ rs) h =
      if_ind (All (ServesEntry fewer_ids)) (r.variation == id) (λ _. h.1)
        (λ _. (h.0, remove_entry-Serves rs h.1))

  remove_from_strategy-Safe :
      (s : Strategy)
      → Serves fewer_ids (some s)
      → Safe {E = Error}
          (λ s'. Serves fewer_ids (some s'))
          (on_rollout (remove_variation_from_rollout_strategy id) s.type s)
  unfolding remove_variation_from_rollout_strategy
  remove_from_strategy-Safe s h =
      on_rollout-Serves fewer_ids fewer_ids (remove_variation_from_rollout_strategy id) s
        (λ r. remove_entry-Serves r.variations) h (λ k. k)

  remove_from_rules-Safe :
      (rs : List Rule)
      → All (RuleServes fewer_ids) rs
      → Safe
          (λ rs'. All (RuleServes fewer_ids) rs' × (map rule_id rs' ≡ map rule_id rs))
          (remove_variation_from_rules id rs)
  unfolding remove_variation_from_rules
  remove_from_rules-Safe [] h = (tt, refl)
  remove_from_rules-Safe (r ∷ rs) h =
      let Q : List Rule → Type 0 =
        λ rs'. All (RuleServes fewer_ids) rs' × (map rule_id rs' ≡ map rule_id (r ∷ rs)) in
      Safe-bind _ Q (deref r.strategy) _ (deref_strategy-Safe fewer_ids r.strategy h.0) λ s serves.
        if_ind (Safe Q) (is_rollout s.type)
          (λ _.
            Safe-bind _ Q (on_rollout (remove_variation_from_rollout_strategy id) s.type s) _
              (remove_from_strategy-Safe s serves) λ s' serves'. ((serves', h.1), refl))
          (λ _.
            Safe-bind _ Q (remove_variation_from_rules id rs) _ (remove_from_rules-Safe rs h.1)
              λ rs' k. ((h.0, k.0), rw k.1))

  remove_from_default-Safe :
      (o : Option Strategy)
      → Serves fewer_ids o
      → Safe (Serves fewer_ids) (remove_variation_from_default_strategy id o)
  unfolding remove_variation_from_default_strategy
  remove_from_default-Safe none h = h
  remove_from_default-Safe (some s) h =
      Safe-bind _ (Serves fewer_ids)
        (on_rollout (remove_variation_from_rollout_strategy id) s.type s) _
        (remove_from_strategy-Safe s h) λ s' h'. h'

remove_target-Safe :
    (id : String) (f : Feature)
    → WellFormed f
    → Safe
        (λ ts.
          (map target_variation ts ≡ erase id (variation_ids f.variations)) × All UniqueUsers ts)
        (remove_target id f)
unfolding remove_target find_target
remove_target-Safe id f w =
    Safe-bind _ _ (find_target id f) _ (or_err-Safe _ target_not_found) λ j found. (
      map-erase_at target_variation id f.targets j found ∙ ap (erase id) w.aligned,
      All-erase_at UniqueUsers f.targets j w.users_unique,
    )

-- Removing a variation from a consistent feature does not panic, and where it is not refused the
-- feature stays consistent: no strategy that may serve a user and no off variation names it, and
-- the targets still match the variations.
pub remove_variation-WellFormed :
    (id : String) (now : ℤ) (f : Feature)
    → WellFormed f
    → Safe WellFormed (remove_variation id now f)
unfolding remove_variation find_variation_index
remove_variation-WellFormed id now f w =
    Safe-bind _ WellFormed (find_variation_index id f) _ (or_err-Safe _ variation_not_found)
      λ i found.
        Safe-bind _ WellFormed (validate_remove_variation id f) _
          (validate_remove-Safe ids id f w.default_serves w.rules_serve)
          λ _ unused.
            Safe-bind _ WellFormed (remove_target id f) _ (remove_target-Safe id f w) λ targets t.
              Safe-bind _ WellFormed (remove_variation_from_rules id f.rules) _
                (remove_from_rules-Safe ids id f.rules unused.1)
                λ rules r.
                  Safe-bind _ WellFormed
                    (remove_variation_from_default_strategy id f.default_strategy) _
                    (remove_from_default-Safe ids id f.default_strategy unused.0)
                    λ d serves.
                      let same = sym (map-erase_at variation_id id f.variations i found) in
                      record {
                        aligned = t.0 ∙ same;
                        off_known =
                            subst (λ l. Known l f.off_variation) same
                              (Known-fewer ids id f.off_variation unused.2 w.off_known);
                        default_serves = subst (λ l. Serves l d) same serves;
                        rules_serve = subst (λ l. All (RuleServes l) rules) same r.0;
                        rules_unique = subst Unique (sym r.1) w.rules_unique;
                        users_unique = t.1;
                      }
  where
    ids : List String
    ids = variation_ids f.variations
