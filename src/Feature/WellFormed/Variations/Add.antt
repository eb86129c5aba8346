-- ===== src/Feature/WellFormed/Variations/Add.antt =====
-- AddVariation and the changes of a variation's texts (pkg/feature/domain/feature.go) on consistent
-- features.
use bucketeer.Prelude.{
  ℤ, ℕ, String, List, [], ◌∷◌, ◌++◌, map, Option, none, some, ◌≡◌, ◌∙◌, sym, refl, contains,
  contains-append, All, All-append, All-map, Safe, Safe-bind, deref, eq_refl, map-append_one, arith,
  ap, or_err-Safe, guard_trivial, read, map-set, set, get_elem?, subst,
}
use bucketeer.Feature.Model.{
  Error, Feature, Variation, Strategy, StrategyType, FixedStrategy, RolloutStrategy, Rule,
  variation_not_found, variation_type_unmatched, VariationType, boolean, number, json, string,
}
use bucketeer.Feature.Lookup.{
  variation_ids, variation_id, target_variation, rule_id, find_variation_index,
}
use bucketeer.Feature.Variations.{
  Parsers, validate_variation, add_variation_to_rollout_strategy, on_rollout,
  add_variation_to_rules, add_variation_to_default_strategy, add_variation, change_variation_value,
  change_variation_name, change_variation_description,
}
use bucketeer.Feature.WellFormed.{
  WellFormed, Known, Serves, ServesType, ServesEntry, RuleServes, Serves-mono, read-Safe, Unique,
  UniqueUsers, deref_strategy-Safe,
}

-- A change of the rollout part that keeps its entries served keeps the strategy served.
pub on_rollout-Serves :
    (ids ids' : List String) (change : RolloutStrategy → RolloutStrategy) (s : Strategy)
    → ((r : RolloutStrategy)
        → All (ServesEntry ids) r.variations
        → All (ServesEntry ids') (change r).variations)
    → Serves ids (some s)
    → (Serves ids (some s) → Serves ids' (some s))
    → Safe {E = Error} (λ s'. Serves ids' (some s')) (on_rollout change s.type s)
on_rollout-Serves ids ids' change s keeps h more =
    by_type s.type s.fixed_strategy s.rollout_strategy h more
  where
    by_type :
        (t : StrategyType) (f : Option FixedStrategy) (r : Option RolloutStrategy)
        → ServesType ids t (record { type = t; fixed_strategy = f; rollout_strategy = r })
        → (ServesType ids t (record { type = t; fixed_strategy = f; rollout_strategy = r })
            → ServesType ids' t (record { type = t; fixed_strategy = f; rollout_strategy = r }))
        → Safe {E = Error}
            (λ s'. Serves ids' (some s'))
            (on_rollout change t (record { type = t; fixed_strategy = f; rollout_strategy = r }))
    by_type StrategyType.fixed f r h more = more h
    by_type StrategyType.rollout f (some x) h more = keeps x h
    by_type StrategyType.rollout f none h more = h
    by_type (StrategyType.unknown n) f r h more = more h

module _ (ids : List String) (id : String) where
  abbrev more_ids : List String
  more_ids = ids ++ id ∷ []

  Known-more : (v : String) → Known ids v → Known more_ids v
  Known-more v h = rw contains-append (rw h)

  Known-new : Known more_ids id
  unfolding contains
  Known-new = ground (arith, contains-append id ids (id ∷ []), eq_refl id)

  -- The new entry has no weight.
  add_entry-Serves :
      (r : RolloutStrategy)
      → All (ServesEntry ids) r.variations
      → All (ServesEntry more_ids) (add_variation_to_rollout_strategy id r).variations
  unfolding add_variation_to_rollout_strategy
  add_entry-Serves r h =
      All-append (ServesEntry more_ids) r.variations _
        (All-map (ServesEntry ids) (ServesEntry more_ids) r.variations
          (λ v k e. Known-more v.variation (k e)) h)
        (λ _. Known-new)

  add_to_strategy-Safe :
      (s : Strategy)
      → Serves ids (some s)
      → Safe {E = Error}
          (λ s'. Serves more_ids (some s'))
          (on_rollout (add_variation_to_rollout_strategy id) s.type s)
  add_to_strategy-Safe s h =
      on_rollout-Serves ids more_ids (add_variation_to_rollout_strategy id) s add_entry-Serves h
        (Serves-mono ids more_ids (some s) Known-more)

  add_variation_to_rules-Safe :
      (rs : List Rule)
      → All (RuleServes ids) rs
      → Safe
          (λ rs'. All (RuleServes more_ids) rs' × (map rule_id rs' ≡ map rule_id rs))
          (add_variation_to_rules id rs)
  unfolding add_variation_to_rules
  add_variation_to_rules-Safe [] h = (tt, refl)
  add_variation_to_rules-Safe (r ∷ rs) h =
      let Q : List Rule → Type 0 =
        λ rs'. All (RuleServes more_ids) rs' × (map rule_id rs' ≡ map rule_id (r ∷ rs)) in
      Safe-bind _ Q (deref r.strategy) _ (deref_strategy-Safe ids r.strategy h.0) λ s serves.
        Safe-bind _ Q (on_rollout (add_variation_to_rollout_strategy id) s.type s) _
          (add_to_strategy-Safe s serves)
          λ s' serves'.
            Safe-bind _ Q (add_variation_to_rules id rs) _ (add_variation_to_rules-Safe rs h.1)
              λ rs' k. ((serves', k.0), rw k.1)

  add_variation_to_default_strategy-Safe :
      (o : Option Strategy)
      → Serves ids o
      → Safe (Serves more_ids) (add_variation_to_default_strategy id o)
  unfolding add_variation_to_default_strategy
  add_variation_to_default_strategy-Safe none h = h
  add_variation_to_default_strategy-Safe (some s) h =
      Safe-bind _ (Serves more_ids) (on_rollout (add_variation_to_rollout_strategy id) s.type s) _
        (add_to_strategy-Safe s h) λ s' h'. h'

pub validate_variation-Safe :
    (p : Parsers) (t : VariationType) (value : String)
    → Safe (λ _. Unit {0}) (validate_variation p t value)
unfolding validate_variation
validate_variation-Safe p boolean value = guard_trivial _ variation_type_unmatched
validate_variation-Safe p number value = guard_trivial _ variation_type_unmatched
validate_variation-Safe p json value = guard_trivial _ variation_type_unmatched
validate_variation-Safe p string value = tt
validate_variation-Safe p (VariationType.unknown n) value = tt

-- Adding a variation to a consistent feature does not panic, and where the value fits the type the
-- feature stays consistent: the variation has its target, and an entry in each rollout never serves
-- a variation that is not there.
pub add_variation-WellFormed :
    (p : Parsers) (id value name description : String) (now : ℤ) (f : Feature)
    → WellFormed f
    → Safe WellFormed (add_variation p id value name description now f)
unfolding add_variation
add_variation-WellFormed p id value name description now f w =
    Safe-bind _ WellFormed (validate_variation p f.variation_type value) _
      (validate_variation-Safe p f.variation_type value)
      λ _ _.
        Safe-bind _ WellFormed (add_variation_to_rules id f.rules) _
          (add_variation_to_rules-Safe ids id f.rules w.rules_serve)
          λ rules h.
            Safe-bind _ WellFormed (add_variation_to_default_strategy id f.default_strategy) _
              (add_variation_to_default_strategy-Safe ids id f.default_strategy w.default_serves)
              λ default_strategy d. record {
                aligned =
                    map-append_one target_variation f.targets _
                    ∙ ap (λ l. l ++ id ∷ []) w.aligned
                    ∙ sym grown;
                off_known =
                    subst (λ l. Known l f.off_variation) (sym grown)
                      (Known-more ids id f.off_variation w.off_known);
                default_serves = subst (λ l. Serves l default_strategy) (sym grown) d;
                rules_serve = subst (λ l. All (RuleServes l) rules) (sym grown) h.0;
                rules_unique = subst Unique (sym h.1) w.rules_unique;
                users_unique = All-append UniqueUsers f.targets _ w.users_unique tt;
              }
  where
    ids : List String
    ids = variation_ids f.variations

    grown :
        variation_ids (
          f.variations
          ++ record { id = id; value = value; name = name; description = description } ∷ [])
        ≡ ids ++ id ∷ []
    grown = map-append_one variation_id f.variations _

-- A variation whose texts change keeps its id.
set_variation-WellFormed :
    (f : Feature) (now : ℤ) (i : ℕ) (old new : Variation)
    → WellFormed f
    → get_elem? f.variations i ≡ some old
    → new.id ≡ old.id
    → WellFormed (record f { variations = set f.variations i new; updated_at = now })
set_variation-WellFormed f now i old new w at same =
    let kept = sym (map-set variation_id f.variations i old new at same) in
    record {
      aligned = w.aligned ∙ kept;
      off_known = subst (λ l. Known l f.off_variation) kept w.off_known;
      default_serves = subst (λ l. Serves l f.default_strategy) kept w.default_serves;
      rules_serve = subst (λ l. All (RuleServes l) f.rules) kept w.rules_serve;
      rules_unique = w.rules_unique;
      users_unique = w.users_unique;
    }

-- Each of the three operations that change a variation's texts.
module _ (id text : String) (now : ℤ) (f : Feature) (w : WellFormed f) where
  pub change_variation_value-WellFormed : Safe WellFormed (change_variation_value id text now f)
  unfolding change_variation_value find_variation_index
  change_variation_value-WellFormed =
      Safe-bind _ WellFormed (find_variation_index id f) _ (or_err-Safe _ variation_not_found)
        λ i found.
          Safe-bind _ WellFormed (read f.variations i) _
            (read-Safe variation_id id f.variations i found)
            λ v at. set_variation-WellFormed f now i v (record v { value = text }) w at.0 refl

  pub change_variation_name-WellFormed : Safe WellFormed (change_variation_name id text now f)
  unfolding change_variation_name find_variation_index
  change_variation_name-WellFormed =
      Safe-bind _ WellFormed (find_variation_index id f) _ (or_err-Safe _ variation_not_found)
        λ i found.
          Safe-bind _ WellFormed (read f.variations i) _
            (read-Safe variation_id id f.variations i found)
            λ v at. set_variation-WellFormed f now i v (record v { name = text }) w at.0 refl

  pub change_variation_description-WellFormed :
      Safe WellFormed (change_variation_description id text now f)
  unfolding change_variation_description find_variation_index
  change_variation_description-WellFormed =
      Safe-bind _ WellFormed (find_variation_index id f) _ (or_err-Safe _ variation_not_found)
        λ i found.
          Safe-bind _ WellFormed (read f.variations i) _
            (read-Safe variation_id id f.variations i found)
            λ v at. set_variation-WellFormed f now i v (record v { description = text }) w at.0 refl
