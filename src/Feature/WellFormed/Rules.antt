-- ===== src/Feature/WellFormed/Rules.antt =====
-- The operations of Feature/Rules on consistent features (pkg/feature/domain/feature.go).
use bucketeer.Prelude.{
  ℤ, ℕ, String, List, [], ◌∷◌, map, Option, none, some, ◌≡◌, sym, refl, true, false, not, is_some,
  index_by, index_by-none, set, read, deref, guard, Safe, Safe-bind, Safe-map, or_err-Safe,
  guard-Safe, fail_as-Safe, get_elem?, map-set, map-erase_at_pos, map-append_one, All-set,
  All-append, All-erase_at, All-get_elem?, All, Option-cases, subst, inl, inr, contains,
}
use bucketeer.Feature.Model.{
  Feature, Variation, Strategy, StrategyType, FixedStrategy, RolloutStrategy, RolloutVariation,
  Rule, rule_not_found, rule_already_exists, variation_not_found,
}
use bucketeer.Feature.Lookup.{find_rule, find_variation, rule_id, variation_ids}
use bucketeer.Feature.Rules.{
  require_variation, require_variations, validate_fixed_strategy, validate_rollout_strategy,
  validate_strategy, add_rule, delete_rule, change_rule_strategy, change_fixed_strategy,
  change_rollout_strategy, change_default_strategy,
}
use bucketeer.Feature.WellFormed.{
  WellFormed, Unique, Known, Serves, ServesType, ServesEntry, RuleServes, Unique-append,
  Unique-erase_at, read-Safe, find_variation-Safe, deref_strategy-Safe,
}

-- The message carries the strategy and the part that its type asks for.
abbrev pub CompleteType : StrategyType → Strategy → Type 0
CompleteType StrategyType.fixed s = is_some s.fixed_strategy ≡ true
CompleteType StrategyType.rollout s = is_some s.rollout_strategy ≡ true
CompleteType (StrategyType.unknown n) s = Unit

abbrev pub Complete : Option Strategy → Type 0
Complete none = ⊥
Complete (some s) = CompleteType s.type s

require_variation-Safe :
    (v : String) (vs : List Variation)
    → Safe (λ _. Known (variation_ids vs) v) (require_variation v vs)
unfolding require_variation
require_variation-Safe v vs =
    fail_as-Safe _ _ (find_variation v vs) variation_not_found (λ x h. h.1)
      (find_variation-Safe v vs)

require_variations-Safe :
    (rs : List RolloutVariation) (vs : List Variation)
    → Safe (λ _. All (ServesEntry (variation_ids vs)) rs) (require_variations rs vs)
unfolding require_variations
require_variations-Safe [] vs = tt
require_variations-Safe (r ∷ rs) vs =
    Safe-bind _ (λ _. All (ServesEntry (variation_ids vs)) (r ∷ rs))
      (require_variation r.variation vs) _ (require_variation-Safe r.variation vs)
      λ _ h.
        Safe-map _ _ (require_variations rs vs) (λ _ k. ((λ _. h), k))
          (require_variations-Safe rs vs)

-- Validation accepts only strategies that choose known variations, and does not panic on a
-- complete message.
pub validate_strategy-Safe :
    (s : Option Strategy) (vs : List Variation)
    → Complete s
    → Safe (λ _. Serves (variation_ids vs) s) (validate_strategy s vs)
unfolding validate_strategy validate_fixed_strategy validate_rollout_strategy
validate_strategy-Safe none vs c = c
validate_strategy-Safe (some s) vs c = by_type s.type s.fixed_strategy s.rollout_strategy c
  where
    by_type :
        (t : StrategyType) (f : Option FixedStrategy) (r : Option RolloutStrategy)
        → CompleteType t (record { type = t; fixed_strategy = f; rollout_strategy = r })
        → Safe
            (λ _.
              Serves
                (variation_ids vs)
                (some (record { type = t; fixed_strategy = f; rollout_strategy = r })))
            (validate_strategy
              (some (record { type = t; fixed_strategy = f; rollout_strategy = r }))
              vs)
    by_type StrategyType.fixed (some x) r c = require_variation-Safe x.variation vs
    by_type StrategyType.fixed none r c = cc
    by_type StrategyType.rollout f (some x) c = require_variations-Safe x.variations vs
    by_type StrategyType.rollout f none c = cc
    by_type (StrategyType.unknown n) f r c = tt

-- A rule replaced by one with the same id that serves.
pub set_rule-WellFormed :
    (f : Feature) (now : ℤ) (i : ℕ) (old new : Rule)
    → WellFormed f
    → get_elem? f.rules i ≡ some old
    → new.id ≡ old.id
    → RuleServes (variation_ids f.variations) new
    → WellFormed (record f { rules = set f.rules i new; updated_at = now })
set_rule-WellFormed f now i old new w at same serves = record {
  aligned = w.aligned;
  off_known = w.off_known;
  default_serves = w.default_serves;
  rules_serve =
      All-set (RuleServes (variation_ids f.variations)) f.rules i new w.rules_serve serves;
  rules_unique = subst Unique (sym (map-set rule_id f.rules i old new at same)) w.rules_unique;
  users_unique = w.users_unique;
}

pub add_rule-WellFormed :
    (rule : Rule) (now : ℤ) (f : Feature)
    → Complete rule.strategy
    → WellFormed f
    → Safe WellFormed (add_rule rule now f)
unfolding add_rule
add_rule-WellFormed rule now f c w =
    Safe-bind _ WellFormed
      (guard (not (is_some (index_by rule_id rule.id f.rules))) rule_already_exists) _
      (guard-Safe _ rule_already_exists)
      λ _ fresh.
        Safe-bind _ WellFormed (validate_strategy rule.strategy f.variations) _
          (validate_strategy-Safe rule.strategy f.variations c)
          λ _ serves. record {
            aligned = w.aligned;
            off_known = w.off_known;
            default_serves = w.default_serves;
            rules_serve =
                All-append (RuleServes (variation_ids f.variations)) f.rules rule w.rules_serve
                  serves;
            rules_unique =
                subst Unique (sym (map-append_one rule_id f.rules rule))
                  (Unique-append (map rule_id f.rules) rule.id w.rules_unique (absent fresh));
            users_unique = w.users_unique;
          }
  where
    absent :
        not (is_some (index_by rule_id rule.id f.rules)) ≡ true
        → contains rule.id (map rule_id f.rules) ≡ false
    absent fresh = elim (Option-cases (index_by rule_id rule.id f.rules)) [
      | inl e ↦ index_by-none rule_id rule.id f.rules e
      | inr (i, e) ↦ cc
    ]

pub delete_rule-WellFormed :
    (rule : String) (now : ℤ) (f : Feature)
    → WellFormed f
    → Safe WellFormed (delete_rule rule now f)
unfolding delete_rule find_rule
delete_rule-WellFormed rule now f w =
    Safe-bind _ WellFormed (find_rule rule f) _ (or_err-Safe _ rule_not_found) λ i _. record {
      aligned = w.aligned;
      off_known = w.off_known;
      default_serves = w.default_serves;
      rules_serve = All-erase_at (RuleServes (variation_ids f.variations)) f.rules i w.rules_serve;
      rules_unique =
          subst Unique (sym (map-erase_at_pos rule_id f.rules i))
            (Unique-erase_at (map rule_id f.rules) i w.rules_unique);
      users_unique = w.users_unique;
    }

pub change_rule_strategy-WellFormed :
    (id : String) (s : Option Strategy) (now : ℤ) (f : Feature)
    → Complete s
    → WellFormed f
    → Safe WellFormed (change_rule_strategy id s now f)
unfolding change_rule_strategy find_rule
change_rule_strategy-WellFormed id s now f c w =
    Safe-bind _ WellFormed (find_rule id f) _ (or_err-Safe _ rule_not_found) λ i found.
      Safe-bind _ WellFormed (validate_strategy s f.variations) _
        (validate_strategy-Safe s f.variations c)
        λ _ serves.
          Safe-bind _ WellFormed (read f.rules i) _ (read-Safe rule_id id f.rules i found)
            λ r at. set_rule-WellFormed f now i r (record r { strategy = s }) w at.0 refl serves

-- A new fixed part on a strategy that served.
fixed_part-Serves :
    (ids : List String) (s : Strategy) (x : FixedStrategy)
    → Serves ids (some s)
    → Known ids x.variation
    → Serves ids (some (record s { fixed_strategy = some x }))
fixed_part-Serves ids s x h k = by_type s.type h
  where
    by_type :
        (t : StrategyType)
        → ServesType ids t s
        → ServesType ids t (record s { fixed_strategy = some x })
    by_type StrategyType.fixed h = k
    by_type StrategyType.rollout h = h
    by_type (StrategyType.unknown n) h = h

rollout_part-Serves :
    (ids : List String) (s : Strategy) (x : RolloutStrategy)
    → Serves ids (some s)
    → All (ServesEntry ids) x.variations
    → Serves ids (some (record s { rollout_strategy = some x }))
rollout_part-Serves ids s x h k = by_type s.type h
  where
    by_type :
        (t : StrategyType)
        → ServesType ids t s
        → ServesType ids t (record s { rollout_strategy = some x })
    by_type StrategyType.fixed h = h
    by_type StrategyType.rollout h = k
    by_type (StrategyType.unknown n) h = h

pub change_fixed_strategy-WellFormed :
    (id : String) (x : FixedStrategy) (now : ℤ) (f : Feature)
    → WellFormed f
    → Safe WellFormed (change_fixed_strategy id (some x) now f)
unfolding change_fixed_strategy find_rule
change_fixed_strategy-WellFormed id x now f w =
    let ids = variation_ids f.variations in
    Safe-bind _ WellFormed (find_rule id f) _ (or_err-Safe _ rule_not_found) λ i found.
      Safe-bind _ WellFormed (find_variation x.variation f.variations) _
        (find_variation-Safe x.variation f.variations)
        λ _ known.
          Safe-bind _ WellFormed (read f.rules i) _ (read-Safe rule_id id f.rules i found) λ r at.
            Safe-bind _ WellFormed (deref r.strategy) _
              (deref_strategy-Safe ids r.strategy
                (All-get_elem? (RuleServes ids) f.rules i r w.rules_serve at.0))
              λ s serves.
                set_rule-WellFormed f now i r
                  (record r { strategy = some (record s { fixed_strategy = some x }) }) w at.0 refl
                  (fixed_part-Serves ids s x serves known.1)

-- Giving a rule of a consistent feature new rollout entries does not panic, and where it is not
-- refused the feature stays consistent.
pub change_rollout_strategy-WellFormed :
    (id : String) (x : RolloutStrategy) (now : ℤ) (f : Feature)
    → WellFormed f
    → Safe WellFormed (change_rollout_strategy id (some x) now f)
unfolding change_rollout_strategy find_rule
change_rollout_strategy-WellFormed id x now f w =
    let ids = variation_ids f.variations in
    Safe-bind _ WellFormed (find_rule id f) _ (or_err-Safe _ rule_not_found) λ i found.
      Safe-bind _ WellFormed (require_variations x.variations f.variations) _
        (require_variations-Safe x.variations f.variations)
        λ _ known.
          Safe-bind _ WellFormed (read f.rules i) _ (read-Safe rule_id id f.rules i found) λ r at.
            Safe-bind _ WellFormed (deref r.strategy) _
              (deref_strategy-Safe ids r.strategy
                (All-get_elem? (RuleServes ids) f.rules i r w.rules_serve at.0))
              λ s serves.
                set_rule-WellFormed f now i r
                  (record r { strategy = some (record s { rollout_strategy = some x }) }) w at.0
                  refl (rollout_part-Serves ids s x serves known)

-- The new strategy is not validated by the operation.
pub change_default_strategy-WellFormed :
    (s : Option Strategy) (now : ℤ) (f : Feature)
    → Serves (variation_ids f.variations) s
    → WellFormed f
    → Safe WellFormed (change_default_strategy s now f)
unfolding change_default_strategy
change_default_strategy-WellFormed s now f serves w = record {
  aligned = w.aligned;
  off_known = w.off_known;
  default_serves = serves;
  rules_serve = w.rules_serve;
  rules_unique = w.rules_unique;
  users_unique = w.users_unique;
}
