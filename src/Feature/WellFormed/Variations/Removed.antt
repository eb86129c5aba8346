-- ===== src/Feature/WellFormed/Variations/Removed.antt =====
-- When RemoveVariation of pkg/feature/domain/feature.go refuses, and what it makes of a consistent
-- feature when it does not.
use bucketeer.Prelude.{
  ℕ, ℤ, suc, String, Bool, true, false, not, ◌||◌, List, [], ◌∷◌, map, Option, none, some, ◌≡◌,
  refl, sym, ap, ◌∙◌, if◌then◌else◌, ◌==◌, All, Result, ok, err, ◌>>=◌, ◌>>◌, deref, guard,
  index_by, erase_at, index_by-of_contains,
}
use mathlib.Core.Option
use bucketeer.Feature.Model.{
  Error, variation_in_use, Feature, Strategy, StrategyType, FixedStrategy, RolloutStrategy,
  RolloutVariation, Rule,
}
use bucketeer.Feature.Lookup.{
  variation_ids, variation_id, target_variation, find_variation_index, find_target,
}
use bucketeer.Feature.Variations.{
  strategy_contains_variation, rules_contains_variation, validate_remove_variation, remove_entry,
  remove_variation_from_rollout_strategy, remove_variation_from_rules, is_rollout, on_rollout,
  remove_variation_from_default_strategy, remove_target, remove_variation,
}
use bucketeer.Feature.WellFormed.{WellFormed, Known, Serves, ServesType, RuleServes}
use bucketeer.Feature.WellFormed.Variations.Reduced.{
  type_serves, may_serve, some_rule_serves, in_use, entry_variation, cut_at, cut, cut_if,
  has_rollout, cut_rules, reduced_feature,
}

module _ (ids : List String) (id : String) where
  contains-serve :
      (o : Option Strategy) → Serves ids o → strategy_contains_variation id o ≡ ok (may_serve id o)
  unfolding strategy_contains_variation
  contains-serve none h = absurd h
  contains-serve (some s) h = by_type s.type s.fixed_strategy s.rollout_strategy h
    where
      by_type :
          (t : StrategyType) (f : Option FixedStrategy) (r : Option RolloutStrategy)
          → ServesType ids t (record { type = t; fixed_strategy = f; rollout_strategy = r })
          → strategy_contains_variation id
              (some (record { type = t; fixed_strategy = f; rollout_strategy = r }))
            ≡ ok (type_serves id t f r)
      by_type StrategyType.fixed (some x) r h = refl
      by_type StrategyType.fixed none r h = absurd h
      by_type StrategyType.rollout f (some x) h = refl
      by_type StrategyType.rollout f none h = absurd h
      by_type (StrategyType.unknown n) f r h = absurd h

  rules_contains-serve :
      (rs : List Rule)
      → All (RuleServes ids) rs
      → rules_contains_variation id rs ≡ ok (some_rule_serves id rs)
  unfolding rules_contains_variation
  rules_contains-serve [] h = refl
  rules_contains-serve (r ∷ rs) (h, k) =
      ap (λ m. m >>= λ u. if u then ok true else rules_contains_variation id rs)
        (contains-serve r.strategy h)
      ∙ by_use (may_serve id r.strategy) (rules_contains-serve rs k)
    where
      by_use :
          (u : Bool)
          → rules_contains_variation id rs ≡ ok (some_rule_serves id rs)
          → Path
              (Result Error Bool)
              (if u then ok true else rules_contains_variation id rs)
              (ok (u || some_rule_serves id rs))
      by_use true e = refl
      by_use false e = e

  remove_entry-cut :
      (vs : List RolloutVariation) → remove_entry id vs ≡ cut_at vs (index_by entry_variation id vs)
  unfolding remove_entry index_by erase_at
  remove_entry-cut [] = refl
  remove_entry-cut (v ∷ vs) =
      by_name (v.variation == id) (index_by entry_variation id vs) (remove_entry-cut vs)
    where
      by_name :
          (b : Bool) (o : Option ℕ)
          → remove_entry id vs ≡ cut_at vs o
          → (if b then vs else v ∷ remove_entry id vs)
            ≡ cut_at (v ∷ vs) (if b then some 0 else Option.map suc o)
      by_name true o e = refl
      by_name false none e = ap (λ ws. v ∷ ws) e
      by_name false (some i) e = ap (λ ws. v ∷ ws) e

  on_rollout-cut :
      (s : Strategy)
      → Serves ids (some s)
      → on_rollout (remove_variation_from_rollout_strategy id) s.type s ≡ ok (cut id s)
  unfolding remove_variation_from_rollout_strategy
  on_rollout-cut s h = by_type s.type s.fixed_strategy s.rollout_strategy h
    where
      by_type :
          (t : StrategyType) (f : Option FixedStrategy) (r : Option RolloutStrategy)
          → ServesType ids t (record { type = t; fixed_strategy = f; rollout_strategy = r })
          → on_rollout
              (remove_variation_from_rollout_strategy id)
              t
              (record { type = t; fixed_strategy = f; rollout_strategy = r })
            ≡ ok (cut id (record { type = t; fixed_strategy = f; rollout_strategy = r }))
      by_type StrategyType.fixed f r h = refl
      by_type StrategyType.rollout f (some x) h = rw (remove_entry-cut x.variations) refl
      by_type StrategyType.rollout f none h = absurd h
      by_type (StrategyType.unknown n) f r h = refl

  default-cut :
      (o : Option Strategy)
      → Serves ids o
      → remove_variation_from_default_strategy id o ≡ ok (cut_if id o)
  unfolding remove_variation_from_default_strategy
  default-cut none h = absurd h
  default-cut (some s) h = rw (on_rollout-cut s h) refl

  one_rule :
      (o : Option Strategy) (r : Rule) (rs : List Rule) (rest : Result Error (List Rule))
      → Serves ids o
      → r.strategy ≡ o
      → rest ≡ ok (cut_rules id rs)
      → (do
        s ← deref o
        if is_rollout s.type
            then (do
              s' ← on_rollout (remove_variation_from_rollout_strategy id) s.type s
              ok (record r { strategy = some s' } ∷ rs))
            else (do rs' ← rest; ok (r ∷ rs')))
        ≡ ok (
            if has_rollout o then record r { strategy = cut_if id o } ∷ rs else r ∷ cut_rules id rs)
  one_rule none r rs rest h at e = absurd h
  one_rule (some s) r rs rest h at e = rw (on_rollout-cut s h, e) (by_type (is_rollout s.type))
    where
      by_type :
          (b : Bool)
          → Path
              (Result Error (List Rule))
              (if b
                then ok (record r { strategy = some (cut id s) } ∷ rs)
                else ok (r ∷ cut_rules id rs))
              (ok (if b then record r { strategy = some (cut id s) } ∷ rs else r ∷ cut_rules id rs))
      by_type true = refl
      by_type false = refl

  rules-cut :
      (rs : List Rule)
      → All (RuleServes ids) rs
      → remove_variation_from_rules id rs ≡ ok (cut_rules id rs)
  unfolding remove_variation_from_rules
  rules-cut [] h = refl
  rules-cut (r ∷ rs) h =
      one_rule r.strategy r rs (remove_variation_from_rules id rs) h.0 refl (rules-cut rs h.1)

-- The check refuses a variation in use, and no other.
validate_remove-in_use :
    (id : String) (f : Feature)
    → WellFormed f
    → validate_remove_variation id f ≡ (if in_use id f then err variation_in_use else ok tt)
unfolding validate_remove_variation
validate_remove-in_use id f w =
    rw
      (
        contains-serve (variation_ids f.variations) id f.default_strategy w.default_serves,
        rules_contains-serve (variation_ids f.variations) id f.rules w.rules_serve,
      )
      (by_uses (may_serve id f.default_strategy) (some_rule_serves id f.rules)
        (f.off_variation == id))
  where
    by_uses :
        (a b c : Bool)
        → Path
            (Result Error (Unit {0}))
            (guard (not a) variation_in_use
              >> (guard (not b) variation_in_use >> guard (not c) variation_in_use))
            (if a || b || c then err variation_in_use else ok tt)
    by_uses true b c = refl
    by_uses false true c = refl
    by_uses false false true = refl
    by_uses false false false = refl

-- The position of a key depends on the keys only.
index_by-keys :
    {A : Type 0} (key : A → String) (k : String) (xs : List A)
    → index_by key k xs ≡ index_by (λ x. x) k (map key xs)
unfolding index_by
index_by-keys key k [] = refl
index_by-keys key k (x ∷ xs) =
    ap (λ o. if key x == k then some 0 else Option.map suc o) (index_by-keys key k xs)

-- Removing a variation that a consistent feature has never panics. It is refused, as in use,
-- exactly where the default strategy or a rule may serve it (by a fixed strategy or by a positive
-- weight) or the off variation is it. Otherwise the variation and its target, which stand at the
-- same position, are taken out, the first entry for the variation is cut out of the default
-- strategy and of the first rule with a rollout, and nothing else is changed but the time.
pub remove_variation-reduced :
    (id : String) (now : ℤ) (f : Feature)
    → WellFormed f
    → Known (variation_ids f.variations) id
    → (i : ℕ) × (index_by variation_id id f.variations ≡ some i)
      × (index_by target_variation id f.targets ≡ some i)
      × (remove_variation id now f
          ≡ (if in_use id f then err variation_in_use else ok (reduced_feature id i now f)))
unfolding remove_variation find_variation_index remove_target find_target
remove_variation-reduced id now f w known =
    let (i, found) = index_by-of_contains variation_id id f.variations known in
    let target : index_by target_variation id f.targets ≡ some i =
      index_by-keys target_variation id f.targets
      ∙ ap (index_by (λ x. x) id) w.aligned
      ∙ sym (index_by-keys variation_id id f.variations)
      ∙ found in
    (
      i,
      found,
      target,
      rw
          (
            found,
            validate_remove-in_use id f w,
            target,
            rules-cut (variation_ids f.variations) id f.rules w.rules_serve,
            default-cut (variation_ids f.variations) id f.default_strategy w.default_serves,
          )
          (by_use i (in_use id f)),
    )
  where
    by_use :
        (i : ℕ) (u : Bool)
        → Path
            (Result Error Feature)
            ((if u then err variation_in_use else ok tt) >> ok (reduced_feature id i now f))
            (if u then err variation_in_use else ok (reduced_feature id i now f))
    by_use i true = refl
    by_use i false = refl
