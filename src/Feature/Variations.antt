-- ===== src/Feature/Variations.antt =====
-- The operations of pkg/feature/domain/feature.go on the variations: adding one, removing one with
-- the checks that it is not in use, and editing its texts.
use bucketeer.Prelude.{
  ℤ, pos, String, Bool, true, false, not, ◌&&◌, ◌||◌, List, [], ◌∷◌, ◌++◌, Option, none, some,
  if◌then◌else◌, ltb_ℤ, ◌==◌, erase_at, set, read, deref, guard, Result, ok, ◌>>=◌, ◌>>◌,
}
use bucketeer.Feature.Model.{
  Error, variation_in_use, variation_type_unmatched, VariationType, string, boolean, number, json,
  unknown, Variation, Target, Strategy, StrategyType, RolloutStrategy, RolloutVariation, Rule,
  Feature,
}
use bucketeer.Feature.Lookup.{Outcome, find_variation_index, find_target}

-- The parsers of the standard library that a value is tried with: `strconv.ParseFloat(value, 64)`
-- and `json.Unmarshal` into a map. Only whether they accept a text matters here.
pub record Parsers : Type 0 where
  pub is_float : String → Bool
  pub is_json_object : String → Bool

unfoldable pub validate_variation : Parsers → VariationType → String → Result Error (Unit {0})
validate_variation p boolean value =
    guard (value == "true" || value == "false") variation_type_unmatched
validate_variation p number value = guard (p.is_float value) variation_type_unmatched
validate_variation p json value = guard (p.is_json_object value) variation_type_unmatched
validate_variation p string value = ok tt
validate_variation p (unknown n) value = ok tt

unfoldable pub add_target : String → Feature → Feature
add_target variation_id f = record f {
  targets = f.targets ++ record { variation = variation_id; users = [] } ∷ [];
}

unfoldable pub add_variation_to_rollout_strategy : String → RolloutStrategy → RolloutStrategy
add_variation_to_rollout_strategy variation_id s = record {
  variations = s.variations ++ record { variation = variation_id; weight = pos 0 } ∷ [];
}

-- A change of the rollout part, made where the strategy's type is ROLLOUT. A nil part panics.
abbrev pub on_rollout :
    (RolloutStrategy → RolloutStrategy) → StrategyType → Strategy → Result Error Strategy
on_rollout change StrategyType.rollout s = do
  r ← deref s.rollout_strategy
  ok (record s { rollout_strategy = some (change r) })
on_rollout change StrategyType.fixed s = ok s
on_rollout change (StrategyType.unknown n) s = ok s

unfoldable pub add_variation_to_rules : String → List Rule → Result Error (List Rule)
add_variation_to_rules id [] = ok []
add_variation_to_rules id (r ∷ rs) = do
  s ← deref r.strategy
  s' ← on_rollout (add_variation_to_rollout_strategy id) s.type s
  rs' ← add_variation_to_rules id rs
  ok (record r { strategy = some s' } ∷ rs')

unfoldable pub add_variation_to_default_strategy :
    String → Option Strategy → Result Error (Option Strategy)
add_variation_to_default_strategy id none = ok none
add_variation_to_default_strategy id (some s) = do
  s' ← on_rollout (add_variation_to_rollout_strategy id) s.type s
  ok (some s')

unfoldable pub add_variation : Parsers → String → String → String → String → ℤ → Feature → Outcome
unfolding add_target
add_variation p id value name description now f = do
  validate_variation p f.variation_type value
  let variation : Variation = record {
    id = id;
    value = value;
    name = name;
    description = description;
  }
  let g = add_target id (record f { variations = f.variations ++ variation ∷ [] })
  rules ← add_variation_to_rules id g.rules
  default_strategy ← add_variation_to_default_strategy id g.default_strategy
  ok (record g { rules = rules; default_strategy = default_strategy; updated_at = now })

-- `v.Variation == id && v.Weight > 0` for some variation of a rollout.
unfoldable pub has_weight : String → List RolloutVariation → Bool
has_weight id [] = false
has_weight id (v ∷ vs) = (v.variation == id && ltb_ℤ (pos 0) v.weight) || has_weight id vs

contains_by_type : String → StrategyType → Strategy → Result Error Bool
contains_by_type id StrategyType.fixed s = do
  fixed ← deref s.fixed_strategy
  ok (fixed.variation == id)
contains_by_type id StrategyType.rollout s = do
  rollout ← deref s.rollout_strategy
  ok (has_weight id rollout.variations)
contains_by_type id (StrategyType.unknown n) s = ok false

unfoldable pub strategy_contains_variation : String → Option Strategy → Result Error Bool
unfolding contains_by_type
strategy_contains_variation id s = do strategy ← deref s; contains_by_type id strategy.type strategy

unfoldable pub rules_contains_variation : String → List Rule → Result Error Bool
rules_contains_variation id [] = ok false
rules_contains_variation id (r ∷ rs) =
    let rest = rules_contains_variation id rs in
    strategy_contains_variation id r.strategy >>= λ used. if used then ok true else rest

unfoldable pub validate_remove_variation : String → Feature → Result Error (Unit {0})
validate_remove_variation id f = do
  by_default ← strategy_contains_variation id f.default_strategy
  guard (not by_default) variation_in_use
  by_rules ← rules_contains_variation id f.rules
  guard (not by_rules) variation_in_use
  guard (not (f.off_variation == id)) variation_in_use

-- The first entry for the variation is cut out of the slice.
unfoldable pub remove_entry : String → List RolloutVariation → List RolloutVariation
remove_entry id [] = []
remove_entry id (v ∷ vs) = if v.variation == id then vs else v ∷ remove_entry id vs

unfoldable pub remove_variation_from_rollout_strategy : String → RolloutStrategy → RolloutStrategy
remove_variation_from_rollout_strategy id s = record { variations = remove_entry id s.variations }

abbrev pub is_rollout : StrategyType → Bool
is_rollout StrategyType.rollout = true
is_rollout StrategyType.fixed = false
is_rollout (StrategyType.unknown n) = false

-- The loop returns at the first rule with a rollout.
unfoldable pub remove_variation_from_rules : String → List Rule → Result Error (List Rule)
remove_variation_from_rules id [] = ok []
remove_variation_from_rules id (r ∷ rs) =
    let rest = remove_variation_from_rules id rs in
    do
      s ← deref r.strategy
      if is_rollout s.type
          then (do
            s' ← on_rollout (remove_variation_from_rollout_strategy id) s.type s
            ok (record r { strategy = some s' } ∷ rs))
          else (do rs' ← rest; ok (r ∷ rs'))

unfoldable pub remove_variation_from_default_strategy :
    String → Option Strategy → Result Error (Option Strategy)
remove_variation_from_default_strategy id none = ok none
remove_variation_from_default_strategy id (some s) = do
  s' ← on_rollout (remove_variation_from_rollout_strategy id) s.type s
  ok (some s')

unfoldable pub remove_target : String → Feature → Result Error (List Target)
remove_target id f = do idx ← find_target id f; ok (erase_at f.targets idx)

unfoldable pub remove_variation : String → ℤ → Feature → Outcome
remove_variation id now f = do
  idx ← find_variation_index id f
  validate_remove_variation id f
  targets ← remove_target id f
  rules ← remove_variation_from_rules id f.rules
  default_strategy ← remove_variation_from_default_strategy id f.default_strategy
  ok (record f {
    targets = targets;
    rules = rules;
    default_strategy = default_strategy;
    variations = erase_at f.variations idx;
    updated_at = now;
  })

unfoldable pub change_variation_value : String → String → ℤ → Feature → Outcome
change_variation_value id value now f = do
  idx ← find_variation_index id f
  v ← read f.variations idx
  ok (record f { variations = set f.variations idx (record v { value = value }); updated_at = now })

unfoldable pub change_variation_name : String → String → ℤ → Feature → Outcome
change_variation_name id name now f = do
  idx ← find_variation_index id f
  v ← read f.variations idx
  ok (record f { variations = set f.variations idx (record v { name = name }); updated_at = now })

unfoldable pub change_variation_description : String → String → ℤ → Feature → Outcome
change_variation_description id description now f = do
  idx ← find_variation_index id f
  v ← read f.variations idx
  ok (record f {
    variations = set f.variations idx (record v { description = description });
    updated_at = now;
  })
