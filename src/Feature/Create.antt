-- ===== src/Feature/Create.antt =====
-- `NewFeature` of pkg/feature/domain/feature.go.
use bucketeer.Prelude.{
  ℤ, pos, negsuc, ℕ, suc, String, List, [], ◌∷◌, ◌++◌, Option, none, some, false, read, or_err,
  Result, ok, panic, ◌>>=◌,
}
use bucketeer.Feature.Model.{Error, uuid_error, VariationType, Variation, StrategyType, Feature}
use bucketeer.Feature.Lookup.{Outcome}
use bucketeer.Feature.Settings.{change_off_variation}
use bucketeer.Feature.Rules.{change_default_strategy}
use bucketeer.Feature.Variations.{Parsers, add_variation}

-- `xs[i]` at an `int`.
abbrev pub read_int : {A : Type 0} → List A → ℤ → Result Error A
read_int xs (pos i) = read xs i
read_int xs (negsuc i) = panic

abbrev pub blank : String → String → String → VariationType → String → ℤ → Feature
blank id name description variation_type maintainer now = record {
  id = id;
  name = name;
  description = description;
  enabled = false;
  deleted = false;
  evaluation_undelayable = false;
  ttl = pos 0;
  version = pos 1;
  created_at = now;
  updated_at = pos 0;
  variations = [];
  targets = [];
  rules = [];
  default_strategy = none;
  off_variation = "";
  tags = [];
  last_used_info = none;
  maintainer = maintainer;
  variation_type = variation_type;
  archived = false;
  prerequisites = [];
  sampling_seed = "";
}

-- The loop over the variations given; `new_uuid n` is the answer of the `n`-th call.
unfoldable pub add_variations :
    Parsers → (ℕ → Option String) → ℕ → List Variation → ℤ → Feature → Outcome
add_variations p new_uuid n [] now f = ok f
add_variations p new_uuid n (v ∷ vs) now f = do
  id ← or_err (new_uuid n) uuid_error
  g ← add_variation p id v.value v.name v.description now f
  add_variations p new_uuid (suc n) vs now g

unfoldable pub new_feature :
    Parsers
    → (ℕ → Option String)
    → (id name description : String) → VariationType
    → List Variation
    → List String
    → (on_index off_index : ℤ) → (maintainer : String) → ℤ
    → Outcome
new_feature p new_uuid id name description type variations tags on_index off_index maintainer now =
    do
      f ← add_variations p new_uuid 0 variations now (blank id name description type maintainer now)
      let g : Feature = record f { tags = f.tags ++ tags }
      on ← read_int g.variations on_index
      h ←
          change_default_strategy
            (some (record {
              type = StrategyType.fixed;
              fixed_strategy = some (record { variation = on.id });
              rollout_strategy = none;
            }))
            now g
      off ← read_int h.variations off_index
      change_off_variation off.id now h
