-- ===== src/Feature/Lookup.antt =====
-- The searches of pkg/feature/domain/feature.go (findTarget, findVariation, findRule, findClause,
-- findPrerequisite, index). Each loop returns the first position whose key is the one sought.
use bucketeer.Prelude.{
  ℕ, String, List, Option, Result, index_by, or_err, map, ok, err, [], ◌∷◌, ◌==◌, if◌then◌else◌,
}
use bucketeer.Feature.Model.{
  Error, target_not_found, variation_not_found, rule_not_found, prerequisite_not_found,
  value_not_found, Variation, Target, Rule, Clause, Prerequisite, Feature,
}

-- An operation returns the new feature or an error; no operation of the type changes the feature
-- before it returns an error.
abbrev pub Outcome : Type 0
Outcome = Result Error Feature

abbrev pub variation_id : Variation → String
variation_id v = v.id

abbrev pub target_variation : Target → String
target_variation t = t.variation

abbrev pub rule_id : Rule → String
rule_id r = r.id

abbrev pub clause_id : Clause → String
clause_id c = c.id

abbrev pub prerequisite_feature : Prerequisite → String
prerequisite_feature p = p.feature_id

-- The ids of the variations that a feature offers.
abbrev pub variation_ids : List Variation → List String
variation_ids vs = map variation_id vs

unfoldable pub find_target : String → Feature → Result Error ℕ
find_target id f = or_err (index_by target_variation id f.targets) target_not_found

unfoldable pub find_variation_index : String → Feature → Result Error ℕ
find_variation_index id f = or_err (index_by variation_id id f.variations) variation_not_found

unfoldable pub find_rule : String → Feature → Result Error ℕ
find_rule id f = or_err (index_by rule_id id f.rules) rule_not_found

unfoldable pub find_prerequisite : String → Feature → Result Error ℕ
find_prerequisite id f =
    or_err (index_by prerequisite_feature id f.prerequisites) prerequisite_not_found

-- `none` is the index -1, which the code returns together with a nil error.
unfoldable pub find_clause : String → List Clause → Option ℕ
find_clause id clauses = index_by clause_id id clauses

unfoldable pub index : String → List String → Result Error ℕ
index needle haystack = or_err (index_by (λ x. x) needle haystack) value_not_found

unfoldable pub find_variation : String → List Variation → Result Error Variation
find_variation v [] = err variation_not_found
find_variation v (x ∷ vs) = if x.id == v then ok x else find_variation v vs
