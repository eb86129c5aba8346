-- ===== src/Tests/Features.antt =====
-- Operations of pkg/feature/domain/feature.go on a sample feature.
use bucketeer.Uuid.{
  Uuid, new_uuid, set_variant, set_version, to_string, hex_byte, hyphen, hex_digit,
}
use bucketeer.Uuid.Valid.{new_uuid-valid}
use bucketeer.Api.Identifiers.{is_uuid}
use bucketeer.Prelude.{
  Bool, true, false, not, ◌&&◌, none, inl, if◌then◌else◌, pos, refl, some, [], ◌∷◌, ◌≡◌, ◌==◌,
  panic, ok, contains, Safe, arith, index_by, erase_at, err, ℕ,
}
use bucketeer.Feature.Model.{
  variation_in_use, Feature, FeatureLastUsedInfo, VariationType, Operator,
}
use bucketeer.Feature.LastUsed.{Semver, versioned, set_client_version}
use bucketeer.Feature.LastUsed.Span.{SemverLaws, Spans, seen_with, set_client_version-Spans}
use bucketeer.Feature.Lookup.{
  find_variation_index, find_target, variation_id, variation_ids, target_variation, find_rule,
  find_clause, index,
}
use bucketeer.Feature.Clauses.{
  delete_clause, change_clause_attribute, change_clause_operator, add_clause_value,
  remove_clause_value,
}
use bucketeer.Feature.Targets.{add_user_to_variation, remove_user_from_variation}
use bucketeer.Feature.WellFormed.RoundTrip.{remove_user_from_variation-add_user_to_variation}
use bucketeer.Feature.Variations.{
  remove_variation, remove_target, validate_remove_variation, strategy_contains_variation,
  rules_contains_variation, has_weight, remove_variation_from_rules,
  remove_variation_from_default_strategy, remove_variation_from_rollout_strategy, remove_entry,
}
use bucketeer.Feature.WellFormed.Variations.{in_use, reduced_feature, remove_variation-reduced}
use bucketeer.Feature.Create.{new_feature}
use bucketeer.Feature.WellFormed.{WellFormed, Known}
use bucketeer.Feature.WellFormed.Create.{new_feature-WellFormed}
use bucketeer.Tests.Samples.{toggle, parsers, beta_rule, beta_strategy, on, off, digit}
use bucketeer.Tests.Commands.{toggle-WellFormed}

new_feature-WellFormed_example : Safe WellFormed (
    new_feature parsers
      (λ n. some (digit n))
      "n"
      "new"
      ""
      VariationType.boolean
      (on ∷ off ∷ [])
      ("web" ∷ [])
      (pos 0)
      (pos 1)
      "m"
      (pos 9))
new_feature-WellFormed_example =
    new_feature-WellFormed parsers (λ n. some (digit n)) "n" "new" "" VariationType.boolean
      (on ∷ off ∷ []) ("web" ∷ []) (pos 0) (pos 1) "m" (pos 9) (omega arith) (omega arith)

-- A clause that the rule does not have.
missing_clause :
    (delete_clause "r" "x" (pos 9) toggle ≡ panic)
    × (change_clause_attribute "r" "x" "t" (pos 9) toggle ≡ panic)
    × (change_clause_operator "r" "x" Operator.segment (pos 9) toggle ≡ panic)
    × (add_clause_value "r" "x" "t" (pos 9) toggle ≡ panic)
    × (remove_clause_value "r" "x" "t" (pos 9) toggle ≡ panic)
unfolding delete_clause change_clause_attribute change_clause_operator add_clause_value
    remove_clause_value find_rule find_clause index_by ◌==◌ index
missing_clause = (refl, refl, refl, refl, refl)

remove_user_from_variation-add_user_to_variation_example :
    (g : Feature) × (add_user_to_variation "A" "new" (pos 9) toggle ≡ ok g)
    × (remove_user_from_variation "A" "new" (pos 10) g ≡ ok (record toggle { updated_at = pos 10 }))
unfolding index_by contains ◌==◌
remove_user_from_variation-add_user_to_variation_example =
    remove_user_from_variation-add_user_to_variation "A" "new" (pos 9) (pos 10) toggle 0
      (record { variation = "A"; users = "u" ∷ [] }) refl refl refl

-- Two versions, and their texts.
abbrev two_versions : Semver Bool
two_versions = record {
  parse = λ s. if s == "1.0.0" then some false else if s == "2.0.0" then some true else none;
  print = λ v. if v then "2.0.0" else "1.0.0";
  lt = λ a b. not a && b;
}

two_versions-laws : SemverLaws two_versions
unfolding ◌==◌
two_versions-laws = record {
  parse_print = parse_print;
  parse_nothing = refl;
  irreflexive = irreflexive;
  transitive = transitive;
}
  where
    parse_print : (v : Bool) → two_versions.parse (two_versions.print v) ≡ some v
    parse_print true = refl
    parse_print false = refl

    irreflexive : (v : Bool) → two_versions.lt v v ≡ false
    irreflexive true = refl
    irreflexive false = refl

    transitive :
        (u v w : Bool)
        → two_versions.lt u v ≡ true
        → two_versions.lt v w ≡ true
        → two_versions.lt u w ≡ true
    transitive false true true h k = refl
    transitive false true false h k = cc
    transitive true v w h k = cc
    transitive false false w h k = cc

abbrev newest_info : FeatureLastUsedInfo
newest_info = record {
  feature_id = "f";
  version = pos 1;
  last_used_at = pos 5;
  created_at = pos 5;
  client_oldest_version = "2.0.0";
  client_latest_version = "2.0.0";
}

newest_info-Spans : Spans two_versions newest_info (true ∷ [])
newest_info-Spans = record {
  oldest = (true, refl, inl refl, (refl, tt));
  latest = (true, refl, inl refl, (refl, tt));
}

set_client_version-Spans_example :
    (f' : FeatureLastUsedInfo) × (set_client_version two_versions "1.0.0" newest_info
      ≡ versioned f')
    × Spans two_versions f' (seen_with two_versions (two_versions.parse "1.0.0") (true ∷ []))
set_client_version-Spans_example =
    set_client_version-Spans two_versions two_versions-laws "1.0.0" newest_info (true ∷ [])
      newest_info-Spans

abbrev sample_bytes : Uuid
sample_bytes = record {
  b0 = 0;
  b1 = 17;
  b2 = 0;
  b3 = 0;
  b4 = 0;
  b5 = 0;
  b6 = 255;
  b7 = 0;
  b8 = 255;
  b9 = 0;
  b10 = 0;
  b11 = 0;
  b12 = 0;
  b13 = 0;
  b14 = 0;
  b15 = 175;
}

new_uuid-valid_example :
    (new_uuid none ≡ none)
    × (u : Uuid) × (new_uuid (some sample_bytes) ≡ some u)
    × (is_uuid (to_string u) ≡ true)
new_uuid-valid_example = new_uuid-valid sample_bytes

new_uuid_text :
    to_string (set_version (set_variant sample_bytes)) ≡ "00110000-0000-4f00-bf00-0000000000af"
unfolding to_string set_version set_variant hex_byte hyphen hex_digit
new_uuid_text = refl

-- A bar stands for the variant.
bar_variant : is_uuid "00110000-0000-4f00-|f00-0000000000af" ≡ true
unfolding is_uuid
bar_variant = refl

-- A toggle with another off variation than the one that is removed.
abbrev steady : Feature
steady = record toggle { off_variation = "A" }

steady-WellFormed : WellFormed steady
unfolding contains ◌==◌
steady-WellFormed =
    let w : WellFormed toggle = toggle-WellFormed in
    record {
      aligned = w.aligned;
      off_known = refl;
      default_serves = w.default_serves;
      rules_serve = w.rules_serve;
      rules_unique = w.rules_unique;
      users_unique = w.users_unique;
    }

b-Known : Known (variation_ids steady.variations) "B"
unfolding contains ◌==◌
b-Known = refl

remove_variation-reduced_example :
    (i : ℕ) × (index_by variation_id "B" steady.variations ≡ some i)
    × (index_by target_variation "B" steady.targets ≡ some i)
    × (remove_variation "B" (pos 9) steady ≡ (
        if in_use "B" steady
        then err variation_in_use
        else ok (reduced_feature "B" i (pos 9) steady)))
remove_variation-reduced_example =
    remove_variation-reduced "B" (pos 9) steady steady-WellFormed b-Known

-- The variation is removed, with its entry of no weight.
steady_removed :
    remove_variation "B" (pos 9) steady
    ≡ ok (record steady {
      variations = on ∷ [];
      targets = record { variation = "A"; users = "u" ∷ [] } ∷ [];
      rules =
          record beta_rule {
            strategy = some (record beta_strategy {
              rollout_strategy =
                  some
                    (record { variations = record { variation = "A"; weight = pos 100000 } ∷ [] });
            });
          }
          ∷ [];
      updated_at = pos 9;
    })
unfolding remove_variation find_variation_index find_target remove_target validate_remove_variation
    strategy_contains_variation rules_contains_variation has_weight remove_variation_from_rules
    remove_variation_from_default_strategy remove_variation_from_rollout_strategy remove_entry
    index_by erase_at ◌==◌
steady_removed = refl
