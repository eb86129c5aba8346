-- ===== src/Tests/Requests.antt =====
-- Requests of pkg/feature/api on sample features.
use bucketeer.Prelude.{pos, negsuc, refl, some, [], ◌∷◌, ◌≡◌, ◌==◌, ok, err, panic, Safe, index_by}
use bucketeer.Feature.Model.{VariationType, Rule, Feature, Prerequisite, variation_not_found}
use bucketeer.Feature.Lookup.{find_variation}
use bucketeer.Feature.Rules.{change_default_strategy}
use bucketeer.Feature.Variations.{
  add_variation, add_target, add_variation_to_rules, add_variation_to_default_strategy,
  validate_variation, remove_variation_from_rules, remove_variation_from_rollout_strategy,
}
use bucketeer.Feature.Create.{blank, add_variations, new_feature}
use bucketeer.Feature.WellFormed.Rollouts.{first_rollout_only}
use bucketeer.Evaluation.Assign.{assign_default}
use bucketeer.Evaluation.Order.{
  topological_sort, sort_all, sort, sort_marked, sort_prerequisites, feature_at,
}
use bucketeer.Command.Model.{Command, EventBody, Handler}
use bucketeer.Api.Model.{CreateFeature}
use bucketeer.Api.Identifiers.{is_feature_id}
use bucketeer.Api.Validation.{
  validate_create_feature, validate_targeting, validate_add_prerequisite, validate_variation_id,
  find_feature,
}
use bucketeer.Api.Targeting.{update_targeting, stored}
use bucketeer.Api.Admitted.{Lets, validate_targeting-Safe}
use bucketeer.Api.Stored.{Stores, update_targeting-Stores}
use bucketeer.Feature.WellFormed.{WellFormed}
use bucketeer.Tests.Commands.{toggle-WellFormed}
use bucketeer.Api.Creation.{negative_index_panics}
use bucketeer.Api.DefaultStrategy.{fixed_at, unknown_default_accepted}
use bucketeer.Api.Prerequisites.{prerequisite_stored_twice}
use bucketeer.Tests.Samples.{
  toggle, toggle_with, parsers, world, beta_rule, beta_strategy, external, on, off, digit, all_on,
}

-- A rule whose id is a UUID.
abbrev valid_rule : Rule
valid_rule = record beta_rule { id = "01234567-89ab-4cde-8f01-23456789abcd" }

validate_targeting-Safe_example :
    Safe
      (Lets 0 (Command.add_rule (some valid_rule)))
      (validate_targeting (toggle ∷ []) 0 (Command.add_rule (some valid_rule)))
validate_targeting-Safe_example =
    validate_targeting-Safe (Command.add_rule (some valid_rule)) (toggle ∷ []) 0 refl
      (toggle, refl, toggle-WellFormed)

update_targeting-Stores_example : Stores WellFormed (
    update_targeting world parsers
      (pos 9)
      (toggle ∷ [])
      "f"
      (Command.add_rule (some valid_rule) ∷ Command.delete_rule "r" ∷ []))
unfolding index_by ◌==◌
update_targeting-Stores_example =
    update_targeting-Stores world parsers (pos 9) (toggle ∷ []) "f" 0 toggle
      (Command.add_rule (some valid_rule) ∷ Command.delete_rule "r" ∷ []) refl refl
      toggle-WellFormed (refl, (refl, tt))

abbrev new_toggle : CreateFeature
new_toggle = record {
  id = "n";
  name = "new";
  variations = on ∷ off ∷ [];
  tags = "web" ∷ [];
  on_index = some (pos 0);
  off_index = some (pos 1);
}

new_toggle-valid : validate_create_feature (some new_toggle) ≡ ok tt
unfolding validate_create_feature is_feature_id ◌==◌
new_toggle-valid = refl

abbrev started : Feature
started = record (blank "n" "new" "" VariationType.string "m" (pos 9)) {
  updated_at = pos 9;
  variations = record on { id = "i0" } ∷ record off { id = "i1" } ∷ [];
  targets = record { variation = "i0"; users = [] } ∷ record { variation = "i1"; users = [] } ∷ [];
}

started-added :
    add_variations parsers
      (λ n. some (digit n))
      0
      (on ∷ off ∷ [])
      (pos 9)
      (blank "n" "new" "" VariationType.string "m" (pos 9))
    ≡ ok started
unfolding add_variations add_variation add_target add_variation_to_rules
    add_variation_to_default_strategy validate_variation
started-added = refl

negative_index_panics_example :
    (validate_create_feature (some (record new_toggle { on_index = some (negsuc 0) })) ≡ ok tt)
    × (new_feature parsers
          (λ n. some (digit n))
          "n"
          "new"
          ""
          VariationType.string
          (on ∷ off ∷ [])
          ("web" ∷ [])
          (negsuc 0)
          (pos 1)
          "m"
          (pos 9)
        ≡ panic)
negative_index_panics_example =
    negative_index_panics new_toggle 0 (pos 1) parsers (λ n. some (digit n)) "" "m"
      VariationType.string (pos 9) started new_toggle-valid started-added

unknown_default_accepted_example :
    (g : Feature) × (validate_targeting
        (toggle ∷ [])
        0
        (Command.change_default_strategy (fixed_at "Z"))
      ≡ ok (toggle ∷ []))
    × (change_default_strategy (fixed_at "Z") (pos 9) toggle ≡ ok g)
    × (assign_default external g "w" ≡ err variation_not_found)
unfolding ◌==◌ find_variation
unknown_default_accepted_example =
    unknown_default_accepted external "Z" "w" (toggle ∷ []) 0 (pos 9) toggle refl refl refl

abbrev other_toggle : Feature
other_toggle = toggle_with "g" [] []

abbrev needed : Prerequisite
needed = record { feature_id = "f"; variation_id = "A" }

needed-accepted :
    validate_add_prerequisite (other_toggle ∷ toggle ∷ []) 0 (some needed)
    ≡ ok (toggle_with "g" [] (needed ∷ []) ∷ toggle ∷ [])
unfolding validate_add_prerequisite validate_variation_id find_feature index_by topological_sort
    sort_all sort sort_marked sort_prerequisites feature_at ◌==◌
needed-accepted = refl

prerequisite_stored_twice_example :
    (h : Handler EventBody) × (update_targeting world parsers
        (pos 9)
        (other_toggle ∷ toggle ∷ [])
        "g"
        (Command.add_prerequisite (some needed) ∷ [])
      ≡ stored h)
    × (h.feature.prerequisites ≡ needed ∷ needed ∷ [])
unfolding index_by ◌==◌
prerequisite_stored_twice_example =
    prerequisite_stored_twice world parsers (pos 9) (other_toggle ∷ toggle ∷ [])
      (toggle_with "g" [] (needed ∷ []) ∷ toggle ∷ []) 0 needed other_toggle
      (λ id version body. (body, refl)) refl refl needed-accepted

first_rollout_only_example :
    remove_variation_from_rules "B" (beta_rule ∷ beta_rule ∷ [])
    ≡ ok (
        record beta_rule {
          strategy = some (record beta_strategy {
            rollout_strategy = some (remove_variation_from_rollout_strategy "B" all_on);
          });
        }
        ∷ beta_rule
        ∷ [])
first_rollout_only_example =
    first_rollout_only "B" [] (beta_rule ∷ []) beta_rule beta_strategy all_on tt refl refl refl
