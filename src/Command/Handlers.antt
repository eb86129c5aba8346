-- ===== src/Command/Handlers.antt =====
-- The methods of FeatureCommandHandler (pkg/feature/command/feature.go and detail.go). Each calls
-- one operation of the feature, and records one event where the operation returns no error.
use bucketeer.Prelude.{ℤ, ℕ, suc, String, List, [], ◌∷◌, ◌++◌, Option, none, some, ok, err, panic}
use bucketeer.Feature.Model.{
  VariationType, Rule, Clause, Operator, Strategy, FixedStrategy, RolloutStrategy, Prerequisite,
  Feature,
}
use bucketeer.Feature.Lookup.{Outcome}
use bucketeer.Feature.Settings
use bucketeer.Feature.Settings.{
  rename, enable, disable, archive, unarchive, delete, increment_version,
}
use bucketeer.Feature.Targets
use bucketeer.Feature.Rules
use bucketeer.Feature.Clauses
use bucketeer.Feature.Variations
use bucketeer.Feature.Variations.{Parsers}
use bucketeer.Feature.Prerequisites
use bucketeer.Command.Model.{
  EventBody, domain, uuid_error, event_error, Handler, Handled, done, failed, panicked, World,
}

-- A fresh id for each clause of a rule, from the `n`-th answer on.
unfoldable pub fresh_clauses : (ℕ → Option String) → ℕ → List Clause → Option (List Clause)
fresh_clauses new_uuid n [] = some []
fresh_clauses new_uuid n (c ∷ cs) = elim (new_uuid n) [
  | none ↦ none
  | some id ↦ elim (fresh_clauses new_uuid (suc n) cs) [
    | none ↦ none
    | some rest ↦ some (record c { id = id } ∷ rest)
  ]
]

module _ {Event : Type 0} (w : World Event) (p : Parsers) (now : ℤ) where
  -- `CreateEvent`, and the event appended.
  unfoldable pub emit : EventBody → Handler Event → Handled Event
  emit body h = elim (w.new_event h.feature.id h.feature.version body) [
    | none ↦ failed event_error h
    | some e ↦ done (record h { events = h.events ++ e ∷ [] })
  ]

  -- The event after an operation of the feature.
  unfoldable pub after : Outcome → (Feature → EventBody) → Handler Event → Handled Event
  after (ok f) body h = emit (body f) (record h { feature = f })
  after (err e) body h = failed (domain e) h
  after panic body h = panicked

  unfoldable pub create_feature : VariationType → ℤ → ℤ → Handler Event → Handled Event
  create_feature variation_type on_index off_index h =
      emit
        (EventBody.feature_created h.feature.id h.feature.name h.feature.description
          h.feature.variations on_index off_index variation_type)
        h

  unfoldable pub clone_feature : Handler Event → Handled Event
  clone_feature h = emit (EventBody.feature_cloned h.feature) h

  unfoldable pub enable_feature : Handler Event → Handled Event
  enable_feature h = after (enable now h.feature) (λ f. EventBody.feature_enabled f.id) h

  unfoldable pub disable_feature : Handler Event → Handled Event
  disable_feature h = after (disable now h.feature) (λ f. EventBody.feature_disabled f.id) h

  unfoldable pub archive_feature : Handler Event → Handled Event
  archive_feature h = after (archive now h.feature) (λ f. EventBody.feature_archived f.id) h

  unfoldable pub unarchive_feature : Handler Event → Handled Event
  unarchive_feature h = after (unarchive now h.feature) (λ f. EventBody.feature_unarchived f.id) h

  unfoldable pub delete_feature : Handler Event → Handled Event
  delete_feature h = after (delete now h.feature) (λ f. EventBody.feature_deleted f.id) h

  unfoldable pub increment_feature_version : Handler Event → Handled Event
  increment_feature_version h =
      after (increment_version now h.feature)
        (λ f. EventBody.feature_version_incremented f.id f.version) h

  unfoldable pub reset_sampling_seed : Handler Event → Handled Event
  reset_sampling_seed h =
      after (Settings.reset_sampling_seed (w.new_uuid 0) now h.feature)
        (λ f. EventBody.sampling_seed_reset f.sampling_seed) h

  unfoldable pub remove_prerequisite : String → Handler Event → Handled Event
  remove_prerequisite feature_id h =
      after (Prerequisites.remove_prerequisite feature_id now h.feature)
        (λ _. EventBody.prerequisite_removed feature_id) h

  unfoldable pub change_rule_strategy : String → Option Strategy → Handler Event → Handled Event
  change_rule_strategy rule_id strategy h =
      after (Rules.change_rule_strategy rule_id strategy now h.feature)
        (λ f. EventBody.rule_strategy_changed f.id rule_id strategy) h

  unfoldable pub delete_rule : String → Handler Event → Handled Event
  delete_rule id h =
      after (Rules.delete_rule id now h.feature) (λ f. EventBody.rule_deleted f.id id) h

  unfoldable pub delete_clause : String → String → Handler Event → Handled Event
  delete_clause rule_id id h =
      after (Clauses.delete_clause rule_id id now h.feature)
        (λ f. EventBody.rule_clause_deleted f.id rule_id id) h

  unfoldable pub change_clause_attribute : String → String → String → Handler Event → Handled Event
  change_clause_attribute rule_id id attribute h =
      after (Clauses.change_clause_attribute rule_id id attribute now h.feature)
        (λ f. EventBody.clause_attribute_changed f.id rule_id id attribute) h

  unfoldable pub change_clause_operator : String → String → Operator → Handler Event → Handled Event
  change_clause_operator rule_id id operator h =
      after (Clauses.change_clause_operator rule_id id operator now h.feature)
        (λ f. EventBody.clause_operator_changed f.id rule_id id operator) h

  unfoldable pub add_clause_value : String → String → String → Handler Event → Handled Event
  add_clause_value rule_id id value h =
      after (Clauses.add_clause_value rule_id id value now h.feature)
        (λ f. EventBody.clause_value_added f.id rule_id id value) h

  unfoldable pub remove_clause_value : String → String → String → Handler Event → Handled Event
  remove_clause_value rule_id id value h =
      after (Clauses.remove_clause_value rule_id id value now h.feature)
        (λ f. EventBody.clause_value_removed f.id rule_id id value) h

  unfoldable pub change_default_strategy : Option Strategy → Handler Event → Handled Event
  change_default_strategy strategy h =
      after (Rules.change_default_strategy strategy now h.feature)
        (λ f. EventBody.default_strategy_changed f.id strategy) h

  unfoldable pub change_off_variation : String → Handler Event → Handled Event
  change_off_variation id h =
      after (Settings.change_off_variation id now h.feature)
        (λ f. EventBody.off_variation_changed f.id id) h

  unfoldable pub change_fixed_strategy :
      String → Option FixedStrategy → Handler Event → Handled Event
  change_fixed_strategy rule_id strategy h =
      after (Rules.change_fixed_strategy rule_id strategy now h.feature)
        (λ f. EventBody.fixed_strategy_changed f.id rule_id strategy) h

  unfoldable pub change_rollout_strategy :
      String → Option RolloutStrategy → Handler Event → Handled Event
  change_rollout_strategy rule_id strategy h =
      after (Rules.change_rollout_strategy rule_id strategy now h.feature)
        (λ f. EventBody.rollout_strategy_changed f.id rule_id strategy) h

  unfoldable pub remove_variation : String → Handler Event → Handled Event
  remove_variation id h =
      after (Variations.remove_variation id now h.feature)
        (λ f. EventBody.variation_removed f.id id) h

  unfoldable pub change_variation_value : String → String → Handler Event → Handled Event
  change_variation_value id text h =
      after (Variations.change_variation_value id text now h.feature)
        (λ f. EventBody.variation_value_changed f.id id text) h

  unfoldable pub change_variation_name : String → String → Handler Event → Handled Event
  change_variation_name id text h =
      after (Variations.change_variation_name id text now h.feature)
        (λ f. EventBody.variation_name_changed f.id id text) h

  unfoldable pub change_variation_description : String → String → Handler Event → Handled Event
  change_variation_description id text h =
      after (Variations.change_variation_description id text now h.feature)
        (λ f. EventBody.variation_description_changed f.id id text) h

  unfoldable pub rename_feature : String → Handler Event → Handled Event
  rename_feature name h =
      after (rename name now h.feature) (λ f. EventBody.feature_renamed f.id name) h

  unfoldable pub change_description : String → Handler Event → Handled Event
  change_description description h =
      after (Settings.change_description description now h.feature)
        (λ f. EventBody.description_changed f.id description) h

  unfoldable pub add_tag : String → Handler Event → Handled Event
  add_tag tag h = after (Settings.add_tag tag now h.feature) (λ f. EventBody.tag_added f.id tag) h

  unfoldable pub remove_tag : String → Handler Event → Handled Event
  remove_tag tag h =
      after (Settings.remove_tag tag now h.feature) (λ f. EventBody.tag_removed f.id tag) h

  unfoldable pub add_prerequisite : Option Prerequisite → Handler Event → Handled Event
  add_prerequisite none h = panicked
  add_prerequisite (some q) h =
      after (Prerequisites.add_prerequisite q.feature_id q.variation_id now h.feature)
        (λ _. EventBody.prerequisite_added (some q)) h

  unfoldable pub change_prerequisite_variation : Option Prerequisite → Handler Event → Handled Event
  change_prerequisite_variation none h = panicked
  change_prerequisite_variation (some q) h =
      after (Prerequisites.change_prerequisite_variation q.feature_id q.variation_id now h.feature)
        (λ _. EventBody.prerequisite_variation_changed (some q)) h

  unfoldable pub add_user_to_variation : String → String → Handler Event → Handled Event
  add_user_to_variation id user h =
      after (Targets.add_user_to_variation id (w.trim_space user) now h.feature)
        (λ f. EventBody.variation_user_added f.id id (w.trim_space user)) h

  unfoldable pub remove_user_from_variation : String → String → Handler Event → Handled Event
  remove_user_from_variation id user h =
      after (Targets.remove_user_from_variation id (w.trim_space user) now h.feature)
        (λ f. EventBody.variation_user_removed f.id id (w.trim_space user)) h

  -- With the clauses' new ids, or the error of the generator.
  unfoldable pub add_rule_with : Rule → Option (List Clause) → Handler Event → Handled Event
  add_rule_with rule none h = failed uuid_error h
  add_rule_with rule (some clauses) h =
      after (Rules.add_rule (record rule { clauses = clauses }) now h.feature)
        (λ f. EventBody.feature_rule_added f.id (some (record rule { clauses = clauses }))) h

  unfoldable pub add_rule : Option Rule → Handler Event → Handled Event
  add_rule none h = panicked
  add_rule (some rule) h = add_rule_with rule (fresh_clauses w.new_uuid 0 rule.clauses) h

  -- The id is drawn before the clause is looked at.
  unfoldable pub add_clause_with :
      String → Option Clause → Option String → Handler Event → Handled Event
  add_clause_with rule_id clause none h = failed uuid_error h
  add_clause_with rule_id none (some id) h = panicked
  add_clause_with rule_id (some c) (some id) h =
      after (Clauses.add_clause rule_id (record c { id = id }) now h.feature)
        (λ f. EventBody.rule_clause_added f.id rule_id (some (record c { id = id }))) h

  unfoldable pub add_clause : String → Option Clause → Handler Event → Handled Event
  add_clause rule_id clause h = add_clause_with rule_id clause (w.new_uuid 0) h

  unfoldable pub add_variation_with :
      String → String → String → Option String → Handler Event → Handled Event
  add_variation_with value name description none h = failed uuid_error h
  add_variation_with value name description (some id) h =
      after (Variations.add_variation p id value name description now h.feature)
        (λ f.
          EventBody.variation_added f.id
            (record { id = id; value = value; name = name; description = description }))
        h

  unfoldable pub add_variation : String → String → String → Handler Event → Handled Event
  add_variation value name description h =
      add_variation_with value name description (w.new_uuid 0) h
