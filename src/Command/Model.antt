-- ===== src/Command/Model.antt =====
-- The commands of proto/feature/command.proto that a feature handles, the events that it records
-- (proto/event/domain) and the handler's state (pkg/feature/command/feature.go).
use bucketeer.Prelude.{ℤ, ℕ, String, List, Option}
use bucketeer.Feature.Model.{
  Error, VariationType, Variation, Rule, Clause, Operator, Strategy, FixedStrategy, RolloutStrategy,
  Prerequisite, Feature,
}

-- A nested message of a command may be missing: `Option`.
pub data Command : Type 0 where
  create_feature : (variation_type : VariationType) (on_index off_index : ℤ) → Command
  enable_feature disable_feature archive_feature unarchive_feature delete_feature : Command
  add_user_to_variation remove_user_from_variation : (id user : String) → Command
  add_rule : Option Rule → Command
  change_rule_strategy : (rule_id : String) → Option Strategy → Command
  delete_rule : (id : String) → Command
  add_clause : (rule_id : String) → Option Clause → Command
  delete_clause : (rule_id id : String) → Command
  change_clause_attribute : (rule_id id attribute : String) → Command
  change_clause_operator : (rule_id id : String) → Operator → Command
  add_clause_value remove_clause_value : (rule_id id value : String) → Command
  change_default_strategy : Option Strategy → Command
  change_off_variation : (id : String) → Command
  change_fixed_strategy : (rule_id : String) → Option FixedStrategy → Command
  change_rollout_strategy : (rule_id : String) → Option RolloutStrategy → Command
  add_variation : (value name description : String) → Command
  remove_variation : (id : String) → Command
  change_variation_value change_variation_name : (id text : String) → Command
  change_variation_description : (id text : String) → Command
  rename_feature change_description add_tag remove_tag : String → Command
  increment_feature_version clone_feature reset_sampling_seed : Command
  add_prerequisite change_prerequisite_variation : Option Prerequisite → Command
  remove_prerequisite : (feature_id : String) → Command
  other : Command

-- The bodies of the events, with the fields that the handlers fill in.
pub data EventBody : Type 0 where
  feature_created :
      (id name description : String)
      → List Variation
      → (on_index off_index : ℤ) → VariationType
      → EventBody
  feature_enabled feature_disabled feature_archived : (id : String) → EventBody
  feature_unarchived feature_deleted : (id : String) → EventBody
  feature_version_incremented : (id : String) → ℤ → EventBody
  feature_cloned : Feature → EventBody
  sampling_seed_reset : (seed : String) → EventBody
  prerequisite_added prerequisite_variation_changed : Option Prerequisite → EventBody
  prerequisite_removed : (feature_id : String) → EventBody
  variation_user_added variation_user_removed : (feature_id id user : String) → EventBody
  feature_rule_added : (id : String) → Option Rule → EventBody
  rule_strategy_changed : (feature_id rule_id : String) → Option Strategy → EventBody
  rule_deleted : (id rule_id : String) → EventBody
  rule_clause_added : (feature_id rule_id : String) → Option Clause → EventBody
  rule_clause_deleted : (feature_id rule_id id : String) → EventBody
  clause_attribute_changed : (feature_id rule_id id attribute : String) → EventBody
  clause_operator_changed : (feature_id rule_id id : String) → Operator → EventBody
  clause_value_added clause_value_removed : (feature_id rule_id id value : String) → EventBody
  default_strategy_changed : (id : String) → Option Strategy → EventBody
  off_variation_changed : (id off_variation : String) → EventBody
  fixed_strategy_changed : (feature_id rule_id : String) → Option FixedStrategy → EventBody
  rollout_strategy_changed : (feature_id rule_id : String) → Option RolloutStrategy → EventBody
  variation_added : (id : String) → Variation → EventBody
  variation_removed : (id variation_id : String) → EventBody
  variation_value_changed variation_name_changed : (feature_id id text : String) → EventBody
  variation_description_changed : (feature_id id text : String) → EventBody
  feature_renamed description_changed tag_added tag_removed : (id text : String) → EventBody

-- An error that a handler returns.
pub data CommandError : Type 0 where
  domain : Error → CommandError
  uuid_error event_error bad_command : CommandError

pub record Handler (Event : Type 0) : Type 0 where
  pub feature : Feature
  pub events : List Event

-- A handler changes its state also where it then returns an error.
pub data Handled (Event : Type 0) : Type 0 where
  done : Handler Event → Handled Event
  failed : CommandError → Handler Event → Handled Event
  panicked : Handled Event

-- What a handler takes from outside the repository or its package: the factory of events
-- (`domainevent.NewEvent`, given the feature's id and version), the answers of `uuid.NewUUID` in
-- the order of its calls, and `strings.TrimSpace`.
pub record World (Event : Type 0) : Type 0 where
  pub new_event : String → ℤ → EventBody → Option Event
  pub new_uuid : ℕ → Option String
  pub trim_space : String → String
