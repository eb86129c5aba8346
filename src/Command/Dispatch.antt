-- ===== src/Command/Dispatch.antt =====
-- `Handle` of pkg/feature/command/feature.go: the method for each command.
use bucketeer.Prelude.{ℤ}
use bucketeer.Feature.Variations.{Parsers}
use bucketeer.Command.Model.{Command, bad_command, Handler, Handled, failed, World}
use bucketeer.Command.Handlers

unfoldable pub handle :
    {Event : Type 0} → World Event → Parsers → ℤ → Command → Handler Event → Handled Event
handle w p now Command.enable_feature h = Handlers.enable_feature w p now h
handle w p now Command.disable_feature h = Handlers.disable_feature w p now h
handle w p now Command.archive_feature h = Handlers.archive_feature w p now h
handle w p now Command.unarchive_feature h = Handlers.unarchive_feature w p now h
handle w p now Command.delete_feature h = Handlers.delete_feature w p now h
handle w p now Command.increment_feature_version h = Handlers.increment_feature_version w p now h
handle w p now Command.reset_sampling_seed h = Handlers.reset_sampling_seed w p now h
handle w p now (Command.remove_prerequisite feature_id) h =
    Handlers.remove_prerequisite w p now feature_id h
handle w p now (Command.change_rule_strategy rule_id strategy) h =
    Handlers.change_rule_strategy w p now rule_id strategy h
handle w p now (Command.delete_rule id) h = Handlers.delete_rule w p now id h
handle w p now (Command.delete_clause rule_id id) h = Handlers.delete_clause w p now rule_id id h
handle w p now (Command.change_clause_attribute rule_id id attribute) h =
    Handlers.change_clause_attribute w p now rule_id id attribute h
handle w p now (Command.change_clause_operator rule_id id operator) h =
    Handlers.change_clause_operator w p now rule_id id operator h
handle w p now (Command.add_clause_value rule_id id value) h =
    Handlers.add_clause_value w p now rule_id id value h
handle w p now (Command.remove_clause_value rule_id id value) h =
    Handlers.remove_clause_value w p now rule_id id value h
handle w p now (Command.change_default_strategy strategy) h =
    Handlers.change_default_strategy w p now strategy h
handle w p now (Command.change_off_variation id) h = Handlers.change_off_variation w p now id h
handle w p now (Command.change_fixed_strategy rule_id strategy) h =
    Handlers.change_fixed_strategy w p now rule_id strategy h
handle w p now (Command.change_rollout_strategy rule_id strategy) h =
    Handlers.change_rollout_strategy w p now rule_id strategy h
handle w p now (Command.remove_variation id) h = Handlers.remove_variation w p now id h
handle w p now (Command.change_variation_value id text) h =
    Handlers.change_variation_value w p now id text h
handle w p now (Command.change_variation_name id text) h =
    Handlers.change_variation_name w p now id text h
handle w p now (Command.change_variation_description id text) h =
    Handlers.change_variation_description w p now id text h
handle w p now (Command.rename_feature name) h = Handlers.rename_feature w p now name h
handle w p now (Command.change_description description) h =
    Handlers.change_description w p now description h
handle w p now (Command.add_tag tag) h = Handlers.add_tag w p now tag h
handle w p now (Command.remove_tag tag) h = Handlers.remove_tag w p now tag h
handle w p now (Command.create_feature variation_type on_index off_index) h =
    Handlers.create_feature w p now variation_type on_index off_index h
handle w p now Command.clone_feature h = Handlers.clone_feature w p now h
handle w p now (Command.add_prerequisite q) h = Handlers.add_prerequisite w p now q h
handle w p now (Command.change_prerequisite_variation q) h =
    Handlers.change_prerequisite_variation w p now q h
handle w p now (Command.add_user_to_variation id user) h =
    Handlers.add_user_to_variation w p now id user h
handle w p now (Command.remove_user_from_variation id user) h =
    Handlers.remove_user_from_variation w p now id user h
handle w p now (Command.add_rule rule) h = Handlers.add_rule w p now rule h
handle w p now (Command.add_clause rule_id clause) h = Handlers.add_clause w p now rule_id clause h
handle w p now (Command.add_variation value name description) h =
    Handlers.add_variation w p now value name description h
handle w p now Command.other h = failed bad_command h
