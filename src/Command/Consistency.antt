-- ===== src/Command/Consistency.antt =====
-- The consistency of the feature that a command works on.
use bucketeer.Prelude.{
  ℤ, String, List, [], ◌∷◌, ◌++◌, Option, none, some, Safe, true, is_some, ◌≡◌, ok, err, panic,
}
use bucketeer.Feature.Model.{Feature, Clause, Rule}
use bucketeer.Feature.Lookup.{Outcome, variation_ids}
use bucketeer.Feature.Settings
use bucketeer.Feature.Prerequisites
use bucketeer.Feature.Variations.{Parsers}
use bucketeer.Feature.WellFormed.{WellFormed, Serves}
use bucketeer.Feature.WellFormed.Settings.{
  change_off_variation-WellFormed, add_tag-WellFormed, remove_tag-WellFormed, enable-WellFormed,
  disable-WellFormed, reset_sampling_seed-WellFormed, remove_prerequisite-WellFormed,
  change_prerequisite_variation-WellFormed,
}
use bucketeer.Feature.WellFormed.Targets.{
  add_user_to_variation-WellFormed, remove_user_from_variation-WellFormed,
}
use bucketeer.Feature.WellFormed.Rules.{
  Complete, add_rule-WellFormed, delete_rule-WellFormed, change_rule_strategy-WellFormed,
  change_fixed_strategy-WellFormed, change_rollout_strategy-WellFormed,
  change_default_strategy-WellFormed,
}
use bucketeer.Feature.WellFormed.Clauses.{
  HasClause, add_clause-WellFormed, delete_clause-WellFormed, change_clause_attribute-WellFormed,
  change_clause_operator-WellFormed, add_clause_value-WellFormed, remove_clause_value-WellFormed,
}
use bucketeer.Feature.WellFormed.Variations.{
  add_variation-WellFormed, remove_variation-WellFormed, change_variation_value-WellFormed,
  change_variation_name-WellFormed, change_variation_description-WellFormed,
}
use bucketeer.Command.Model.{
  Command, EventBody, event_error, Handler, Handled, done, failed, panicked, World,
}
use bucketeer.Command.Handlers
use bucketeer.Command.Handlers.{emit, after}
use bucketeer.Command.Dispatch.{handle}

-- What the request's validation must have seen to: the messages nested in a command are there, a
-- strategy has the part for its type, a clause that is named is there, and a new default strategy
-- chooses variations of the feature.
abbrev pub Admissible : Feature → Command → Type 0
Admissible f (Command.add_rule none) = ⊥
Admissible f (Command.add_rule (some r)) = Complete r.strategy
Admissible f (Command.change_rule_strategy rule_id s) = Complete s
Admissible f (Command.change_fixed_strategy rule_id s) = is_some s ≡ true
Admissible f (Command.change_rollout_strategy rule_id s) = is_some s ≡ true
Admissible f (Command.change_default_strategy s) = Serves (variation_ids f.variations) s
Admissible f (Command.add_clause rule_id clause) = is_some clause ≡ true
Admissible f (Command.delete_clause rule_id id) = HasClause rule_id id f
Admissible f (Command.change_clause_attribute rule_id id attribute) = HasClause rule_id id f
Admissible f (Command.change_clause_operator rule_id id operator) = HasClause rule_id id f
Admissible f (Command.add_clause_value rule_id id value) = HasClause rule_id id f
Admissible f (Command.remove_clause_value rule_id id value) = HasClause rule_id id f
Admissible f (Command.add_prerequisite none) = ⊥
Admissible f (Command.change_prerequisite_variation none) = ⊥
Admissible f _ = Unit

-- There is no panic, and the feature that a handler leaves behind, also where it returns an error,
-- satisfies `P`.
abbrev pub After : {Event : Type 0} → (Feature → Type 0) → Handled Event → Type 0
After P (done h) = P h.feature
After P (failed e h) = P h.feature
After P panicked = ⊥

module _ {Event : Type 0} (w : World Event) (p : Parsers) (now : ℤ) where
  emit-After :
      (body : EventBody) (h : Handler Event)
      → WellFormed h.feature
      → After WellFormed (emit w p now body h)
  unfolding emit
  emit-After body h v = by_event (w.new_event h.feature.id h.feature.version body)
    where
      by_event :
          (o : Option Event)
          → After WellFormed (elim o [
            | none ↦ failed event_error h
            | some e ↦ done (record h { events = h.events ++ e ∷ [] })
          ])
      by_event none = v
      by_event (some e) = v

  after-After :
      (r : Outcome) (body : Feature → EventBody) (h : Handler Event)
      → WellFormed h.feature
      → Safe WellFormed r
      → After WellFormed (after w p now r body h)
  unfolding after
  after-After (ok f) body h v k = emit-After (body f) (record h { feature = f }) k
  after-After (err e) body h v k = v
  after-After panic body h v k = k

  add_rule_with-After :
      (rule : Rule) (clauses : Option (List Clause)) (h : Handler Event)
      → Complete rule.strategy
      → WellFormed h.feature
      → After WellFormed (Handlers.add_rule_with w p now rule clauses h)
  unfolding Handlers.add_rule_with
  add_rule_with-After rule none h a v = v
  add_rule_with-After rule (some clauses) h a v =
      after-After _ _ h v
        (add_rule-WellFormed (record rule { clauses = clauses }) now h.feature a v)

  add_clause_with-After :
      (rule_id : String) (clause : Option Clause) (id : Option String) (h : Handler Event)
      → is_some clause ≡ true
      → WellFormed h.feature
      → After WellFormed (Handlers.add_clause_with w p now rule_id clause id h)
  unfolding Handlers.add_clause_with
  add_clause_with-After rule_id clause none h a v = v
  add_clause_with-After rule_id none (some id) h a v = cc
  add_clause_with-After rule_id (some c) (some id) h a v =
      after-After _ _ h v (add_clause-WellFormed rule_id (record c { id = id }) now h.feature v)

  add_variation_with-After :
      (value name description : String) (id : Option String) (h : Handler Event)
      → WellFormed h.feature
      → After WellFormed (Handlers.add_variation_with w p now value name description id h)
  unfolding Handlers.add_variation_with
  add_variation_with-After value name description none h v = v
  add_variation_with-After value name description (some id) h v =
      after-After _ _ h v (add_variation-WellFormed p id value name description now h.feature v)

  -- A command that is admissible for a consistent feature does not panic, and leaves the feature
  -- consistent, whether its handler succeeds or returns an error.
  pub handle-WellFormed :
      (c : Command) (h : Handler Event)
      → Admissible h.feature c
      → WellFormed h.feature
      → After WellFormed (handle w p now c h)
  unfolding handle Handlers.enable_feature Handlers.disable_feature Handlers.archive_feature
      Handlers.unarchive_feature Handlers.delete_feature Handlers.increment_feature_version
      Handlers.reset_sampling_seed Handlers.remove_prerequisite Handlers.change_rule_strategy
      Handlers.delete_rule Handlers.delete_clause Handlers.change_clause_attribute
      Handlers.change_clause_operator Handlers.add_clause_value Handlers.remove_clause_value
      Handlers.change_default_strategy Handlers.change_off_variation Handlers.change_fixed_strategy
      Handlers.change_rollout_strategy Handlers.remove_variation Handlers.change_variation_value
      Handlers.change_variation_name Handlers.change_variation_description Handlers.rename_feature
      Handlers.change_description Handlers.add_tag Handlers.remove_tag Handlers.create_feature
      Handlers.clone_feature Handlers.add_prerequisite Handlers.change_prerequisite_variation
      Handlers.add_user_to_variation Handlers.remove_user_from_variation Handlers.add_rule
      Handlers.add_clause Handlers.add_variation Settings.rename Settings.change_description
      Settings.archive Settings.unarchive Settings.delete Settings.increment_version
      Prerequisites.add_prerequisite
  handle-WellFormed Command.enable_feature h a v =
      after-After _ _ h v (enable-WellFormed now h.feature v)
  handle-WellFormed Command.disable_feature h a v =
      after-After _ _ h v (disable-WellFormed now h.feature v)
  handle-WellFormed Command.archive_feature h a v = after-After _ _ h v (v)
  handle-WellFormed Command.unarchive_feature h a v = after-After _ _ h v (v)
  handle-WellFormed Command.delete_feature h a v = after-After _ _ h v (v)
  handle-WellFormed Command.increment_feature_version h a v = after-After _ _ h v (v)
  handle-WellFormed Command.reset_sampling_seed h a v =
      after-After _ _ h v (reset_sampling_seed-WellFormed (w.new_uuid 0) now h.feature v)
  handle-WellFormed (Command.remove_prerequisite feature_id) h a v =
      after-After _ _ h v (remove_prerequisite-WellFormed feature_id now h.feature v)
  handle-WellFormed (Command.change_rule_strategy rule_id strategy) h a v =
      after-After _ _ h v (change_rule_strategy-WellFormed rule_id strategy now h.feature a v)
  handle-WellFormed (Command.delete_rule id) h a v =
      after-After _ _ h v (delete_rule-WellFormed id now h.feature v)
  handle-WellFormed (Command.delete_clause rule_id id) h a v =
      after-After _ _ h v (delete_clause-WellFormed rule_id id now h.feature a v)
  handle-WellFormed (Command.change_clause_attribute rule_id id attribute) h a v =
      after-After _ _ h v
        (change_clause_attribute-WellFormed rule_id id attribute now h.feature a v)
  handle-WellFormed (Command.change_clause_operator rule_id id operator) h a v =
      after-After _ _ h v (change_clause_operator-WellFormed rule_id id operator now h.feature a v)
  handle-WellFormed (Command.add_clause_value rule_id id value) h a v =
      after-After _ _ h v (add_clause_value-WellFormed rule_id id value now h.feature a v)
  handle-WellFormed (Command.remove_clause_value rule_id id value) h a v =
      after-After _ _ h v (remove_clause_value-WellFormed rule_id id value now h.feature a v)
  handle-WellFormed (Command.change_default_strategy strategy) h a v =
      after-After _ _ h v (change_default_strategy-WellFormed strategy now h.feature a v)
  handle-WellFormed (Command.change_off_variation id) h a v =
      after-After _ _ h v (change_off_variation-WellFormed id now h.feature v)
  handle-WellFormed (Command.change_fixed_strategy rule_id none) h a v = cc
  handle-WellFormed (Command.change_fixed_strategy rule_id (some s)) h a v =
      after-After _ _ h v (change_fixed_strategy-WellFormed rule_id s now h.feature v)
  handle-WellFormed (Command.change_rollout_strategy rule_id none) h a v = cc
  handle-WellFormed (Command.change_rollout_strategy rule_id (some s)) h a v =
      after-After _ _ h v (change_rollout_strategy-WellFormed rule_id s now h.feature v)
  handle-WellFormed (Command.remove_variation id) h a v =
      after-After _ _ h v (remove_variation-WellFormed id now h.feature v)
  handle-WellFormed (Command.change_variation_value id text) h a v =
      after-After _ _ h v (change_variation_value-WellFormed id text now h.feature v)
  handle-WellFormed (Command.change_variation_name id text) h a v =
      after-After _ _ h v (change_variation_name-WellFormed id text now h.feature v)
  handle-WellFormed (Command.change_variation_description id text) h a v =
      after-After _ _ h v (change_variation_description-WellFormed id text now h.feature v)
  handle-WellFormed (Command.rename_feature name) h a v = after-After _ _ h v (v)
  handle-WellFormed (Command.change_description description) h a v = after-After _ _ h v (v)
  handle-WellFormed (Command.add_tag tag) h a v =
      after-After _ _ h v (add_tag-WellFormed tag now h.feature v)
  handle-WellFormed (Command.remove_tag tag) h a v =
      after-After _ _ h v (remove_tag-WellFormed tag now h.feature v)
  handle-WellFormed (Command.create_feature t i j) h a v = emit-After _ h v
  handle-WellFormed Command.clone_feature h a v = emit-After _ h v
  handle-WellFormed (Command.add_prerequisite none) h a v = absurd a
  handle-WellFormed (Command.add_prerequisite (some q)) h a v = after-After _ _ h v (v)
  handle-WellFormed (Command.change_prerequisite_variation none) h a v = absurd a
  handle-WellFormed (Command.change_prerequisite_variation (some q)) h a v =
      after-After _ _ h v
        (change_prerequisite_variation-WellFormed q.feature_id q.variation_id now h.feature v)
  handle-WellFormed (Command.add_user_to_variation id user) h a v =
      after-After _ _ h v (add_user_to_variation-WellFormed id (w.trim_space user) now h.feature v)
  handle-WellFormed (Command.remove_user_from_variation id user) h a v =
      after-After _ _ h v
        (remove_user_from_variation-WellFormed id (w.trim_space user) now h.feature v)
  handle-WellFormed (Command.add_rule none) h a v = absurd a
  handle-WellFormed (Command.add_rule (some rule)) h a v =
      add_rule_with-After rule (Handlers.fresh_clauses w.new_uuid 0 rule.clauses) h a v
  handle-WellFormed (Command.add_clause rule_id clause) h a v =
      add_clause_with-After rule_id clause (w.new_uuid 0) h a v
  handle-WellFormed (Command.add_variation value name description) h a v =
      add_variation_with-After value name description (w.new_uuid 0) h v
  handle-WellFormed Command.other h a v = v
