-- ===== src/Command/Events.antt =====
-- The events of the commands of pkg/feature/command, and what a failure leaves behind.
use bucketeer.Prelude.{
  ℤ, String, List, [], ◌∷◌, ◌++◌, Option, none, some, ◌≡◌, refl, ok, err, panic,
}
use bucketeer.Feature.Model.{Feature, Clause, Rule}
use bucketeer.Feature.Lookup.{Outcome}
use bucketeer.Feature.Variations.{Parsers}
use bucketeer.Command.Model.{
  Command, EventBody, domain, uuid_error, event_error, bad_command, Handler, Handled, done, failed,
  panicked, World,
}
use bucketeer.Command.Handlers
use bucketeer.Command.Handlers.{emit, after}
use bucketeer.Command.Dispatch.{handle}

-- From `h`: success adds one event. A failure adds none, and changes the feature only where the
-- event itself could not be made.
abbrev pub Recorded : {Event : Type 0} → Handler Event → Handled Event → Type 0
Recorded {Event} h (done h') = (e : Event) × (h'.events ≡ h.events ++ e ∷ [])
Recorded h (failed (domain x) h') = h' ≡ h
Recorded h (failed uuid_error h') = h' ≡ h
Recorded h (failed bad_command h') = h' ≡ h
Recorded h (failed event_error h') = h'.events ≡ h.events
Recorded h panicked = Unit

module _ {Event : Type 0} (w : World Event) (p : Parsers) (now : ℤ) where
  emit-Recorded :
      (body : EventBody) (h : Handler Event) (f : Feature)
      → Recorded h (emit w p now body (record h { feature = f }))
  unfolding emit
  emit-Recorded body h f = by_event (w.new_event f.id f.version body)
    where
      by_event :
          (o : Option Event)
          → Recorded h (elim o [
            | none ↦ failed event_error (record h { feature = f })
            | some e ↦ done (record { feature = f; events = h.events ++ e ∷ [] })
          ])
      by_event none = refl
      by_event (some e) = (e, refl)

  after-Recorded :
      (r : Outcome) (body : Feature → EventBody) (h : Handler Event)
      → Recorded h (after w p now r body h)
  unfolding after
  after-Recorded (ok f) body h = emit-Recorded (body f) h f
  after-Recorded (err e) body h = refl
  after-Recorded panic body h = tt

  add_rule_with-Recorded :
      (rule : Rule) (clauses : Option (List Clause)) (h : Handler Event)
      → Recorded h (Handlers.add_rule_with w p now rule clauses h)
  unfolding Handlers.add_rule_with
  add_rule_with-Recorded rule none h = refl
  add_rule_with-Recorded rule (some clauses) h = after-Recorded _ _ h

  add_clause_with-Recorded :
      (rule_id : String) (clause : Option Clause) (id : Option String) (h : Handler Event)
      → Recorded h (Handlers.add_clause_with w p now rule_id clause id h)
  unfolding Handlers.add_clause_with
  add_clause_with-Recorded rule_id clause none h = refl
  add_clause_with-Recorded rule_id none (some id) h = tt
  add_clause_with-Recorded rule_id (some c) (some id) h = after-Recorded _ _ h

  add_variation_with-Recorded :
      (value name description : String) (id : Option String) (h : Handler Event)
      → Recorded h (Handlers.add_variation_with w p now value name description id h)
  unfolding Handlers.add_variation_with
  add_variation_with-Recorded value name description none h = refl
  add_variation_with-Recorded value name description (some id) h = after-Recorded _ _ h

  -- Every command that succeeds records exactly one event behind those that were there. A command
  -- that fails records none, and leaves the handler's feature as it was unless the failure is that
  -- of making the event, which comes after the change.
  pub handle-Recorded : (c : Command) (h : Handler Event) → Recorded h (handle w p now c h)
  unfolding handle Handlers.enable_feature Handlers.disable_feature Handlers.archive_feature
      Handlers.unarchive_feature Handlers.delete_feature Handlers.increment_feature_version
      Handlers.reset_sampling_seed Handlers.remove_prerequisite Handlers.change_rule_strategy
      Handlers.delete_rule Handlers.delete_clause Handlers.change_clause_attribute
      Handlers.change_clause_operator Handlers.add_clause_value Handlers.remove_clause_value
      Handlers.change_default_strategy Handlers.change_off_variation Handlers.change_fixed_strategy
      Handlers.change_rollout_strategy Handlers.remove_variation Handlers.change_variation_value
      Handlers.change_variation_name Handlers.change_variation_description Handlers.rename_feature
      Handlers.change_description Handlers.add_tag Handlers.remove_tag Handlers.create_feature
      Handlers.clone_feature Handlers.add_prerequisite Handlers.change_prerequisite_variation
      Handlers.add_user_to_variation Handlers.remove_user_from_variation Handlers.add_rule
      Handlers.add_clause Handlers.add_variation
  handle-Recorded Command.enable_feature h = after-Recorded _ _ h
  handle-Recorded Command.disable_feature h = after-Recorded _ _ h
  handle-Recorded Command.archive_feature h = after-Recorded _ _ h
  handle-Recorded Command.unarchive_feature h = after-Recorded _ _ h
  handle-Recorded Command.delete_feature h = after-Recorded _ _ h
  handle-Recorded Command.increment_feature_version h = after-Recorded _ _ h
  handle-Recorded Command.reset_sampling_seed h = after-Recorded _ _ h
  handle-Recorded (Command.remove_prerequisite feature_id) h = after-Recorded _ _ h
  handle-Recorded (Command.change_rule_strategy rule_id strategy) h = after-Recorded _ _ h
  handle-Recorded (Command.delete_rule id) h = after-Recorded _ _ h
  handle-Recorded (Command.delete_clause rule_id id) h = after-Recorded _ _ h
  handle-Recorded (Command.change_clause_attribute rule_id id attribute) h = after-Recorded _ _ h
  handle-Recorded (Command.change_clause_operator rule_id id operator) h = after-Recorded _ _ h
  handle-Recorded (Command.add_clause_value rule_id id value) h = after-Recorded _ _ h
  handle-Recorded (Command.remove_clause_value rule_id id value) h = after-Recorded _ _ h
  handle-Recorded (Command.change_default_strategy strategy) h = after-Recorded _ _ h
  handle-Recorded (Command.change_off_variation id) h = after-Recorded _ _ h
  handle-Recorded (Command.change_fixed_strategy rule_id strategy) h = after-Recorded _ _ h
  handle-Recorded (Command.change_rollout_strategy rule_id strategy) h = after-Recorded _ _ h
  handle-Recorded (Command.remove_variation id) h = after-Recorded _ _ h
  handle-Recorded (Command.change_variation_value id text) h = after-Recorded _ _ h
  handle-Recorded (Command.change_variation_name id text) h = after-Recorded _ _ h
  handle-Recorded (Command.change_variation_description id text) h = after-Recorded _ _ h
  handle-Recorded (Command.rename_feature name) h = after-Recorded _ _ h
  handle-Recorded (Command.change_description description) h = after-Recorded _ _ h
  handle-Recorded (Command.add_tag tag) h = after-Recorded _ _ h
  handle-Recorded (Command.remove_tag tag) h = after-Recorded _ _ h
  handle-Recorded (Command.create_feature t i j) h = emit-Recorded _ h h.feature
  handle-Recorded Command.clone_feature h = emit-Recorded _ h h.feature
  handle-Recorded (Command.add_prerequisite none) h = tt
  handle-Recorded (Command.add_prerequisite (some q)) h = after-Recorded _ _ h
  handle-Recorded (Command.change_prerequisite_variation none) h = tt
  handle-Recorded (Command.change_prerequisite_variation (some q)) h = after-Recorded _ _ h
  handle-Recorded (Command.add_user_to_variation id user) h = after-Recorded _ _ h
  handle-Recorded (Command.remove_user_from_variation id user) h = after-Recorded _ _ h
  handle-Recorded (Command.add_rule none) h = tt
  handle-Recorded (Command.add_rule (some rule)) h =
      add_rule_with-Recorded rule (Handlers.fresh_clauses w.new_uuid 0 rule.clauses) h
  handle-Recorded (Command.add_clause rule_id clause) h =
      add_clause_with-Recorded rule_id clause (w.new_uuid 0) h
  handle-Recorded (Command.add_variation value name description) h =
      add_variation_with-Recorded value name description (w.new_uuid 0) h
  handle-Recorded Command.other h = refl
