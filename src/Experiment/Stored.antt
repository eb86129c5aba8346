-- ===== src/Experiment/Stored.antt =====
-- The experiments that are stored stay lawful whatever is requested: the services of
-- pkg/experiment/api/experiment.go, the handler, the operations and the storage together.
use bucketeer.Prelude.{
  ℕ, ◌<◌, ℤ, pos, String, Bool, true, false, Option, none, some, ◌≡◌, refl, subst, leb_ℤ, Result,
  ok, err, panic, guard, ◌>>◌, Holds, Holds-bind, Holds-trivial, not, ◌==◌, contains,
}
use bucketeer.Feature.Model.{Feature}
use bucketeer.Role.{editor}
use bucketeer.Publish.{Sent, Sending, Outlet, done, failed, panicked, Leaves}
use bucketeer.Transaction.{Store, Database, Selected, Served}
use bucketeer.Transaction.Laws.{DatabaseLaws, Atomic}
use bucketeer.Transaction.Kept.{AllRows, serve_update-AllRows, serve_insert-AllRows}
use bucketeer.Experiment.Model.{Experiment, ExperimentError}
use bucketeer.Experiment.Operations.{Outcome}
use bucketeer.Experiment.Command.{Command, EventBody, handle}
use bucketeer.Experiment.Lifecycle.{Lawful, Allowed, handle-Allowed}
use bucketeer.Experiment.History.{new_experiment-Lawful}
use bucketeer.Experiment.Api.{
  ApiError, CreateExperiment, Caller, authorize, checked, no_goals, and_then,
  validate_create_experiment, validate_experiment_period,
}
use bucketeer.Experiment.Period.{validate_experiment_period-ordered}
use bucketeer.Experiment.Requests
use bucketeer.Experiment.Requests.{
  FeatureFault, feature_of, check_goals, created_of, handle_given, handle_update,
}

-- The requests that write.
pub data Call (Goal : Type 0) : Type 0 where
  start finish stop archive delete : (id : String) → (command : Bool) → Call Goal
  update : (id : String) → Option (ℤ × ℤ) → (name description : Option String) → Call Goal
  create :
      (String → Result FeatureFault Feature)
      → (String → Selected Goal)
      → (new_id : Option String) → Option CreateExperiment
      → Call Goal

-- The times of a command that creates are those of an int64 and not negative.
abbrev pub Timed : {Goal : Type 0} → Call Goal → Type 0
Timed (create get_feature get_goal new_id (some c)) =
    (a b : ℕ) × (c.start_at ≡ pos a)
    × (c.stop_at ≡ pos b)
    × (a < 9223372036854775808)
    × (b < 9223372036854775808)
Timed _ = Unit

module _ {Event : Type 0} (db : Database Experiment) (o : Outlet EventBody Event) (caller : Caller)
    (now : ℤ) where
  abbrev pub respond :
      {Goal : Type 0} → Call Goal → Store Experiment Event → Served ApiError Experiment Event
  respond (start id command) = Requests.start_experiment db o caller now id command
  respond (finish id command) = Requests.finish_experiment db o caller now id command
  respond (stop id command) = Requests.stop_experiment db o caller now id command
  respond (archive id command) = Requests.archive_experiment db o caller now id command
  respond (delete id command) = Requests.delete_experiment db o caller now id command
  respond (update id period name description) =
      Requests.update_experiment_request db o caller now id period name description
  respond (create get_feature get_goal new_id command) =
      Requests.create_experiment db o caller now get_feature get_goal new_id command

checked-Atomic :
    {A S Event : Type 0} (P : Store S Event → Type 0) (Q : A → Type 0) (r : Result ApiError A)
    (k : A → Store S Event → Served ApiError S Event) (s : Store S Event)
    → Holds Q r
    → ((a : A) → Q a → Atomic P s (k a s))
    → Atomic P s (checked r k s)
unfolding checked
checked-Atomic P Q (ok a) k s q h = h a q
checked-Atomic P Q (err e) k s q h = refl
checked-Atomic P Q panic k s q h = tt

-- Success leaves a lawful experiment.
abbrev pub Lawfully : {Event : Type 0} → Sending ExperimentError Experiment Event → Type 0
Lawfully r = Leaves Lawful r

module _ {Event : Type 0} (o : Outlet EventBody Event) (now : ℤ) where
  handle-Lawful :
      (c : Command) (h : Sent Experiment Event) → Lawful h.subject → Lawfully (handle o now c h)
  handle-Lawful c h l = by_end (handle o now c h) (handle-Allowed o now c h)
    where
      by_end :
          (r : Sending ExperimentError Experiment Event) → Leaves (Allowed h.subject) r → Lawfully r
      by_end (done h') a = a.1 l
      by_end (failed e h') a = a.1 l
      by_end panicked a = tt

  handle_given-Lawful :
      (c : Option Command) (h : Sent Experiment Event)
      → Lawful h.subject
      → Lawfully (handle_given o now c h)
  unfolding handle_given
  handle_given-Lawful none h l = l
  handle_given-Lawful (some c) h l = handle-Lawful c h l

  and_then-Lawful :
      (r : Sending ExperimentError Experiment Event)
      (k : Sent Experiment Event → Sending ExperimentError Experiment Event)
      → Lawfully r
      → ((h : Sent Experiment Event) → Lawful h.subject → Lawfully (k h))
      → Lawfully (and_then r k)
  unfolding and_then
  and_then-Lawful (done h) k l f = f h l
  and_then-Lawful (failed e h) k l f = l
  and_then-Lawful panicked k l f = tt

  handle_update-Lawful :
      (period : Option (ℤ × ℤ)) (name description : Option String) (h : Sent Experiment Event)
      → Lawful h.subject
      → Lawfully (handle_update o now period name description h)
  unfolding handle_update
  handle_update-Lawful (some (a, b)) name description h l = handle-Lawful _ h l
  handle_update-Lawful none name description h l =
      and_then-Lawful _ _ (handle_given-Lawful _ h l) λ h'. handle_given-Lawful _ h'

created_of-Lawful : (r : Outcome) → Holds Lawful r → Holds Lawful (created_of r)
unfolding created_of
created_of-Lawful (ok e) h = h
created_of-Lawful (err x) h = tt
created_of-Lawful panic h = tt

guarded :
    (Q : Type 0) (b : Bool) (e : ApiError) (r : Result ApiError (Unit {0}))
    → Holds (λ _. Q) r
    → Holds (λ _. Q) (guard b e >> r)
guarded Q true e r h = h
guarded Q false e r h = tt

validate_create-none : Holds (λ _. ⊥) (validate_create_experiment none)
unfolding validate_create_experiment
validate_create-none = tt

validate_create-ordered :
    (c : CreateExperiment) (a b : ℕ)
    → c.start_at ≡ pos a
    → c.stop_at ≡ pos b
    → a < 9223372036854775808
    → b < 9223372036854775808
    → Holds (λ _. leb_ℤ c.stop_at c.start_at ≡ false) (validate_create_experiment (some c))
unfolding validate_create_experiment
validate_create-ordered c a b ea eb ha hb =
    let Q : Type 0 = leb_ℤ c.stop_at c.start_at ≡ false in
    let period : Holds (λ _. Q) (validate_experiment_period c.start_at c.stop_at) =
      rw (ea, eb) (validate_experiment_period-ordered a b ha hb) in
    guarded Q (not (c.feature_id == "")) _ _ (
      guarded Q (not (no_goals c.goal_ids)) _ _
        (guarded Q (not (contains "" c.goal_ids)) _ _ period))

module _ {Event : Type 0} (db : Database Experiment) (laws : DatabaseLaws db)
    (o : Outlet EventBody Event) (caller : Caller) (now : ℤ) where
  abbrev pub Keeps : Store Experiment Event → Served ApiError Experiment Event → Type 0
  Keeps s r = Atomic (AllRows Lawful) s r

  of_done :
      (handle : Sent Experiment Event → Sending ExperimentError Experiment Event)
      → ((h : Sent Experiment Event) → Lawful h.subject → Lawfully (handle h))
      → (b h : Sent Experiment Event) → Lawful b.subject
      → handle b ≡ done h
      → Lawful h.subject
  of_done handle keep b h l e = subst Lawfully e (keep b l)

  command_request-Keeps :
      (c : Command) (id : String) (command : Bool) (s : Store Experiment Event)
      → AllRows Lawful s
      → Keeps s (Requests.command_request db o caller now c id command s)
  unfolding Requests.command_request Requests.update_experiment
  command_request-Keeps c id command s l =
      checked-Atomic _ (λ _. Unit) _ _ s (Holds-trivial _)
        λ _ _.
          serve_update-AllRows db laws _ Lawful (handle o now c) id s
            (of_done (handle o now c) (handle-Lawful o now c)) l

  update_request-Keeps :
      (id : String) (period : Option (ℤ × ℤ)) (name description : Option String)
      (s : Store Experiment Event)
      → AllRows Lawful s
      → Keeps s (Requests.update_experiment_request db o caller now id period name description s)
  unfolding Requests.update_experiment_request
  update_request-Keeps id period name description s l =
      checked-Atomic _ (λ _. Unit) _ _ s (Holds-trivial _)
        λ _ _.
          serve_update-AllRows db laws _ Lawful (handle_update o now period name description) id s
            (of_done (handle_update o now period name description)
              (handle_update-Lawful o now period name description))
            l

  create-Keeps :
      {Goal : Type 0} (get_feature : String → Result FeatureFault Feature)
      (get_goal : String → Selected Goal) (new_id : Option String)
      (command : Option CreateExperiment) (s : Store Experiment Event)
      → Timed (create get_feature get_goal new_id command)
      → AllRows Lawful s
      → Keeps s (Requests.create_experiment db o caller now get_feature get_goal new_id command s)
  unfolding Requests.create_experiment
  create-Keeps get_feature get_goal new_id none s t l =
      checked-Atomic _ Lawful _ _ s
        (Holds-bind (λ _. Unit) Lawful (authorize caller editor) _ (Holds-trivial _)
          λ e _. Holds-bind (λ _. ⊥) Lawful _ _ validate_create-none λ _ q. absurd q)
        λ e q.
          serve_insert-AllRows db laws _ Lawful (handle o now Command.create_experiment) e s
            (of_done (handle o now Command.create_experiment)
              (handle-Lawful o now Command.create_experiment))
            q l
  create-Keeps get_feature get_goal new_id (some c) s (a, b, ea, eb, ha, hb) l =
      checked-Atomic _ Lawful _ _ s
        (Holds-bind (λ _. Unit) Lawful (authorize caller editor) _ (Holds-trivial _)
          λ e _.
            Holds-bind (λ _. leb_ℤ c.stop_at c.start_at ≡ false) Lawful
              (validate_create_experiment (some c)) _ (validate_create-ordered c a b ea eb ha hb)
              λ _ q.
                Holds-bind (λ _. Unit) Lawful (feature_of (get_feature c.feature_id)) _
                  (Holds-trivial _)
                  λ f _.
                    Holds-bind (λ _. Unit) Lawful (check_goals get_goal c.goal_ids) _
                      (Holds-trivial _)
                      λ _ _.
                        created_of-Lawful _
                          (new_experiment-Lawful new_id _ _ _ _ _ _ _ _ _ _ now q))
        λ e q.
          serve_insert-AllRows db laws _ Lawful (handle o now Command.create_experiment) e s
            (of_done (handle o now Command.create_experiment)
              (handle-Lawful o now Command.create_experiment))
            q l

  -- Whatever is requested, by whomever and whenever: a request that is served keeps the law for
  -- every stored experiment, and one that is refused leaves the stored experiments as they were.
  -- The condition is on the times of a command that creates: they are not negative.
  pub respond-Keeps :
      {Goal : Type 0} (call : Call Goal) (s : Store Experiment Event)
      → Timed call
      → AllRows Lawful s
      → Keeps s (respond db o caller now call s)
  unfolding Requests.start_experiment Requests.finish_experiment Requests.stop_experiment
      Requests.archive_experiment Requests.delete_experiment
  respond-Keeps (start id command) s t l = command_request-Keeps _ id command s l
  respond-Keeps (finish id command) s t l = command_request-Keeps _ id command s l
  respond-Keeps (stop id command) s t l = command_request-Keeps _ id command s l
  respond-Keeps (archive id command) s t l = command_request-Keeps _ id command s l
  respond-Keeps (delete id command) s t l = command_request-Keeps _ id command s l
  respond-Keeps (update id period name description) s t l =
      update_request-Keeps id period name description s l
  respond-Keeps (create get_feature get_goal new_id command) s t l =
      create-Keeps get_feature get_goal new_id command s t l
