-- ===== src/Experiment/Requests.antt =====
-- The services of pkg/experiment/api/experiment.go that write: each checks the caller's role and
-- the request, and then runs one transaction.
use bucketeer.Prelude.{
  ℤ, String, List, [], ◌∷◌, Bool, Option, none, some, Result, ok, err, panic, ◌>>◌, ◌>>=◌, deref,
}
use mathlib.Core.Option
use bucketeer.Feature.Model.{Feature}
use bucketeer.Role.{editor}
use bucketeer.Publish.{Sent, Sending, Outlet, done}
use bucketeer.Transaction.{
  Store, Database, Selected, row, no_rows, select_error, Served, serve_update, serve_insert,
}
use bucketeer.Experiment.Model.{Experiment, ExperimentError}
use bucketeer.Experiment.Operations.{Outcome, new_experiment}
use bucketeer.Experiment.Command.{Command, EventBody, handle}
use bucketeer.Experiment.Api.{
  ApiError, internal, goal_not_found, feature_not_found, CreateExperiment, Caller, authorize,
  checked, and_then, validate_create_experiment, validate_update_experiment,
  validate_command_request, update_status, create_status,
}

-- The errors of the feature service that are told apart.
pub data FeatureFault : Type 0 where
  no_such_feature other_fault : FeatureFault

unfoldable pub feature_of : Result FeatureFault Feature → Result ApiError Feature
feature_of (ok f) = ok f
feature_of (err no_such_feature) = err feature_not_found
feature_of (err other_fault) = err internal
feature_of panic = panic

-- Every goal of the command is in the storage of goals.
unfoldable pub check_goals :
    {Goal : Type 0} → (String → Selected Goal) → List String → Result ApiError (Unit {0})
check_goals get_goal [] = ok tt
check_goals get_goal (gid ∷ gids) = elim (get_goal gid) [
  | row g ↦ check_goals get_goal gids
  | no_rows ↦ err goal_not_found
  | select_error ↦ err internal
]

unfoldable pub created_of : Outcome → Result ApiError Experiment
created_of (ok e) = ok e
created_of (err x) = err internal
created_of panic = panic

module _ {Event : Type 0} (o : Outlet EventBody Event) (now : ℤ) where
  -- A command that is handled where it is there.
  unfoldable pub handle_given :
      Option Command → Sent Experiment Event → Sending ExperimentError Experiment Event
  handle_given none h = done h
  handle_given (some c) h = handle o now c h

  -- The handlers of UpdateExperiment: a change of the period is the only one where it is there.
  unfoldable pub handle_update :
      Option (ℤ × ℤ)
      → (name description : Option String) → Sent Experiment Event
      → Sending ExperimentError Experiment Event
  handle_update (some (start_at, stop_at)) name description h =
      handle o now (Command.change_experiment_period start_at stop_at) h
  handle_update none name description h =
      and_then (handle_given (Option.map Command.change_experiment_name name) h)
        (handle_given (Option.map Command.change_experiment_description description))

module _ {Event : Type 0} (db : Database Experiment) (o : Outlet EventBody Event) (caller : Caller)
    (now : ℤ) where
  abbrev pub Request : Type 0
  Request = Store Experiment Event → Served ApiError Experiment Event

  unfoldable pub update_experiment : Command → (id : String) → Request
  update_experiment c id = serve_update db update_status (handle o now c) id

  -- A request of one command.
  unfoldable pub command_request : Command → (id : String) → (command : Bool) → Request
  command_request c id command =
      checked (do _ ← authorize caller editor; validate_command_request id command)
        (λ _. update_experiment c id)

  unfoldable pub start_experiment : (id : String) → (command : Bool) → Request
  start_experiment = command_request Command.start_experiment

  unfoldable pub finish_experiment : (id : String) → (command : Bool) → Request
  finish_experiment = command_request Command.finish_experiment

  unfoldable pub stop_experiment : (id : String) → (command : Bool) → Request
  stop_experiment = command_request Command.stop_experiment

  unfoldable pub archive_experiment : (id : String) → (command : Bool) → Request
  archive_experiment = command_request Command.archive_experiment

  unfoldable pub delete_experiment : (id : String) → (command : Bool) → Request
  delete_experiment = command_request Command.delete_experiment

  unfoldable pub update_experiment_request :
      (id : String) → Option (ℤ × ℤ) → (name description : Option String) → Request
  update_experiment_request id period name description =
      checked (do _ ← authorize caller editor; validate_update_experiment id period)
        (λ _. serve_update db update_status (handle_update o now period name description) id)

  unfoldable pub create_experiment :
      {Goal : Type 0}
      → (String → Result FeatureFault Feature)
      → (String → Selected Goal)
      → (new_id : Option String) → Option CreateExperiment
      → Request
  create_experiment get_feature get_goal new_id command =
      checked
        (do
          e ← authorize caller editor
          validate_create_experiment command
          c ← deref command
          f ← feature_of (get_feature c.feature_id)
          check_goals get_goal c.goal_ids
          created_of (
              new_experiment new_id c.feature_id f.version f.variations c.goal_ids c.start_at
                c.stop_at c.name c.description c.base_variation_id e.email now))
        (serve_insert db create_status (handle o now Command.create_experiment))
