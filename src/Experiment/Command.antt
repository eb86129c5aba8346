-- ===== src/Experiment/Command.antt =====
-- ExperimentCommandHandler of pkg/experiment/command/experiment.go: its commands, its events and
-- `Handle`. `now` is the clock of the operation.
use bucketeer.Prelude.{ℤ, String, List, Bool}
use bucketeer.Feature.Model.{Variation}
use bucketeer.Publish.{Sent, Sending, Outlet, send, after, failed, unknown_command}
use bucketeer.Experiment.Model.{Experiment, ExperimentError}
use bucketeer.Experiment.Operations
use bucketeer.Experiment.Operations.{Outcome}

pub data Command : Type 0 where
  create_experiment : Command
  change_experiment_period : (start_at stop_at : ℤ) → Command
  change_experiment_name change_experiment_description : String → Command
  stop_experiment start_experiment finish_experiment : Command
  archive_experiment delete_experiment : Command
  other : Command

-- The bodies of the events (proto/event/domain), with the fields that the handler fills in.
pub data EventBody : Type 0 where
  experiment_created :
      (id feature_id : String)
      → ℤ
      → List Variation
      → (goal_id : String) → List String
      → (start_at stop_at : ℤ) → Bool
      → (stopped_at created_at updated_at : ℤ) → (name description base_variation_id : String)
      → EventBody
  period_changed : (id : String) → (start_at stop_at : ℤ) → EventBody
  name_changed description_changed : (id text : String) → EventBody
  experiment_stopped : (id : String) → (stopped_at : ℤ) → EventBody
  experiment_archived experiment_deleted : (id : String) → EventBody
  experiment_started experiment_finished : EventBody

abbrev pub experiment_id : Experiment → String
experiment_id e = e.id

module _ {Event : Type 0} (o : Outlet EventBody Event) (now : ℤ) where
  abbrev pub Handling : Type 0
  Handling = Sent Experiment Event → Sending ExperimentError Experiment Event

  -- A method of the handler: an operation of the experiment, and then its event.
  abbrev pub run : (Experiment → Outcome) → (Experiment → EventBody) → Handling
  run operation body h = after o (operation h.subject) experiment_id body h

  unfoldable pub create : Handling
  create h =
      let e = h.subject in
      send o e.id
        (EventBody.experiment_created e.id e.feature_id e.feature_version e.variations e.goal_id
          e.goal_ids e.start_at e.stop_at e.stopped e.stopped_at e.created_at e.updated_at e.name
          e.description e.base_variation_id)
        h

  unfoldable pub change_period : (start_at stop_at : ℤ) → Handling
  change_period start_at stop_at =
      run (Operations.change_period start_at stop_at now)
        (λ e. EventBody.period_changed e.id start_at stop_at)

  unfoldable pub change_name : String → Handling
  change_name name = run (Operations.change_name name now) (λ e. EventBody.name_changed e.id e.name)

  unfoldable pub change_description : String → Handling
  change_description description =
      run (Operations.change_description description now)
        (λ e. EventBody.description_changed e.id e.description)

  unfoldable pub stop : Handling
  stop = run (Operations.stop now) (λ e. EventBody.experiment_stopped e.id e.stopped_at)

  unfoldable pub start : Handling
  start = run (Operations.start now) (λ _. EventBody.experiment_started)

  unfoldable pub finish : Handling
  finish = run (Operations.finish now) (λ _. EventBody.experiment_finished)

  unfoldable pub archive : Handling
  archive = run (Operations.set_archived now) (λ e. EventBody.experiment_archived e.id)

  unfoldable pub delete : Handling
  delete = run (Operations.set_deleted now) (λ e. EventBody.experiment_deleted e.id)

  unfoldable pub handle : Command → Handling
  handle Command.create_experiment = create
  handle (Command.change_experiment_period start_at stop_at) = change_period start_at stop_at
  handle (Command.change_experiment_name name) = change_name name
  handle (Command.change_experiment_description description) = change_description description
  handle Command.stop_experiment = stop
  handle Command.start_experiment = start
  handle Command.finish_experiment = finish
  handle Command.archive_experiment = archive
  handle Command.delete_experiment = delete
  handle Command.other = failed unknown_command
