-- ===== src/Experiment/Events.antt =====
-- The events of the commands of pkg/experiment/command/experiment.go.
use bucketeer.Prelude.{ℤ, refl}
use bucketeer.Publish.{Outlet, Sent, Recorded, after-Recorded, send-Recorded}
use bucketeer.Experiment.Model.{Experiment, ExperimentError}
use bucketeer.Experiment.Command
use bucketeer.Experiment.Command.{Command, EventBody, handle}

module _ {Event : Type 0} (o : Outlet EventBody Event) (now : ℤ) where
  -- A command of an experiment that succeeds publishes exactly one event. One that is refused
  -- leaves the experiment as it was; where the event cannot be made or published, none is added.
  pub experiment-Recorded :
      (c : Command) (h : Sent Experiment Event) → Recorded h (handle o now c h)
  unfolding handle Command.create Command.change_period Command.change_name
      Command.change_description Command.stop Command.start Command.finish Command.archive
      Command.delete
  experiment-Recorded Command.create_experiment h = send-Recorded ExperimentError o _ _ h
  experiment-Recorded (Command.change_experiment_period a b) h = after-Recorded o _ _ _ h
  experiment-Recorded (Command.change_experiment_name n) h = after-Recorded o _ _ _ h
  experiment-Recorded (Command.change_experiment_description d) h = after-Recorded o _ _ _ h
  experiment-Recorded Command.stop_experiment h = after-Recorded o _ _ _ h
  experiment-Recorded Command.start_experiment h = after-Recorded o _ _ _ h
  experiment-Recorded Command.finish_experiment h = after-Recorded o _ _ _ h
  experiment-Recorded Command.archive_experiment h = after-Recorded o _ _ _ h
  experiment-Recorded Command.delete_experiment h = after-Recorded o _ _ _ h
  experiment-Recorded Command.other h = refl
