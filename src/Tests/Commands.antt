-- ===== src/Tests/Commands.antt =====
-- Commands of pkg/feature/command on a sample feature.
use bucketeer.Prelude.{refl, pos, ◌==◌, contains}
use bucketeer.Feature.WellFormed.{WellFormed}
use bucketeer.Command.Model.{Command}
use bucketeer.Command.Dispatch.{handle}
use bucketeer.Command.Consistency.{After, handle-WellFormed}
use bucketeer.Command.Events.{Recorded, handle-Recorded}
use bucketeer.Tests.Samples.{toggle, parsers, world, handler}

pub toggle-WellFormed : WellFormed toggle
unfolding ◌==◌ contains
toggle-WellFormed = record {
  aligned = refl;
  off_known = refl;
  default_serves = refl;
  rules_serve = ((λ _. refl, (λ _. refl, tt)), tt);
  rules_unique = (refl, tt);
  users_unique = ((refl, tt), (tt, tt));
}

handle-WellFormed_example :
    After WellFormed (handle world parsers (pos 9) (Command.remove_variation "B") handler)
handle-WellFormed_example =
    handle-WellFormed world parsers (pos 9) (Command.remove_variation "B") handler tt
      toggle-WellFormed

handle-Recorded_example :
    Recorded handler (handle world parsers (pos 9) (Command.delete_rule "r") handler)
handle-Recorded_example = handle-Recorded world parsers (pos 9) (Command.delete_rule "r") handler
