-- ===== src/Feature/Targets.antt =====
-- The operations of pkg/feature/domain/feature.go on the targets: which users are given a
-- variation by name.
use bucketeer.Prelude.{
  ℤ, String, [], ◌∷◌, ◌++◌, if◌then◌else◌, contains, erase_at, set, read, ok, ◌>>=◌,
}
use bucketeer.Feature.Model.{Feature}
use bucketeer.Feature.Lookup.{Outcome, find_target, index}

unfoldable pub add_user_to_variation : String → String → ℤ → Feature → Outcome
add_user_to_variation variation user now f = do
  idx ← find_target variation f
  target ← read f.targets idx
  if contains user target.users
      then ok f
      else ok (record f {
        targets = set f.targets idx (record target { users = target.users ++ user ∷ [] });
        updated_at = now;
      })

unfoldable pub remove_user_from_variation : String → String → ℤ → Feature → Outcome
remove_user_from_variation variation user now f = do
  idx ← find_target variation f
  target ← read f.targets idx
  uidx ← index user target.users
  ok (record f {
    targets = set f.targets idx (record target { users = erase_at target.users uidx });
    updated_at = now;
  })
