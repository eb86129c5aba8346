-- ===== src/Api/Targeting.antt =====
-- The transaction of UpdateFeatureTargeting (pkg/feature/api/feature.go): all commands are checked
-- against the features read from the storage, the version is incremented, and the commands are
-- handled one after another. The target is one of those features, and not a copy of it.
use bucketeer.Prelude.{
  ℤ, ℕ, String, List, [], ◌∷◌, Result, ok, err, panic, ◌>>=◌, index_by, or_err, read,
}
use bucketeer.Feature.Model.{Feature}
use bucketeer.Feature.Variations.{Parsers}
use bucketeer.Command.Model.{Command, CommandError, Handler, Handled, done, failed, panicked, World}
use bucketeer.Command.Dispatch.{handle}
use bucketeer.Api.Model.{ApiError, internal}
use bucketeer.Api.Validation.{validate_targeting}

-- `stored` is the handler whose feature is written and whose events are published.
pub data Updated (Event : Type 0) : Type 0 where
  stored : Handler Event → Updated Event
  rejected : ApiError → Updated Event
  aborted : CommandError → Updated Event
  crashed : Updated Event

abbrev pub feature_id : Feature → String
feature_id f = f.id

unfoldable pub validate_all : List Feature → ℕ → List Command → Result ApiError (List Feature)
validate_all fs target [] = ok fs
validate_all fs target (c ∷ cs) = do
  fs' ← validate_targeting fs target c
  validate_all fs' target cs

module _ {Event : Type 0} (w : World Event) (p : Parsers) (now : ℤ) where
  unfoldable pub handle_all : List Command → Handled Event → Updated Event
  handle_all [] (done h) = stored h
  handle_all (c ∷ cs) (done h) = handle_all cs (handle w p now c h)
  handle_all cs (failed e h) = aborted e
  handle_all cs panicked = crashed

  abbrev pub run_checked : List Command → Result ApiError Feature → Updated Event
  run_checked cs (ok f) =
      handle_all (Command.increment_feature_version ∷ cs)
        (done (record { feature = f; events = [] }))
  run_checked cs (err e) = rejected e
  run_checked cs panic = crashed

  unfoldable pub update_targeting : List Feature → String → List Command → Updated Event
  update_targeting fs id cs = run_checked cs (
      or_err (index_by feature_id id fs) internal >>= λ target.
      validate_all fs target cs >>= λ fs'. read fs' target)
