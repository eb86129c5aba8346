-- ===== src/Experiment/Operations.antt =====
-- The methods of the type Experiment of pkg/experiment/domain/experiment.go. `now` is the answer
-- of `time.Now().Unix()`.
use bucketeer.Prelude.{
  ℤ, pos, String, List, [], ◌∷◌, Bool, true, false, not, ◌||◌, Option, none, some, leb_ℤ, ltb_ℤ,
  if◌then◌else◌, ◌==◌, contains, Result, ok, err, guard, ◌>>◌,
}
use bucketeer.Feature.Model.{Variation}
use bucketeer.Experiment.Model.{
  Status, waiting, running, stopped, force_stopped, unknown, Experiment, ExperimentError,
  before_start, before_stop, status_invalid, already_stopped, start_is_after_stop,
  stop_is_before_start, stop_is_before_now, uuid_error,
}

abbrev pub Outcome : Type 0
Outcome = Result ExperimentError Experiment

abbrev pub max_int64 : ℤ
max_int64 = pos 9223372036854775807

-- The loop of `removeDuplicated`, from the keys of `encountered`.
unfoldable pub remove_encountered : List String → List String → List String
remove_encountered encountered [] = []
remove_encountered encountered (v ∷ args) = elim (contains v encountered) [
  | true ↦ remove_encountered encountered args
  | false ↦ v ∷ remove_encountered (v ∷ encountered) args
]

unfoldable pub remove_duplicated : List String → List String
remove_duplicated args = remove_encountered [] args

-- `new_id` is what `uuid.NewUUID` answers; `none` is its error.
unfoldable pub new_experiment :
    Option String
    → (feature_id : String) → ℤ
    → List Variation
    → (goal_ids : List String) → (start_at stop_at : ℤ)
    → (name description base_variation_id maintainer : String) → (now : ℤ) → Outcome
new_experiment none feature_id version variations goal_ids start_at stop_at name description base
      maintainer now =
    err uuid_error
new_experiment (some id) feature_id version variations goal_ids start_at stop_at name description
      base maintainer now =
    ok (record {
      id = id;
      goal_id = "";
      feature_id = feature_id;
      feature_version = version;
      variations = variations;
      start_at = start_at;
      stop_at = stop_at;
      stopped = false;
      stopped_at = max_int64;
      created_at = now;
      updated_at = now;
      deleted = false;
      goal_ids = remove_duplicated goal_ids;
      name = name;
      description = description;
      base_variation_id = base;
      status = waiting;
      maintainer = maintainer;
      archived = false;
    })

unfoldable pub is_waiting : Status → Bool
is_waiting waiting = true
is_waiting running = false
is_waiting stopped = false
is_waiting force_stopped = false
is_waiting (unknown n) = false

unfoldable pub is_running : Status → Bool
is_running waiting = false
is_running running = true
is_running stopped = false
is_running force_stopped = false
is_running (unknown n) = false

unfoldable pub start : ℤ → Experiment → Outcome
start now e = do
  guard (is_waiting e.status) status_invalid
  guard (not (ltb_ℤ now e.start_at)) before_start
  ok (record e { status = running; updated_at = now })

unfoldable pub finish : ℤ → Experiment → Outcome
finish now e = do
  guard (is_waiting e.status || is_running e.status) status_invalid
  guard (not (ltb_ℤ now e.stop_at)) before_stop
  ok (record e { status = stopped; updated_at = now })

unfoldable pub stop : ℤ → Experiment → Outcome
stop now e = do
  guard (not e.stopped) already_stopped
  ok (record e { stopped = true; status = force_stopped; stopped_at = now; updated_at = now })

unfoldable pub validate_period : (start_at stop_at now : ℤ) → Result ExperimentError (Unit {0})
validate_period start_at stop_at now = do
  guard (not (leb_ℤ stop_at start_at)) start_is_after_stop
  guard (not (leb_ℤ stop_at now)) stop_is_before_now

unfoldable pub change_period : (start_at stop_at : ℤ) → ℤ → Experiment → Outcome
change_period start_at stop_at now e = do
  validate_period start_at stop_at now
  ok (record e { start_at = start_at; stop_at = stop_at; updated_at = now })

unfoldable pub validate_start_at : ℤ → Experiment → Result ExperimentError (Unit {0})
validate_start_at start_at e = guard (not (leb_ℤ e.stop_at start_at)) start_is_after_stop

unfoldable pub change_start_at : ℤ → ℤ → Experiment → Outcome
change_start_at start_at now e = do
  validate_start_at start_at e
  ok (record e { start_at = start_at; updated_at = now })

unfoldable pub validate_stop_at : (stop_at now : ℤ) → Experiment → Result ExperimentError (Unit {0})
validate_stop_at stop_at now e = do
  guard (not (leb_ℤ stop_at e.start_at)) stop_is_before_start
  guard (not (leb_ℤ stop_at now)) stop_is_before_now

unfoldable pub change_stop_at : ℤ → ℤ → Experiment → Outcome
change_stop_at stop_at now e = do
  validate_stop_at stop_at now e
  ok (record e { stop_at = stop_at; updated_at = now })

unfoldable pub change_name : String → ℤ → Experiment → Outcome
change_name name now e = ok (record e { name = name; updated_at = now })

unfoldable pub change_description : String → ℤ → Experiment → Outcome
change_description description now e = ok (record e { description = description; updated_at = now })

unfoldable pub set_archived : ℤ → Experiment → Outcome
set_archived now e = ok (record e { archived = true; updated_at = now })

unfoldable pub set_deleted : ℤ → Experiment → Outcome
set_deleted now e = ok (record e { deleted = true; updated_at = now })

unfoldable pub sync_goal_ids : String → List String → String × List String
sync_goal_ids goal_id [] = if goal_id == "" then ("", []) else (goal_id, goal_id ∷ [])
sync_goal_ids goal_id (g ∷ gs) = if goal_id == "" then (g, g ∷ gs) else (goal_id, g ∷ gs)

unfoldable pub is_not_finished : (t : ℤ) → Experiment → Bool
is_not_finished t e =
    if e.deleted
    then false
    else if leb_ℤ e.stop_at t
    then false
    else if leb_ℤ e.stopped_at t
    then false
    else true
