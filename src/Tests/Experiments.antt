-- ===== src/Tests/Experiments.antt =====
-- Experiments: sample commands, requests and a run of the job.
use bucketeer.Prelude.{
  ℕ, ◌<◌, ◌≤◌, ◌+◌, ◌-◌, arith, if◌then◌else◌, ℤ, pos, negsuc, String, List, [], ◌∷◌, zero, suc,
  sym, ap, subst, ◌||◌, true, false, none, some, ◌==◌, ◌≡◌, ◌↔◌, refl, length, Result, ok, err,
  contains,
}
use bucketeer.Feature.WellFormed.{Unique}
use bucketeer.Role.{AccountFault}
use bucketeer.Publish.{Outlet, Sent, Leaves, Recorded, done}
use bucketeer.Transaction.{Store, serve_update}
use bucketeer.Transaction.Exact.{Exact, serve_update-Exact}
use bucketeer.Experiment.Model.{Experiment, Status, waiting, running}
use bucketeer.Experiment.Operations
use bucketeer.Experiment.Operations.{remove_duplicated, new_experiment}
use bucketeer.Publish
use bucketeer.Experiment.Command
use bucketeer.Experiment.Command.{Command, EventBody, handle, experiment_id}
use bucketeer.Experiment.Lifecycle.{Lawful, Allowed, handle-Allowed}
use bucketeer.Experiment.History.{History, created, handled, rank, History-rank, stored-Lawful}
use bucketeer.Experiment.Events.{experiment-Recorded}
use bucketeer.Experiment.Goals.{remove_duplicated_lem}
use bucketeer.Experiment.Api.{Caller, validate_experiment_period, update_status}
use bucketeer.Experiment.Period.{
  validate_experiment_period-bounds, validate_experiment_period-wraps,
}
use bucketeer.Experiment.Stored.{Call, respond, Keeps, respond-Keeps}
use bucketeer.Experiment.Updater.{
  start_experiment, Page, Clients, list_request_size, list_from, run,
}
use bucketeer.Experiment.Updater.Paging.{Paged, take, drop, drop_nil, list_from-enough}
use bucketeer.Experiment.Updater.Due.{Quiet, calls_due, run-Made}
use bucketeer.Tests.Database.{table, table-DatabaseLaws}

abbrev trial_at : Status → ℤ → Experiment
trial_at status now = record {
  id = "e";
  goal_id = "";
  feature_id = "f";
  feature_version = pos 1;
  variations = [];
  start_at = pos 10;
  stop_at = pos 20;
  stopped = false;
  stopped_at = Operations.max_int64;
  created_at = pos 1;
  updated_at = now;
  deleted = false;
  goal_ids = "g" ∷ "h" ∷ [];
  name = "trial";
  description = "";
  base_variation_id = "A";
  status = status;
  maintainer = "m";
  archived = false;
}

abbrev trial : Experiment
trial = trial_at waiting (pos 1)

-- The event is the text of the object's id.
abbrev outlet : Outlet EventBody String
outlet = record { new_event = λ id _. some id; publish = λ _ _. true }

abbrev session : Sent Experiment String
session = record { subject = trial; published = [] }

abbrev store : Store Experiment String
store = record { rows = trial ∷ []; published = [] }

abbrev owner_caller : Caller
owner_caller = record {
  token = some (record { email = "m"; is_admin = true });
  get_account = λ _. err AccountFault.account_not_found;
}

trial-Lawful : Lawful trial
trial-Lawful = record { flagged = λ e. cc; forced = λ e. cc; unstopped = λ _. refl; ordered = refl }

handle-Allowed_example :
    Leaves (Allowed trial) (handle outlet (pos 12) Command.start_experiment session)
handle-Allowed_example = handle-Allowed outlet (pos 12) Command.start_experiment session

experiment-Recorded_example :
    Recorded session (handle outlet (pos 3) Command.stop_experiment session)
experiment-Recorded_example = experiment-Recorded outlet (pos 3) Command.stop_experiment session

-- Created, started once its time has come, and finished.
trial_created :
    new_experiment
      (some "e")
      "f"
      (pos 1)
      []
      ("g" ∷ "h" ∷ "g" ∷ [])
      (pos 10)
      (pos 20)
      "trial"
      ""
      "A"
      "m"
      (pos 1)
    ≡ ok trial
unfolding new_experiment remove_duplicated Operations.remove_encountered contains ◌==◌
trial_created = refl

trial_started :
    handle outlet (pos 12) Command.start_experiment session
    ≡ done (record { subject = trial_at running (pos 12); published = "e" ∷ [] })
unfolding handle Command.start Operations.start Operations.is_waiting Publish.after Publish.send
trial_started = refl

trial-History : History outlet trial (trial_at running (pos 12))
trial-History =
    handled created (pos 12) Command.start_experiment []
      (record { subject = trial_at running (pos 12); published = "e" ∷ [] }) trial_started

History-rank_example : rank waiting ≤ rank running
History-rank_example = History-rank outlet trial-History

stored-Lawful_example : Lawful (trial_at running (pos 12))
stored-Lawful_example =
    stored-Lawful outlet (some "e") "f" (pos 1) [] ("g" ∷ "h" ∷ "g" ∷ []) (pos 10) (pos 20) "trial"
      "" "A" "m" (pos 1) trial_created refl trial-History

remove_duplicated_example :
    Unique (remove_duplicated ("g" ∷ "h" ∷ "g" ∷ []))
    × ((k : String)
        → contains k (remove_duplicated ("g" ∷ "h" ∷ "g" ∷ [])) ≡ contains k ("g" ∷ "h" ∷ "g" ∷ []))
remove_duplicated_example = remove_duplicated_lem ("g" ∷ "h" ∷ "g" ∷ [])

period-bounds_example :
    (validate_experiment_period (pos 10) (pos 20) ≡ ok tt) ↔ ((10 < 20) × (20 ≤ 10 + 2592000))
period-bounds_example = validate_experiment_period-bounds 10 20 (omega arith) (omega arith)

period-wraps_example :
    validate_experiment_period (pos 9223372036854775807) (negsuc (9223372036854775808 - 60)) ≡ ok tt
period-wraps_example = validate_experiment_period-wraps 60 (omega arith) (omega arith)

serve_update-Exact_example :
    Exact (table experiment_id) (handle outlet (pos 12) Command.start_experiment) "e" store (
      serve_update
        (table experiment_id)
        update_status
        (handle outlet (pos 12) Command.start_experiment)
        "e"
        store)
serve_update-Exact_example =
    serve_update-Exact (table experiment_id) update_status
      (handle outlet (pos 12) Command.start_experiment) "e" store

respond-Keeps_example :
    Keeps
      (table experiment_id)
      (table-DatabaseLaws experiment_id)
      outlet
      owner_caller
      (pos 12)
      store
      (respond
        (table experiment_id)
        outlet
        owner_caller
        (pos 12)
        {Goal = Unit}
        (Call.start "e" true)
        store)
respond-Keeps_example =
    respond-Keeps (table experiment_id) (table-DatabaseLaws experiment_id) outlet owner_caller
      (pos 12) {Goal = Unit} (Call.start "e" true) store tt (trial-Lawful, tt)

-- Listings of one page: the cursor stands at its start or behind it.
abbrev cursor_at : ℕ → String
cursor_at zero = "0"
cursor_at (suc n) = "1"

abbrev one_page : {A : Type 0} → List A → String → Result String (Page A)
one_page xs cursor =
    if cursor == "" || cursor == "0"
    then ok (record { items = xs; cursor = cursor_at (length xs) })
    else ok (record { items = []; cursor = "1" })

plus_nothing : (n : ℕ) → n ≡ n + 0
plus_nothing n = omega arith

nothing-Paged : {A : Type 0} → Paged list_request_size (one_page {A = A} []) cursor_at []
unfolding ◌==◌
nothing-Paged {A} = record { first = refl; later = later }
  where
    later :
        (n : ℕ)
        → one_page {A = A} [] (cursor_at n)
          ≡ ok (record {
            items = take 500 (drop n []);
            cursor = cursor_at (n + length (take 500 (drop {A = A} n [])));
          })
    later zero = refl
    later (suc n) =
        ap (λ k. ok (record { items = []; cursor = cursor_at k })) (plus_nothing (suc n))

one-Paged : {A : Type 0} (x : A) → Paged list_request_size (one_page (x ∷ [])) cursor_at (x ∷ [])
unfolding ◌==◌
one-Paged x = record { first = refl; later = later }
  where
    later :
        (n : ℕ)
        → one_page (x ∷ []) (cursor_at n)
          ≡ ok (record {
            items = take 500 (drop n (x ∷ []));
            cursor = cursor_at (n + length (take 500 (drop n (x ∷ []))));
          })
    later zero = refl
    later (suc n) =
        subst
          (λ ys.
            one_page (x ∷ []) (cursor_at (suc n))
            ≡ ok
                (record { items = take 500 ys; cursor = cursor_at (suc n + length (take 500 ys)) }))
          (sym (drop_nil n))
          (ap (λ k. ok (record { items = []; cursor = cursor_at k })) (plus_nothing (suc n)))

abbrev experiments : String → Status → List Experiment
experiments ns waiting = trial ∷ []
experiments ns s = []

abbrev clients : Clients String
clients = record {
  list_environments = one_page ("ns" ∷ []);
  list_experiments = λ ns s. one_page (experiments ns s);
  answer = λ _ _. none;
  clock = λ _ _. pos 12;
}

experiments-Paged :
    (ns : String) (s : Status)
    → Paged list_request_size (clients.list_experiments ns s) cursor_at (experiments ns s)
experiments-Paged ns waiting = one-Paged trial
experiments-Paged ns running = nothing-Paged
experiments-Paged ns Status.stopped = nothing-Paged
experiments-Paged ns Status.force_stopped = nothing-Paged
experiments-Paged ns (Status.unknown n) = nothing-Paged

experiments-few : (ns : String) (s : Status) → length (experiments ns s) < 3
experiments-few ns waiting = omega arith
experiments-few ns running = omega arith
experiments-few ns Status.stopped = omega arith
experiments-few ns Status.force_stopped = omega arith
experiments-few ns (Status.unknown n) = omega arith

list_from-enough_example :
    list_from list_request_size (one_page (trial ∷ [])) 3 "" [] ≡ ok (trial ∷ [])
list_from-enough_example =
    list_from-enough list_request_size (omega arith) (one_page (trial ∷ [])) cursor_at (trial ∷ [])
      (one-Paged trial) 3 (omega arith)

run-Made_example :
    ((run clients 3).calls ≡ calls_due clients experiments ("ns" ∷ []))
    × (Quiet clients → (run clients 3).last_error ≡ none)
run-Made_example =
    run-Made clients 3 experiments cursor_at experiments-Paged experiments-few ("ns" ∷ [])
      (one-Paged "ns") (omega arith)

-- The call that is due: the trial starts.
calls_due_example : calls_due clients experiments ("ns" ∷ []) ≡ start_experiment "ns" "e" ∷ []
calls_due_example = refl
