-- ===== src/Experiment/Updater.antt =====
-- The job that starts and finishes experiments:
-- pkg/experiment/batch/job/experiment_status_updater.go.
use bucketeer.Prelude.{
  ℕ, zero, suc, ℤ, String, List, [], ◌∷◌, ◌++◌, Bool, true, false, ◌||◌, Option, none, some, eqb,
  ltb, length, if◌then◌else◌, Result, ok, err, panic, ◌>>=◌,
}
use bucketeer.Experiment.Model.{
  Status, waiting, running, Experiment, ExperimentError, before_start, before_stop,
}
use bucketeer.Experiment.Operations
use bucketeer.Experiment.Operations.{Outcome, is_waiting, is_running}
pub mod Paging
pub mod Due

abbrev pub list_request_size : ℕ
list_request_size = 500

pub record Page (A : Type 0) : Type 0 where
  pub items : List A
  pub cursor : String

-- The loop of `listExperiments` and `listEnvironments`. Fuel: one unit for each page; it would
-- panic without.
unfoldable pub list_from :
    {E A : Type 0}
    → (size : ℕ) → (String → Result E (Page A))
    → (fuel : ℕ) → (cursor : String) → List A
    → Result E (List A)
list_from size fetch zero cursor acc = panic
list_from size fetch (suc fuel) cursor acc = fetch cursor >>= λ page.
    let n = length page.items in
    let acc' = acc ++ page.items in
    let rest = list_from size fetch fuel page.cursor acc' in
    if eqb n 0 || ltb n size then ok acc' else rest

-- The calls that the job makes of the experiment service.
pub data Call : Type 0 where
  start_experiment finish_experiment : (environment_namespace id : String) → Call

-- The clients of the job: the two listings by cursor, and the answer to a call after those made
-- before; `some` is an error. The clock is read for each experiment.
pub record Clients (E : Type 0) : Type 0 where
  pub list_environments : String → Result E (Page String)
  pub list_experiments : String → Status → String → Result E (Page Experiment)
  pub answer : List Call → Call → Option E
  pub clock : String → Experiment → ℤ

pub data JobError (E : Type 0) : Type 0 where
  domain : ExperimentError → JobError E
  client : E → JobError E

-- The calls made, and the last error.
pub record Progress (E : Type 0) : Type 0 where
  pub calls : List Call
  pub last_error : Option (JobError E)

module _ {E : Type 0} (clients : Clients E) (fuel : ℕ) where
  unfoldable pub list_environments : Result E (List String)
  list_environments = list_from list_request_size clients.list_environments fuel "" []

  unfoldable pub list_experiments : String → Status → Result E (List Experiment)
  list_experiments ns status =
      list_from list_request_size (clients.list_experiments ns status) fuel "" []

  unfoldable pub make_call : Call → Progress E → Progress E
  make_call c p = elim (clients.answer p.calls c) [
    | none ↦ record p { calls = p.calls ++ c ∷ [] }
    | some e ↦ record { calls = p.calls ++ c ∷ []; last_error = some (client e) }
  ]

  -- The end of `updateToRunning`, given what `Start` answers.
  unfoldable pub after_start : Outcome → Call → Progress E → Progress E
  after_start (ok e) c p = make_call c p
  after_start (err before_start) c p = p
  after_start (err x) c p = record p { last_error = some (domain x) }
  after_start panic c p = p

  -- The end of `updateToStopped`, given what `Finish` answers.
  unfoldable pub after_finish : Outcome → Call → Progress E → Progress E
  after_finish (ok e) c p = make_call c p
  after_finish (err before_stop) c p = p
  after_finish (err x) c p = record p { last_error = some (domain x) }
  after_finish panic c p = p

  unfoldable pub update_to_running : String → Experiment → Progress E → Progress E
  update_to_running ns e =
      after_start (Operations.start (clients.clock ns e) e) (start_experiment ns e.id)

  unfoldable pub update_to_stopped : String → Experiment → Progress E → Progress E
  update_to_stopped ns e =
      after_finish (Operations.finish (clients.clock ns e) e) (finish_experiment ns e.id)

  unfoldable pub update_status : String → Experiment → Progress E → Progress E
  update_status ns e p =
      if is_waiting e.status
      then update_to_running ns e p
      else if is_running e.status
      then update_to_stopped ns e p
      else p

  unfoldable pub update_all : String → List Experiment → Progress E → Progress E
  update_all ns [] p = p
  update_all ns (e ∷ es) p = update_all ns es (update_status ns e p)

  -- A listing that fails is recorded, and its experiments are left out.
  unfoldable pub listed : Result E (List Experiment) → List Experiment
  listed (ok es) = es
  listed (err x) = []
  listed panic = []

  unfoldable pub listing_error : Result E (List Experiment) → Progress E → Progress E
  listing_error (ok es) p = p
  listing_error (err x) p = record p { last_error = some (client x) }
  listing_error panic p = p

  unfoldable pub run_environment : String → Progress E → Progress E
  run_environment ns p =
      let w = list_experiments ns waiting in
      let r = list_experiments ns running in
      update_all ns (listed w ++ listed r) (listing_error r (listing_error w p))

  unfoldable pub run_environments : List String → Progress E → Progress E
  run_environments [] p = p
  run_environments (ns ∷ nss) p = run_environments nss (run_environment ns p)

  unfoldable pub run_listed : Result E (List String) → Progress E
  run_listed (ok nss) = run_environments nss (record { calls = []; last_error = none })
  run_listed (err x) = record { calls = []; last_error = some (client x) }
  run_listed panic = record { calls = []; last_error = none }

  unfoldable pub run : Progress E
  run = run_listed list_environments
