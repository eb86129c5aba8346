-- ===== src/AutoOps/Execute.antt =====
-- ExecuteAutoOps of pkg/autoops/api/api.go with the operations of operation.go. The services of
-- features are a parameter, and so is the database.
pub mod Once
pub mod Again
use bucketeer.Prelude.{
  ℤ, String, List, [], ◌∷◌, ◌++◌, Bool, not, Option, none, some, if◌then◌else◌, ◌==◌, Result, ok,
  err, panic, guard, ◌>>◌, ◌>>=◌,
}
use bucketeer.Role.{RoleError, Editor, editor, check_role}
use bucketeer.Publish.{Sent, Sending, Outlet, done, failed, panicked}
use bucketeer.Transaction.{
  Store, Database, row, no_rows, select_error, TxError, Attempt, finished, aborted, crashed,
  update_row,
}
use bucketeer.Experiment.Api.{Caller}
use bucketeer.AutoOps.Model.{OpsType, AutoOpsRule, AutoOpsError, Packings}
use bucketeer.AutoOps.Operations.{already_triggered}
use bucketeer.AutoOps.Command.{Command, EventBody, handle}

-- The errors of pkg/autoops/api/error.go that the request answers.
pub data ApiError : Type 0 where
  internal no_command id_required not_found unauthenticated permission_denied : ApiError

-- A request to the service of features.
pub data FeatureCall : Type 0 where
  enable disable : (feature_id : String) → FeatureCall

pub data FeatureFault : Type 0 where
  failed_precondition other_code : FeatureFault

-- Its answer may depend on the requests before; `none` is success.
pub record Features : Type 0 where
  pub answer : List FeatureCall → FeatureCall → Option FeatureFault

-- The errors of the function that runs in the transaction.
pub data ExecuteError : Type 0 where
  triggered_before unknown_ops_type operation_failed : ExecuteError
  transaction : TxError AutoOpsError → ExecuteError

-- The operation's error, if any, and the requests made.
pub record Operated : Type 0 where
  pub error : Option ExecuteError
  pub calls : List FeatureCall

pub data Outcome (S Event : Type 0) : Type 0 where
  completed : Store S Event → List FeatureCall → Outcome S Event
  stopped : ExecuteError → List Event → List FeatureCall → Outcome S Event
  crash : Outcome S Event

-- What the request answers, the store it leaves and the requests made of the features.
pub data Executed (S Event : Type 0) : Type 0 where
  executed already_executed : Store S Event → List FeatureCall → Executed S Event
  refused : ApiError → Store S Event → List FeatureCall → Executed S Event
  aborted_by_panic : Executed S Event

unfoldable pub role_status : RoleError → ApiError
role_status RoleError.unauthenticated = unauthenticated
role_status RoleError.permission_denied = permission_denied
role_status RoleError.internal = internal

unfoldable pub authorize_as : Result RoleError Editor → Result ApiError (Unit {0})
authorize_as (ok e) = ok tt
authorize_as (err x) = err (role_status x)
authorize_as panic = panic

unfoldable pub validate_execute : (id : String) → (command : Bool) → Result ApiError (Unit {0})
validate_execute id command = do guard (not (id == "")) id_required; guard command no_command

-- A failed precondition is passed over.
unfoldable pub operation_error : Option FeatureFault → Option ExecuteError
operation_error none = none
operation_error (some failed_precondition) = none
operation_error (some other_code) = some operation_failed

unfoldable pub operate : Features → FeatureCall → List FeatureCall → Operated
operate features c calls = record {
  error = operation_error (features.answer calls c);
  calls = calls ++ c ∷ [];
}

unfoldable pub execute_operation :
    Features → OpsType → (feature_id : String) → List FeatureCall → Operated
execute_operation features OpsType.enable_feature id calls = operate features (enable id) calls
execute_operation features OpsType.disable_feature id calls = operate features (disable id) calls
execute_operation features (OpsType.unknown n) id calls = record {
  error = some unknown_ops_type;
  calls = calls;
}

unfoldable pub error_status : ExecuteError → ApiError
error_status (transaction TxError.not_found) = not_found
error_status (transaction TxError.unexpected_affected_rows) = not_found
error_status (transaction TxError.already_exists) = internal
error_status (transaction TxError.database_error) = internal
error_status (transaction (TxError.handler e)) = internal
error_status triggered_before = internal
error_status unknown_ops_type = internal
error_status operation_failed = internal

module _ {S Event : Type 0} where
  unfoldable pub after_operation : Store S Event → Operated → Outcome S Event
  after_operation s r = elim r.error [
    | none ↦ completed s r.calls
    | some e ↦ stopped e s.published r.calls
  ]

  unfoldable pub reply : Store S Event → Outcome S Event → Executed S Event
  reply s (completed s' calls) = executed s' calls
  reply s (stopped triggered_before events calls) =
      already_executed (record s { published = events }) calls
  reply s (stopped unknown_ops_type events calls) =
      refused (error_status unknown_ops_type) (record s { published = events }) calls
  reply s (stopped operation_failed events calls) =
      refused (error_status operation_failed) (record s { published = events }) calls
  reply s (stopped (transaction e) events calls) =
      refused (error_status (transaction e)) (record s { published = events }) calls
  reply s crash = aborted_by_panic

module _ {Any Float Event : Type 0} (db : Database (AutoOpsRule Any)) (features : Features)
    (o : Outlet (EventBody Any Float) Event) (p : Packings Any Float) (now : ℤ) where
  -- The row is written, and then the operation is executed.
  unfoldable pub after_write :
      AutoOpsRule Any
      → Attempt AutoOpsError (AutoOpsRule Any) Event
      → List FeatureCall
      → Outcome (AutoOpsRule Any) Event
  after_write a (finished s) calls =
      after_operation s (execute_operation features a.ops_type a.feature_id calls)
  after_write a (aborted e events) calls = stopped (transaction e) events calls
  after_write a crashed calls = crash

  unfoldable pub after_handle :
      List (AutoOpsRule Any)
      → Sending AutoOpsError (AutoOpsRule Any) Event
      → List FeatureCall
      → Outcome (AutoOpsRule Any) Event
  after_handle rows (done h) calls = after_write h.subject (update_row db rows h) calls
  after_handle rows (failed e h) calls = stopped (transaction (TxError.handler e)) h.published calls
  after_handle rows panicked calls = crash

  -- The function that runs in the transaction.
  unfoldable pub execute_row :
      (id : String)
      → Store (AutoOpsRule Any) Event
      → List FeatureCall
      → Outcome (AutoOpsRule Any) Event
  execute_row id s calls = elim (db.select s.rows id) [
    | no_rows ↦ stopped (transaction TxError.not_found) s.published calls
    | select_error ↦ stopped (transaction TxError.database_error) s.published calls
    | row a ↦
        if already_triggered a
        then stopped triggered_before s.published calls
        else after_handle s.rows
            (handle o p none now Command.mark_triggered
              (record { subject = a; published = s.published }))
            calls
  ]

  unfoldable pub commit : Outcome (AutoOpsRule Any) Event → Outcome (AutoOpsRule Any) Event
  commit (completed s calls) =
      if db.commit
      then completed s calls
      else stopped (transaction TxError.database_error) s.published calls
  commit (stopped e events calls) = stopped e events calls
  commit crash = crash

  unfoldable pub execute :
      (id : String)
      → Store (AutoOpsRule Any) Event
      → List FeatureCall
      → Executed (AutoOpsRule Any) Event
  execute id s calls =
      if db.begin_tx then reply s (commit (execute_row id s calls)) else refused internal s calls

  unfoldable pub checked_execute :
      Result ApiError (Unit {0})
      → (id : String) → Store (AutoOpsRule Any) Event
      → List FeatureCall
      → Executed (AutoOpsRule Any) Event
  checked_execute (ok _) id s calls = execute id s calls
  checked_execute (err e) id s calls = refused e s calls
  checked_execute panic id s calls = aborted_by_panic

  unfoldable pub execute_auto_ops :
      Caller
      → (id : String) → (command : Bool) → Store (AutoOpsRule Any) Event
      → List FeatureCall
      → Executed (AutoOpsRule Any) Event
  execute_auto_ops caller id command =
      checked_execute
        (do
          authorize_as (check_role caller.token editor caller.get_account)
          validate_execute id command)
        id
