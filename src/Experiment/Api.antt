-- ===== src/Experiment/Api.antt =====
-- The requests that change experiments: pkg/experiment/api/experiment.go, with the errors of
-- error.go and checkRole of api.go.
use bucketeer.Prelude.{
  ℤ, pos, String, List, [], ◌∷◌, Bool, true, false, not, ◌||◌, Option, none, some, leb_ℤ, ltb_ℤ,
  ◌==◌, contains, Result, ok, err, panic, guard, ◌>>◌, sub_int64,
}
use bucketeer.Role.{Role, Token, Account, AccountFault, Editor, RoleError, check_role}
use bucketeer.Publish.{Sent, Sending, done, failed, panicked}
use bucketeer.Transaction.{Store, TxError, Served, refused, aborted_by_panic}
use bucketeer.Experiment.Model.{ExperimentError}

pub data ApiError : Type 0 where
  internal invalid_cursor no_command unknown_command feature_id_required : ApiError
  experiment_id_required goal_id_required invalid_goal_id goal_name_required : ApiError
  period_too_long invalid_order_by not_found goal_not_found feature_not_found : ApiError
  already_exists unauthenticated permission_denied : ApiError

pub record CreateExperiment : Type 0 where
  pub feature_id : String
  pub start_at : ℤ
  pub stop_at : ℤ
  pub goal_ids : List String
  pub name : String
  pub description : String
  pub base_variation_id : String

-- Who calls: the token, and the account service.
pub record Caller : Type 0 where
  pub token : Option Token
  pub get_account : String → Result AccountFault Account

unfoldable pub role_status : RoleError → ApiError
role_status RoleError.unauthenticated = unauthenticated
role_status RoleError.permission_denied = permission_denied
role_status RoleError.internal = internal

unfoldable pub authorize_as : Result RoleError Editor → Result ApiError Editor
authorize_as (ok e) = ok e
authorize_as (err x) = err (role_status x)
authorize_as panic = panic

unfoldable pub authorize : Caller → Role → Result ApiError Editor
authorize caller required = authorize_as (check_role caller.token required caller.get_account)

abbrev pub max_experiment_period : ℤ
max_experiment_period = pos 2592000

unfoldable pub validate_experiment_period : (start_at stop_at : ℤ) → Result ApiError (Unit {0})
validate_experiment_period start_at stop_at =
    let period = sub_int64 stop_at start_at in
    guard (not (leb_ℤ period (pos 0) || ltb_ℤ max_experiment_period period)) period_too_long

abbrev pub no_goals : List String → Bool
no_goals [] = true
no_goals (g ∷ gs) = false

unfoldable pub validate_create_experiment : Option CreateExperiment → Result ApiError (Unit {0})
validate_create_experiment none = err no_command
validate_create_experiment (some c) = do
  guard (not (c.feature_id == "")) feature_id_required
  guard (not (no_goals c.goal_ids)) goal_id_required
  guard (not (contains "" c.goal_ids)) goal_id_required
  validate_experiment_period c.start_at c.stop_at

unfoldable pub validate_update_experiment :
    (id : String) → Option (ℤ × ℤ) → Result ApiError (Unit {0})
validate_update_experiment id none = guard (not (id == "")) experiment_id_required
validate_update_experiment id (some (start_at, stop_at)) = do
  guard (not (id == "")) experiment_id_required
  validate_experiment_period start_at stop_at

-- `validateStartExperimentRequest` and its like: the id, and whether the command is there.
unfoldable pub validate_command_request :
    (id : String) → (command : Bool) → Result ApiError (Unit {0})
validate_command_request id command = do
  guard (not (id == "")) experiment_id_required
  guard command no_command

unfoldable pub update_status : TxError ExperimentError → ApiError
update_status TxError.not_found = not_found
update_status TxError.unexpected_affected_rows = not_found
update_status TxError.already_exists = internal
update_status TxError.database_error = internal
update_status (TxError.handler e) = internal

unfoldable pub create_status : TxError ExperimentError → ApiError
create_status TxError.already_exists = already_exists
create_status TxError.not_found = internal
create_status TxError.unexpected_affected_rows = internal
create_status TxError.database_error = internal
create_status (TxError.handler e) = internal

-- A request that is refused before it starts leaves the store alone.
unfoldable pub checked :
    {A S Event : Type 0}
    → Result ApiError A
    → (A → Store S Event → Served ApiError S Event)
    → Store S Event
    → Served ApiError S Event
checked (ok a) k s = k a s
checked (err e) k s = refused e s
checked panic k s = aborted_by_panic

-- The next command on what the one before left.
unfoldable pub and_then :
    {E S Event : Type 0}
    → Sending E S Event
    → (Sent S Event → Sending E S Event)
    → Sending E S Event
and_then (done h) k = k h
and_then (failed e h) k = failed e h
and_then panicked k = panicked
