-- ===== src/Goal/Requests.antt =====
-- The services of pkg/experiment/api/goal.go that write.
use bucketeer.Prelude.{
  ℤ, String, List, [], ◌∷◌, ◌++◌, Bool, true, false, not, ◌==◌, Option, none, some, Result, err,
  guard, ◌>>◌, ◌>>=◌, deref,
}
use bucketeer.Role.{editor}
use bucketeer.Publish.{Outlet, done}
use bucketeer.Transaction.{Store, Database, TxError, Served, serve_update, serve_insert}
use bucketeer.Api.Identifiers.{is_feature_id}
use bucketeer.Experiment.Api.{
  ApiError, internal, no_command, goal_id_required, invalid_goal_id, goal_name_required, not_found,
  already_exists, Caller, authorize, checked, and_then,
}
use bucketeer.Goal.{
  Goal, new_goal, Command, create_goal, rename_goal, change_description_goal, archive_goal,
  delete_goal, EventBody, Handling, handle,
}

pub record CreateGoal : Type 0 where
  pub id : String
  pub name : String
  pub description : String

-- The pattern of the ids of goals is that of features: `^[a-zA-Z0-9-]+$`.
unfoldable pub validate_create_goal : Option CreateGoal → Result ApiError (Unit {0})
validate_create_goal none = err no_command
validate_create_goal (some c) = do
  guard (not (c.id == "")) goal_id_required
  guard (is_feature_id c.id) invalid_goal_id
  guard (not (c.name == "")) goal_name_required

unfoldable pub update_status : TxError ⊥ → ApiError
update_status TxError.not_found = not_found
update_status TxError.unexpected_affected_rows = not_found
update_status TxError.already_exists = internal
update_status TxError.database_error = internal
update_status (TxError.handler e) = internal

unfoldable pub create_status : TxError ⊥ → ApiError
create_status TxError.already_exists = already_exists
create_status TxError.not_found = internal
create_status TxError.unexpected_affected_rows = internal
create_status TxError.database_error = internal
create_status (TxError.handler e) = internal

abbrev pub given : {A : Type 0} → (A → Command) → Option A → List Command
given c none = []
given c (some a) = c a ∷ []

-- The one command of ArchiveGoal or DeleteGoal, where it is there.
abbrev pub when : Bool → Command → List Command
when true c = c ∷ []
when false c = []

-- The commands of UpdateGoal, in their order.
unfoldable pub commands_of : (name description : Option String) → List Command
commands_of name description = given rename_goal name ++ given change_description_goal description

abbrev pub is_nil : List Command → Bool
is_nil [] = true
is_nil (c ∷ cs) = false

unfoldable pub validate_update_goal : (id : String) → List Command → Result ApiError (Unit {0})
validate_update_goal id commands = do
  guard (not (id == "")) goal_id_required
  guard (not (is_nil commands)) no_command

module _ {Event : Type 0} (o : Outlet EventBody Event) (now : ℤ) where
  -- The loop over the commands: it ends with the first error.
  unfoldable pub handle_all : List Command → Handling o now
  handle_all [] h = done h
  handle_all (c ∷ cs) h = and_then (handle o now c h) (handle_all cs)

module _ {Event : Type 0} (db : Database Goal) (o : Outlet EventBody Event) (caller : Caller)
    (now : ℤ) where
  abbrev pub Request : Type 0
  Request = Store Goal Event → Served ApiError Goal Event

  unfoldable pub update_goal : List Command → (id : String) → Request
  update_goal commands id = serve_update db update_status (handle_all o now commands) id

  unfoldable pub checked_update : List Command → (id : String) → Request
  checked_update commands id =
      checked (do _ ← authorize caller editor; validate_update_goal id commands)
        (λ _. update_goal commands id)

  unfoldable pub update_goal_request : (id : String) → (name description : Option String) → Request
  update_goal_request id name description = checked_update (commands_of name description) id

  unfoldable pub archive_goal_request : (id : String) → (command : Bool) → Request
  archive_goal_request id command = checked_update (when command archive_goal) id

  unfoldable pub delete_goal_request : (id : String) → (command : Bool) → Request
  delete_goal_request id command = checked_update (when command delete_goal) id

  unfoldable pub create_goal_request : Option CreateGoal → Request
  create_goal_request command =
      checked (do _ ← authorize caller editor; validate_create_goal command; deref command)
        (λ c.
          serve_insert db create_status (handle o now create_goal)
            (new_goal c.id c.name c.description now))
