-- ===== src/Goal.antt =====
-- Goals: pkg/experiment/domain/goal.go and the handler of pkg/experiment/command/goal.go. `now` is
-- the clock of the operation. The methods of the type Goal return no error.
pub mod Requests
pub mod Edits
use bucketeer.Prelude.{ℤ, String, Bool, true, false, ok}
use bucketeer.Publish.{Sent, Sending, Outlet, send, after, failed, unknown_command}

pub record Goal : Type 0 where
  pub id : String
  pub name : String
  pub description : String
  pub deleted : Bool
  pub created_at : ℤ
  pub updated_at : ℤ
  pub is_in_use_status : Bool
  pub archived : Bool

unfoldable pub new_goal : (id name description : String) → (now : ℤ) → Goal
new_goal id name description now = record {
  id = id;
  name = name;
  description = description;
  deleted = false;
  created_at = now;
  updated_at = now;
  is_in_use_status = false;
  archived = false;
}

unfoldable pub rename : String → (now : ℤ) → Goal → Goal
rename name now g = record g { name = name; updated_at = now }

unfoldable pub change_description : String → (now : ℤ) → Goal → Goal
change_description description now g = record g { description = description; updated_at = now }

unfoldable pub set_archived : (now : ℤ) → Goal → Goal
set_archived now g = record g { archived = true; updated_at = now }

unfoldable pub set_deleted : (now : ℤ) → Goal → Goal
set_deleted now g = record g { deleted = true; updated_at = now }

pub data Command : Type 0 where
  create_goal : Command
  rename_goal change_description_goal : String → Command
  archive_goal delete_goal : Command
  other : Command

-- The bodies of the events, with the fields that the handler fills in.
pub data EventBody : Type 0 where
  goal_created :
      (id name description : String) → (deleted : Bool) → (created_at updated_at : ℤ) → EventBody
  goal_renamed goal_description_changed : (id text : String) → EventBody
  goal_archived goal_deleted : (id : String) → EventBody

abbrev pub goal_id : Goal → String
goal_id g = g.id

module _ {Event : Type 0} (o : Outlet EventBody Event) (now : ℤ) where
  abbrev pub Handling : Type 0
  Handling = Sent Goal Event → Sending ⊥ Goal Event

  -- A method of the handler: an operation of the goal, and then its event.
  abbrev pub run : (Goal → Goal) → (Goal → EventBody) → Handling
  run operation body h = after o (ok (operation h.subject)) goal_id body h

  unfoldable pub create : Handling
  create h =
      let g = h.subject in
      send o g.id (goal_created g.id g.name g.description g.deleted g.created_at g.updated_at) h

  unfoldable pub handle_rename : String → Handling
  handle_rename name = run (rename name now) (λ g. goal_renamed g.id name)

  unfoldable pub handle_description : String → Handling
  handle_description description =
      run (change_description description now) (λ g. goal_description_changed g.id description)

  unfoldable pub archive : Handling
  archive = run (set_archived now) (λ g. goal_archived g.id)

  unfoldable pub delete : Handling
  delete = run (set_deleted now) (λ g. goal_deleted g.id)

  unfoldable pub handle : Command → Handling
  handle create_goal = create
  handle (rename_goal name) = handle_rename name
  handle (change_description_goal description) = handle_description description
  handle archive_goal = archive
  handle delete_goal = delete
  handle other = failed unknown_command
