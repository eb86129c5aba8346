-- ===== src/Tests/Goals.antt =====
-- Goals: a sample request that renames one and describes it anew.
use bucketeer.Prelude.{pos, String, [], ◌∷◌, true, false, none, some, ◌==◌, ◌≡◌, refl, err}
use bucketeer.Role.{AccountFault, check_role, check_role_of}
use bucketeer.Publish.{Outlet, after, send}
use bucketeer.Transaction.{
  Store, served, serve_update, run_in_transaction, change_row, write_after, update_row, reply,
}
use bucketeer.Transaction.Laws.{Atomic}
use bucketeer.Experiment.Api.{
  Caller, invalid_goal_id, checked, and_then, authorize, authorize_as, role_status,
}
use bucketeer.Goal.{Goal, new_goal, EventBody, handle, handle_rename, rename}
use bucketeer.Goal.Requests.{
  update_goal_request, checked_update, update_goal, commands_of, validate_update_goal, handle_all,
  validate_create_goal,
}
use bucketeer.Goal.Edits.{Updated, update_goal_request-Updated}
use bucketeer.Api.Identifiers.{is_feature_id}
use bucketeer.Tests.Database.{table}

abbrev signup : Goal
signup = record {
  id = "g";
  name = "signup";
  description = "";
  deleted = false;
  created_at = pos 1;
  updated_at = pos 1;
  is_in_use_status = false;
  archived = false;
}

abbrev outlet : Outlet EventBody String
outlet = record { new_event = λ id _. some id; publish = λ _ _. true }

abbrev owner_caller : Caller
owner_caller = record {
  token = some (record { email = "m"; is_admin = true });
  get_account = λ _. err AccountFault.account_not_found;
}

abbrev goals : Store Goal String
goals = record { rows = signup ∷ []; published = [] }

signup_created : new_goal "g" "signup" "" (pos 1) ≡ signup
unfolding new_goal
signup_created = refl

update_goal_request-Updated_example :
    Atomic
      (Updated
        (table (λ g. g.id))
        outlet
        owner_caller
        (pos 5)
        "g"
        (some "join")
        (some "joined")
        goals)
      goals
      (update_goal_request
        (table (λ g. g.id))
        outlet
        owner_caller
        (pos 5)
        "g"
        (some "join")
        (some "joined")
        goals)
update_goal_request-Updated_example =
    update_goal_request-Updated (table (λ g. g.id)) outlet owner_caller (pos 5) "g" (some "join")
      (some "joined") goals

spaced_goal_id :
    validate_create_goal (some (record { id = "a b"; name = "n"; description = "" }))
    ≡ err invalid_goal_id
unfolding validate_create_goal ◌==◌ is_feature_id
spaced_goal_id = refl

signup_updated :
    update_goal_request (table (λ g. g.id)) outlet owner_caller (pos 5) "g" (some "join") none goals
    ≡ served (record {
      rows = record signup { name = "join"; updated_at = pos 5 } ∷ [];
      published = "g" ∷ [];
    })
unfolding update_goal_request checked_update update_goal commands_of validate_update_goal ◌==◌
    checked serve_update run_in_transaction change_row write_after update_row reply handle_all
    and_then handle handle_rename rename after send authorize authorize_as role_status check_role
    check_role_of
signup_updated = refl
