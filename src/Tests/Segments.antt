-- ===== src/Tests/Segments.antt =====
-- Segments: a command on a sample segment.
use bucketeer.Prelude.{
  ℕ, zero, suc, arith, pos, String, [], ◌∷◌, true, false, Option, none, some, ◌==◌, refl, contains,
}
use bucketeer.Feature.Model.{Rule, Clause, Operator}
use bucketeer.Publish.{Outlet, Sent, Leaves}
use bucketeer.Segment.Model.{Segment, initial}
use bucketeer.Segment.Command.{Command, EventBody, handle}
use bucketeer.Segment.Sound.{Sound}
use bucketeer.Segment.Fresh.{Distinct}
use bucketeer.Segment.Commands.{handle-Sound}

abbrev plan_clause : String → Clause
plan_clause id = record {
  id = id;
  attribute = "plan";
  operator = Operator.equals;
  values = "beta" ∷ "gold" ∷ [];
}

abbrev plan_rule : Rule
plan_rule = record { id = "r"; strategy = none; clauses = plan_clause "c" ∷ plan_clause "d" ∷ [] }

abbrev beta_users : Segment
beta_users = record {
  id = "s";
  name = "beta";
  description = "";
  rules = plan_rule ∷ [];
  created_at = pos 1;
  updated_at = pos 1;
  version = pos 1;
  deleted = false;
  included_user_count = pos 0;
  excluded_user_count = pos 0;
  status = initial;
  is_in_use_status = false;
}

abbrev outlet : Outlet EventBody String
outlet = record { new_event = λ id _. some id; publish = λ _ _. true }

abbrev session : Sent Segment String
session = record { subject = beta_users; published = [] }

abbrev one_id : ℕ → Option String
one_id zero = some "new"
one_id (suc n) = none

one_id-Distinct : Distinct one_id
one_id-Distinct zero zero id e f = refl
one_id-Distinct zero (suc j) id e f = cc
one_id-Distinct (suc i) j id e f = cc

beta_users-Sound : Sound beta_users
unfolding ◌==◌ contains
beta_users-Sound = record {
  rules_unique = (refl, tt);
  rules_sound = (
    record {
      some_clause = omega arith;
      clauses_unique = (refl, (refl, tt));
      some_value = (omega arith, (omega arith, tt));
    },
    tt,
  );
}

handle-Sound_example :
    Leaves Sound
      (handle outlet one_id (pos 7) (Command.add_clause "r" (some (plan_clause ""))) session)
handle-Sound_example =
    handle-Sound outlet one_id (pos 7) (Command.add_clause "r" (some (plan_clause ""))) session
      one_id-Distinct (omega arith) beta_users-Sound
