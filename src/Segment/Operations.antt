-- ===== src/Segment/Operations.antt =====
-- The methods of the type Segment of pkg/feature/domain/segment.go. `now` is the answer of
-- `time.Now().Unix()`. No method changes the segment before it returns an error.
use bucketeer.Prelude.{
  ℕ, ℤ, pos, String, List, [], ◌∷◌, ◌++◌, true, false, not, Option, none, some, length, leb,
  index_by, is_some, erase_at, set, Result, ok, err, read, or_err, guard, ◌>>=◌, ◌>>◌, add_int64,
  sub_int64,
}
use bucketeer.Feature.Model.{
  Error, rule_already_exists, rule_not_found, clause_already_exists, clause_not_found,
  rule_must_have_at_least_one_clause, clause_must_have_at_least_one_value, uuid_error, Rule, Clause,
  Operator,
}
use bucketeer.Feature.Lookup.{index, rule_id, clause_id}
use bucketeer.Segment.Model.{Status, initial, Segment}

abbrev pub Outcome : Type 0
Outcome = Result Error Segment

-- `new_id` is what `uuid.NewUUID` answers; `none` is its error.
unfoldable pub new_segment : Option String → (name description : String) → ℤ → Outcome
new_segment none name description now = err uuid_error
new_segment (some id) name description now = ok (record {
  id = id;
  name = name;
  description = description;
  rules = [];
  created_at = now;
  updated_at = pos 0;
  version = pos 1;
  deleted = false;
  included_user_count = pos 0;
  excluded_user_count = pos 0;
  status = initial;
  is_in_use_status = false;
})

unfoldable pub set_deleted : ℤ → Segment → Outcome
set_deleted now s = ok (record s { deleted = true; updated_at = now })

unfoldable pub change_name : String → ℤ → Segment → Outcome
change_name name now s = ok (record s { name = name; updated_at = now })

unfoldable pub change_description : String → ℤ → Segment → Outcome
change_description description now s = ok (record s { description = description; updated_at = now })

unfoldable pub find_rule_index : String → Segment → Result Error ℕ
find_rule_index id s = or_err (index_by rule_id id s.rules) rule_not_found

unfoldable pub find_clause_index : String → List Clause → Result Error ℕ
find_clause_index id clauses = or_err (index_by clause_id id clauses) clause_not_found

unfoldable pub add_rule : Rule → ℤ → Segment → Outcome
add_rule rule now s = do
  guard (not (is_some (index_by rule_id rule.id s.rules))) rule_already_exists
  ok (record s { rules = s.rules ++ rule ∷ []; updated_at = now })

unfoldable pub delete_rule : String → ℤ → Segment → Outcome
delete_rule rule now s = do
  idx ← find_rule_index rule s
  ok (record s { rules = erase_at s.rules idx; updated_at = now })

-- `s.Rules[idx].Clauses = clauses`, through the pointer to the rule.
abbrev pub set_clauses : ℕ → Rule → List Clause → ℤ → Segment → Segment
set_clauses idx rule clauses now s = record s {
  rules = set s.rules idx (record rule { clauses = clauses });
  updated_at = now;
}

unfoldable pub add_clause : String → Clause → ℤ → Segment → Outcome
add_clause rule clause now s = do
  idx ← find_rule_index rule s
  r ← read s.rules idx
  guard (not (is_some (index_by clause_id clause.id r.clauses))) clause_already_exists
  ok (set_clauses idx r (r.clauses ++ clause ∷ []) now s)

unfoldable pub delete_clause : String → String → ℤ → Segment → Outcome
delete_clause rule clause now s = do
  rule_idx ← find_rule_index rule s
  r ← read s.rules rule_idx
  guard (not (leb (length r.clauses) 1)) rule_must_have_at_least_one_clause
  idx ← find_clause_index clause r.clauses
  ok (set_clauses rule_idx r (erase_at r.clauses idx) now s)

-- A clause that was found: its rule and its place there.
pub record Found : Type 0 where
  pub rule_idx : ℕ
  pub rule : Rule
  pub clause_idx : ℕ
  pub clause : Clause

unfoldable pub find_clause : String → String → Segment → Result Error Found
find_clause rule clause s = do
  rule_idx ← find_rule_index rule s
  r ← read s.rules rule_idx
  idx ← find_clause_index clause r.clauses
  c ← read r.clauses idx
  ok (record { rule_idx = rule_idx; rule = r; clause_idx = idx; clause = c })

-- A write through the pointer to the clause.
abbrev pub set_clause : Found → Clause → ℤ → Segment → Segment
set_clause at c now s = set_clauses at.rule_idx at.rule (set at.rule.clauses at.clause_idx c) now s

unfoldable pub change_clause_attribute : String → String → String → ℤ → Segment → Outcome
change_clause_attribute rule clause attribute now s = do
  at ← find_clause rule clause s
  ok (set_clause at (record at.clause { attribute = attribute }) now s)

unfoldable pub change_clause_operator : String → String → Operator → ℤ → Segment → Outcome
change_clause_operator rule clause operator now s = do
  at ← find_clause rule clause s
  ok (set_clause at (record at.clause { operator = operator }) now s)

unfoldable pub add_clause_value : String → String → String → ℤ → Segment → Outcome
add_clause_value rule clause value now s = do
  at ← find_clause rule clause s
  ok (set_clause at (record at.clause { values = at.clause.values ++ value ∷ [] }) now s)

unfoldable pub remove_clause_value : String → String → String → ℤ → Segment → Outcome
remove_clause_value rule clause value now s = do
  at ← find_clause rule clause s
  guard (not (leb (length at.clause.values) 1)) clause_must_have_at_least_one_value
  idx ← index value at.clause.values
  ok (set_clause at (record at.clause { values = erase_at at.clause.values idx }) now s)

unfoldable pub add_included_user_count : ℤ → ℤ → Segment → Segment
add_included_user_count count now s = record s {
  included_user_count = add_int64 s.included_user_count count;
  updated_at = now;
}

unfoldable pub remove_included_user_count : ℤ → ℤ → Segment → Segment
remove_included_user_count count now s = record s {
  included_user_count = sub_int64 s.included_user_count count;
  updated_at = now;
}

unfoldable pub set_included_user_count : ℤ → ℤ → Segment → Segment
set_included_user_count count now s = record s { included_user_count = count; updated_at = now }

unfoldable pub set_status : Status → ℤ → Segment → Segment
set_status status now s = record s { status = status; updated_at = now }
