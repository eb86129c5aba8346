-- ===== src/Segment/Command.antt =====
-- SegmentCommandHandler of pkg/feature/command/segment.go: its commands, its events and `Handle`.
use bucketeer.Prelude.{ℕ, ℤ, pos, String, List, Option, none, some, length, ok}
use bucketeer.Feature.Model.{Error, uuid_error, Rule, Clause, Operator}
use bucketeer.Evaluation.Model.{SegmentUserState}
use bucketeer.Command.Handlers.{fresh_clauses}
use bucketeer.Publish.{
  Sent, domain, unknown_command, Sending, failed, panicked, Outlet, send, after,
}
use bucketeer.Segment.Model.{Status, uploading, Segment}
use bucketeer.Segment.Operations
use bucketeer.Segment.Operations.{Outcome}

pub data Command : Type 0 where
  create_segment delete_segment : Command
  change_name change_description : String → Command
  add_rule : Option Rule → Command
  delete_rule : (id : String) → Command
  add_clause : (rule_id : String) → Option Clause → Command
  delete_clause : (rule_id id : String) → Command
  change_clause_attribute : (rule_id id attribute : String) → Command
  change_clause_operator : (rule_id id : String) → Operator → Command
  add_clause_value remove_clause_value : (rule_id id value : String) → Command
  add_segment_user delete_segment_user : List String → SegmentUserState → Command
  bulk_upload_segment_users : SegmentUserState → Command
  change_bulk_upload_status : Status → SegmentUserState → ℤ → Command
  other : Command

-- The bodies of the events (proto/event/domain), with the fields that the handler fills in.
pub data EventBody : Type 0 where
  segment_created : (id name description : String) → EventBody
  segment_deleted : (id : String) → EventBody
  name_changed description_changed : (id text : String) → EventBody
  rule_added : (id : String) → Rule → EventBody
  rule_deleted : (id rule_id : String) → EventBody
  clause_added : (segment_id rule_id : String) → Clause → EventBody
  clause_deleted : (segment_id rule_id id : String) → EventBody
  clause_attribute_changed : (segment_id rule_id id attribute : String) → EventBody
  clause_operator_changed : (segment_id rule_id id : String) → Operator → EventBody
  clause_value_added clause_value_removed : (segment_id rule_id id value : String) → EventBody
  user_added user_deleted : (segment_id : String) → List String → SegmentUserState → EventBody
  bulk_upload_users : (segment_id : String) → Status → SegmentUserState → EventBody
  bulk_upload_status_changed : (segment_id : String) → Status → SegmentUserState → ℤ → EventBody

abbrev pub segment_id : Segment → String
segment_id s = s.id

-- `switch state { case INCLUDED: … }`.
unfoldable pub when_included : SegmentUserState → (Segment → Segment) → Segment → Segment
when_included SegmentUserState.included f s = f s
when_included SegmentUserState.excluded f s = s
when_included (SegmentUserState.unknown n) f s = s

-- `new_uuid` is the answers of `uuid.NewUUID` in the order of its calls.
module _ {Event : Type 0} (o : Outlet EventBody Event) (new_uuid : ℕ → Option String)
    (now : ℤ) where
  abbrev pub Handling : Type 0
  Handling = Sent Segment Event → Sending Error Segment Event

  -- A method of the handler: an operation of the segment, and then its event.
  abbrev pub run : (Segment → Outcome) → (Segment → EventBody) → Handling
  run operation body h = after o (operation h.subject) segment_id body h

  unfoldable pub create : Handling
  create h =
      send o h.subject.id
        (EventBody.segment_created h.subject.id h.subject.name h.subject.description) h

  unfoldable pub delete : Handling
  delete = run (Operations.set_deleted now) (λ s. EventBody.segment_deleted s.id)

  unfoldable pub rename : String → Handling
  rename name = run (Operations.change_name name now) (λ s. EventBody.name_changed s.id s.name)

  unfoldable pub describe : String → Handling
  describe description =
      run (Operations.change_description description now)
        (λ s. EventBody.description_changed s.id s.description)

  unfoldable pub add_rule_with : Rule → Option (List Clause) → Handling
  add_rule_with rule none = failed (domain uuid_error)
  add_rule_with rule (some clauses) =
      run (Operations.add_rule (record rule { clauses = clauses }) now)
        (λ s. EventBody.rule_added s.id (record rule { clauses = clauses }))

  unfoldable pub insert_rule : Option Rule → Handling
  insert_rule none h = panicked
  insert_rule (some rule) h = add_rule_with rule (fresh_clauses new_uuid 0 rule.clauses) h

  unfoldable pub remove_rule : String → Handling
  remove_rule id = run (Operations.delete_rule id now) (λ s. EventBody.rule_deleted s.id id)

  -- The id is drawn before the clause is looked at.
  unfoldable pub add_clause_with : String → Option Clause → Option String → Handling
  add_clause_with rule_id clause none h = failed (domain uuid_error) h
  add_clause_with rule_id none (some id) h = panicked
  add_clause_with rule_id (some c) (some id) h =
      run (Operations.add_clause rule_id (record c { id = id }) now)
        (λ s. EventBody.clause_added s.id rule_id (record c { id = id })) h

  unfoldable pub insert_clause : String → Option Clause → Handling
  insert_clause rule_id clause = add_clause_with rule_id clause (new_uuid 0)

  unfoldable pub remove_clause : String → String → Handling
  remove_clause rule_id id =
      run (Operations.delete_clause rule_id id now) (λ s. EventBody.clause_deleted s.id rule_id id)

  unfoldable pub change_attribute : String → String → String → Handling
  change_attribute rule_id id attribute =
      run (Operations.change_clause_attribute rule_id id attribute now)
        (λ s. EventBody.clause_attribute_changed s.id rule_id id attribute)

  unfoldable pub change_operator : String → String → Operator → Handling
  change_operator rule_id id operator =
      run (Operations.change_clause_operator rule_id id operator now)
        (λ s. EventBody.clause_operator_changed s.id rule_id id operator)

  unfoldable pub insert_value : String → String → String → Handling
  insert_value rule_id id value =
      run (Operations.add_clause_value rule_id id value now)
        (λ s. EventBody.clause_value_added s.id rule_id id value)

  unfoldable pub remove_value : String → String → String → Handling
  remove_value rule_id id value =
      run (Operations.remove_clause_value rule_id id value now)
        (λ s. EventBody.clause_value_removed s.id rule_id id value)

  unfoldable pub add_users : List String → SegmentUserState → Handling
  add_users users state =
      run
        (λ s.
          ok (when_included state (Operations.add_included_user_count (pos (length users)) now) s))
        (λ s. EventBody.user_added s.id users state)

  unfoldable pub delete_users : List String → SegmentUserState → Handling
  delete_users users state =
      run
        (λ s.
          ok (
            when_included state (Operations.remove_included_user_count (pos (length users)) now) s))
        (λ s. EventBody.user_deleted s.id users state)

  unfoldable pub bulk_upload : SegmentUserState → Handling
  bulk_upload state =
      run (λ s. ok (Operations.set_status uploading now s))
        (λ s. EventBody.bulk_upload_users s.id uploading state)

  unfoldable pub change_upload_status : Status → SegmentUserState → ℤ → Handling
  change_upload_status status state count =
      run
        (λ s. ok (
          when_included state (Operations.set_included_user_count count now)
            (Operations.set_status status now s)))
        (λ s. EventBody.bulk_upload_status_changed s.id status state count)

  unfoldable pub handle : Command → Handling
  handle Command.create_segment = create
  handle Command.delete_segment = delete
  handle (Command.change_name name) = rename name
  handle (Command.change_description description) = describe description
  handle (Command.add_rule rule) = insert_rule rule
  handle (Command.delete_rule id) = remove_rule id
  handle (Command.add_clause rule_id clause) = insert_clause rule_id clause
  handle (Command.delete_clause rule_id id) = remove_clause rule_id id
  handle (Command.change_clause_attribute rule_id id attribute) =
      change_attribute rule_id id attribute
  handle (Command.change_clause_operator rule_id id operator) = change_operator rule_id id operator
  handle (Command.add_clause_value rule_id id value) = insert_value rule_id id value
  handle (Command.remove_clause_value rule_id id value) = remove_value rule_id id value
  handle (Command.add_segment_user users state) = add_users users state
  handle (Command.delete_segment_user users state) = delete_users users state
  handle (Command.bulk_upload_segment_users state) = bulk_upload state
  handle (Command.change_bulk_upload_status status state count) =
      change_upload_status status state count
  handle Command.other = failed unknown_command
