-- ===== src/AutoOps/Command.antt =====
-- AutoOpsRuleCommandHandler of pkg/autoops/command/auto_ops_rule.go: its commands, its events and
-- `Handle`.
use bucketeer.Prelude.{ℤ, String, List, Option, Result, ok, err, panic}
use bucketeer.Publish.{Sent, domain, unknown_command, Sending, failed, panicked, Outlet, send}
use bucketeer.AutoOps.Model.{
  OpsType, OpsEventRateClause, DatetimeClause, WebhookClause, Clause, AutoOpsRule, AutoOpsError,
  Packings,
}
use bucketeer.AutoOps.Operations
use bucketeer.AutoOps.Operations.{Edit, edited, refused}

pub data Command (Float : Type 0) : Type 0 where
  create_rule delete_rule mark_triggered : Command Float
  set_ops_type : OpsType → Command Float
  new_rate_clause : OpsEventRateClause Float → Command Float
  other_rate_clause : (id : String) → OpsEventRateClause Float → Command Float
  drop_clause : (id : String) → Command Float
  new_datetime_clause : DatetimeClause → Command Float
  other_datetime_clause : (id : String) → DatetimeClause → Command Float
  new_webhook_clause : WebhookClause → Command Float
  other_webhook_clause : (id : String) → WebhookClause → Command Float
  other : Command Float

-- The bodies of the events (proto/event/domain), with the fields that the handler fills in.
pub data EventBody (Any Float : Type 0) : Type 0 where
  rule_created :
      (feature_id : String)
      → OpsType
      → List (Clause Any)
      → (triggered_at created_at updated_at : ℤ) → EventBody Any Float
  rule_deleted triggered_at_changed : EventBody Any Float
  ops_type_changed : OpsType → EventBody Any Float
  rate_clause_added rate_clause_changed :
      (clause_id : String) → OpsEventRateClause Float → EventBody Any Float
  clause_deleted : (clause_id : String) → EventBody Any Float
  datetime_clause_added datetime_clause_changed :
      (clause_id : String) → DatetimeClause → EventBody Any Float
  webhook_clause_added webhook_clause_changed :
      (clause_id : String) → WebhookClause → EventBody Any Float

module _ {Any Float Event : Type 0} (o : Outlet (EventBody Any Float) Event)
    (p : Packings Any Float) (new_id : Option String) (now : ℤ) where
  abbrev pub Handling : Type 0
  Handling = Sent (AutoOpsRule Any) Event → Sending AutoOpsError (AutoOpsRule Any) Event

  -- A change of the rule, and then its event.
  unfoldable pub tell : AutoOpsRule Any → EventBody Any Float → Handling
  tell a body h = send o a.id body (record h { subject = a })

  unfoldable pub after_edit : Edit Any → EventBody Any Float → Handling
  after_edit (edited a) body h = tell a body h
  after_edit (refused e a) body h = failed (domain e) (record h { subject = a })

  unfoldable pub after_add :
      Result AutoOpsError (Clause Any × AutoOpsRule Any) → (String → EventBody Any Float) → Handling
  after_add (ok (c, a)) body h = tell a (body c.id) h
  after_add (err e) body h = failed (domain e) h
  after_add panic body h = panicked

  unfoldable pub create : Handling
  create h =
      let a = h.subject in
      tell a
        (EventBody.rule_created a.feature_id a.ops_type a.clauses a.triggered_at a.created_at
          a.updated_at)
        h

  unfoldable pub change_ops_type : OpsType → Handling
  change_ops_type ops_type h =
      tell (Operations.set_ops_type ops_type now h.subject) (EventBody.ops_type_changed ops_type) h

  unfoldable pub delete : Handling
  delete h = tell (Operations.set_deleted now h.subject) EventBody.rule_deleted h

  unfoldable pub change_triggered_at : Handling
  change_triggered_at h =
      tell (Operations.set_triggered_at now h.subject) EventBody.triggered_at_changed h

  unfoldable pub add_rate_clause : OpsEventRateClause Float → Handling
  add_rate_clause c h =
      after_add (Operations.add_packed p.rate c new_id now h.subject)
        (λ id. EventBody.rate_clause_added id c) h

  unfoldable pub change_rate_clause : String → OpsEventRateClause Float → Handling
  change_rate_clause id c h =
      after_edit (Operations.change_clause p.rate id c now h.subject)
        (EventBody.rate_clause_changed id c) h

  unfoldable pub delete_clause : String → Handling
  delete_clause id h =
      after_edit (Operations.delete_clause id now h.subject) (EventBody.clause_deleted id) h

  unfoldable pub add_datetime_clause : DatetimeClause → Handling
  add_datetime_clause c h =
      after_add (Operations.add_packed p.datetime c new_id now h.subject)
        (λ id. EventBody.datetime_clause_added id c) h

  unfoldable pub change_datetime_clause : String → DatetimeClause → Handling
  change_datetime_clause id c h =
      after_edit (Operations.change_clause p.datetime id c now h.subject)
        (EventBody.datetime_clause_changed id c) h

  unfoldable pub add_webhook_clause : WebhookClause → Handling
  add_webhook_clause c h =
      after_add (Operations.add_packed p.webhook c new_id now h.subject)
        (λ id. EventBody.webhook_clause_added id c) h

  unfoldable pub change_webhook_clause : String → WebhookClause → Handling
  change_webhook_clause id c h =
      after_edit (Operations.change_clause p.webhook id c now h.subject)
        (EventBody.webhook_clause_changed id c) h

  unfoldable pub handle : Command Float → Handling
  handle Command.create_rule = create
  handle (Command.set_ops_type ops_type) = change_ops_type ops_type
  handle Command.delete_rule = delete
  handle Command.mark_triggered = change_triggered_at
  handle (Command.new_rate_clause c) = add_rate_clause c
  handle (Command.other_rate_clause id c) = change_rate_clause id c
  handle (Command.drop_clause id) = delete_clause id
  handle (Command.new_datetime_clause c) = add_datetime_clause c
  handle (Command.other_datetime_clause id c) = change_datetime_clause id c
  handle (Command.new_webhook_clause c) = add_webhook_clause c
  handle (Command.other_webhook_clause id c) = change_webhook_clause id c
  handle Command.other = failed unknown_command
