-- ===== src/Tests/Executions.antt =====
-- Automatic operations that are executed: a request, the same request again, and a run of the job.
use bucketeer.Prelude.{
  ℕ, pos, String, List, [], ◌∷◌, true, none, some, ◌==◌, ◌≡◌, refl, subst, if◌then◌else◌,
}
use bucketeer.Publish.{Outlet, send}
use bucketeer.Transaction.{Store, row, update_row}
use bucketeer.AutoOps.Model.{AutoOpsRule}
use bucketeer.AutoOps.Operations.{set_triggered_at, already_triggered, extract}
use bucketeer.AutoOps.Command.{EventBody, handle, change_triggered_at, tell}
use bucketeer.AutoOps.Execute
use bucketeer.AutoOps.Execute.{
  Features, enable, execute_auto_ops, executed, already_executed, execute,
}
use bucketeer.AutoOps.Execute.Once.{Once, execute-Once}
use bucketeer.AutoOps.Execute.Again.{execute-executed}
use bucketeer.AutoOps.Watcher
use bucketeer.AutoOps.Watcher.{Targets}
use bucketeer.AutoOps.Watcher.Due.{executions_due, Quiet, EveryReadable, run-Due}
use bucketeer.Tests.Database.{table}
use bucketeer.Tests.AutoOperations.{Packed, packings, two_clauses}

abbrev outlet : Outlet (EventBody Packed ℕ) String
outlet = record { new_event = λ id _. some id; publish = λ _ _. true }

abbrev waiting_rule : AutoOpsRule Packed
waiting_rule = record two_clauses { triggered_at = pos 0 }

abbrev rules : Store (AutoOpsRule Packed) String
rules = record { rows = waiting_rule ∷ []; published = [] }

abbrev triggered_rules : Store (AutoOpsRule Packed) String
triggered_rules = record {
  rows = record waiting_rule { triggered_at = pos 20; updated_at = pos 20 } ∷ [];
  published = "a" ∷ [];
}

abbrev features : Features
features = record { answer = λ _ _. none }

rules_executed :
    execute (table (λ a. a.id)) features outlet packings (pos 20) "a" rules []
    ≡ executed triggered_rules (enable "f" ∷ [])
unfolding execute Execute.execute_row Execute.commit Execute.reply Execute.after_handle
    Execute.after_write Execute.after_operation Execute.execute_operation Execute.operate
    Execute.operation_error already_triggered set_triggered_at handle change_triggered_at tell send
    update_row ◌==◌
rules_executed = refl

execute-Once_example :
    Once
      (table (λ a. a.id))
      features
      outlet
      packings
      (pos 20)
      "a"
      rules
      []
      (execute (table (λ a. a.id)) features outlet packings (pos 20) "a" rules [])
execute-Once_example =
    execute-Once (table (λ a. a.id)) features outlet packings (pos 20) "a" rules []

row_eq : {S : Type 0} {x y : S} → row x ≡ row y → x ≡ y
row_eq e = cc

rows_eq : {S : Type 0} {r q : ℕ × List S} → some r ≡ some q → r.1 ≡ q.1
rows_eq e = cc

-- What the table answers to a rule written back is that rule.
abbrev ReadsBack : AutoOpsRule Packed → Type 0
ReadsBack a =
    (rows : List (AutoOpsRule Packed))
    → (table (λ b. b.id)).update rules.rows (set_triggered_at (pos 20) a) ≡ some (1, rows)
    → (table (λ b. b.id)).select rows "a" ≡ row (set_triggered_at (pos 20) a)

waiting_rule-ReadsBack : ReadsBack waiting_rule
unfolding set_triggered_at ◌==◌
waiting_rule-ReadsBack rows k =
    subst (λ r. (table (λ b. b.id)).select r "a" ≡ row (set_triggered_at (pos 20) waiting_rule))
      (rows_eq k) refl

table_reads :
    (a : AutoOpsRule Packed) (rows : List (AutoOpsRule Packed))
    → (table (λ b. b.id)).select rules.rows "a" ≡ row a
    → (table (λ b. b.id)).update rules.rows (set_triggered_at (pos 20) a) ≡ some (1, rows)
    → (table (λ b. b.id)).select rows "a" ≡ row (set_triggered_at (pos 20) a)
unfolding ◌==◌
table_reads a rows h = subst ReadsBack (row_eq h) waiting_rule-ReadsBack rows

execute-executed_example :
    execute
      (table (λ a. a.id))
      features
      outlet
      packings
      (pos 30)
      "a"
      triggered_rules
      (enable "f" ∷ [])
    ≡ already_executed triggered_rules (enable "f" ∷ [])
execute-executed_example =
    execute-executed (table (λ a. a.id)) features outlet packings (pos 20) (pos 30) "a" rules
      triggered_rules [] (enable "f" ∷ []) table_reads refl rules_executed

abbrev targets : Targets Packed ℕ
targets = record {
  environments = "dev" ∷ "prod" ∷ [];
  rules = λ ns. waiting_rule ∷ [];
  clock = λ ns a. if ns == "dev" then pos 11 else pos 12;
  answer = λ _ _. none;
}

run-Due_example :
    ((Watcher.run packings.datetime targets).executions
      ≡ executions_due packings.datetime targets ("dev" ∷ "prod" ∷ []))
    × (Quiet packings.datetime targets
        → EveryReadable packings.datetime targets ("dev" ∷ "prod" ∷ [])
        → (Watcher.run packings.datetime targets).last_error ≡ none)
run-Due_example = run-Due packings.datetime targets

-- The rule is due in one of the two environments.
targets_executed :
    (Watcher.run packings.datetime targets).executions
    ≡ record { environment_namespace = "prod"; rule_id = "a" } ∷ []
unfolding Watcher.run Watcher.watch_environments Watcher.watch_rules Watcher.watch_rule
    Watcher.execute_assessed Watcher.execute Watcher.assess_auto_ops_rule Watcher.assess_clauses
    Watcher.assess_rule extract ◌==◌
targets_executed = refl
