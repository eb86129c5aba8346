-- ===== src/AutoOps/Watcher.antt =====
-- The job of pkg/opsevent/batch/job/datetime_watcher.go: it executes the rules of automatic
-- operations with a clause whose time has come. What it lists, the clock and the executor (which
-- calls ExecuteAutoOps) are parameters.
pub mod Due
use bucketeer.Prelude.{
  ℤ, String, List, [], ◌∷◌, ◌++◌, Bool, true, false, Option, none, some, leb_ℤ, if◌then◌else◌,
}
use bucketeer.AutoOps.Model.{DatetimeClause, AutoOpsRule, Packing}
use bucketeer.AutoOps.Operations.{extract}

pub record Execution : Type 0 where
  pub environment_namespace : String
  pub rule_id : String

pub data WatchError (E : Type 0) : Type 0 where
  extract_failed : WatchError E
  execute_failed : E → WatchError E

-- The environments and their rules in the target store, the time that is read for a rule, and what
-- the executor answers after the executions before; `none` is success.
pub record Targets (Any E : Type 0) : Type 0 where
  pub environments : List String
  pub rules : String → List (AutoOpsRule Any)
  pub clock : String → AutoOpsRule Any → ℤ
  pub answer : List Execution → Execution → Option E

pub record Progress (E : Type 0) : Type 0 where
  pub executions : List Execution
  pub last_error : Option (WatchError E)

unfoldable pub assess_rule : DatetimeClause → (now : ℤ) → Bool
assess_rule c now = leb_ℤ c.time now

-- The loop over the clauses.
unfoldable pub assess_clauses : List DatetimeClause → (now : ℤ) → Bool
assess_clauses [] now = false
assess_clauses (c ∷ cs) now = if assess_rule c now then true else assess_clauses cs now

module _ {Any E : Type 0} (datetime : Packing Any DatetimeClause) (t : Targets Any E) where
  -- `none` is the error of ExtractDatetimeClauses.
  unfoldable pub assess_auto_ops_rule : String → AutoOpsRule Any → Option Bool
  assess_auto_ops_rule ns a = elim (extract datetime a.clauses) [
    | none ↦ none
    | some cs ↦ some (assess_clauses cs (t.clock ns a))
  ]

  unfoldable pub execute : Execution → Progress E → Progress E
  execute x p = elim (t.answer p.executions x) [
    | none ↦ record p { executions = p.executions ++ x ∷ [] }
    | some e ↦ record { executions = p.executions ++ x ∷ []; last_error = some (execute_failed e) }
  ]

  unfoldable pub execute_assessed : Option Bool → Execution → Progress E → Progress E
  execute_assessed none x p = record p { last_error = some extract_failed }
  execute_assessed (some false) x p = p
  execute_assessed (some true) x p = execute x p

  unfoldable pub watch_rule : String → AutoOpsRule Any → Progress E → Progress E
  watch_rule ns a =
      execute_assessed (assess_auto_ops_rule ns a)
        (record { environment_namespace = ns; rule_id = a.id })

  unfoldable pub watch_rules : String → List (AutoOpsRule Any) → Progress E → Progress E
  watch_rules ns [] p = p
  watch_rules ns (a ∷ rest) p = watch_rules ns rest (watch_rule ns a p)

  unfoldable pub watch_environments : List String → Progress E → Progress E
  watch_environments [] p = p
  watch_environments (ns ∷ nss) p = watch_environments nss (watch_rules ns (t.rules ns) p)

  unfoldable pub run : Progress E
  run = watch_environments t.environments (record { executions = []; last_error = none })
