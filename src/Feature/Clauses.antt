-- ===== src/Feature/Clauses.antt =====
-- The operations of pkg/feature/domain/feature.go on the clauses of a rule. `findClause` answers
-- the index -1 and no error for a clause that is not there, and the code then indexes with it: a
-- panic, which is `deref` of `none` here.
use bucketeer.Prelude.{
  ℤ, String, [], ◌∷◌, ◌++◌, if◌then◌else◌, ◌==◌, is_some, index_by, erase_at, set, read, deref, ok,
  ◌>>=◌, Bool, ℕ, List,
}
use mathlib.Core.Bool.{decide}
use mathlib.Core.Option.{none, some}
use native.Mathlib.Decide.{ℕ_discrete}
use bucketeer.Feature.Model.{Clause, Rule, Operator, Feature}
use bucketeer.Feature.Lookup.{Outcome, find_rule, find_clause}

-- The operators are compared as numbers.
Operator-discrete : Discrete Operator
Operator-discrete = hlevel ℕ_discrete

unfoldable pub same_operator : Operator → Operator → Bool
unfolding Operator-discrete ℕ_discrete
same_operator a b = decide (Operator-discrete a b)

-- `f.Rules[idx].Clauses = clauses`.
abbrev pub set_clauses : ℕ → Rule → List Clause → ℤ → Feature → Feature
set_clauses idx rule clauses now f = record f {
  rules = set f.rules idx (record rule { clauses = clauses });
  updated_at = now;
}

unfoldable pub add_clause : String → Clause → ℤ → Feature → Outcome
add_clause rule clause now f = do
  idx ← find_rule rule f
  r ← read f.rules idx
  ok (set_clauses idx r (r.clauses ++ clause ∷ []) now f)

unfoldable pub delete_clause : String → String → ℤ → Feature → Outcome
delete_clause rule clause now f = do
  rule_idx ← find_rule rule f
  r ← read f.rules rule_idx
  idx ← deref (find_clause clause r.clauses)
  ok (set_clauses rule_idx r (erase_at r.clauses idx) now f)

unfoldable pub change_clause_attribute : String → String → String → ℤ → Feature → Outcome
change_clause_attribute rule clause attribute now f = do
  rule_idx ← find_rule rule f
  r ← read f.rules rule_idx
  idx ← deref (find_clause clause r.clauses)
  c ← read r.clauses idx
  if c.attribute == attribute
      then ok f
      else ok
          (set_clauses rule_idx r (set r.clauses idx (record c { attribute = attribute })) now f)

unfoldable pub change_clause_operator : String → String → Operator → ℤ → Feature → Outcome
change_clause_operator rule clause operator now f = do
  rule_idx ← find_rule rule f
  r ← read f.rules rule_idx
  idx ← deref (find_clause clause r.clauses)
  c ← read r.clauses idx
  if same_operator c.operator operator
      then ok f
      else ok (set_clauses rule_idx r (set r.clauses idx (record c { operator = operator })) now f)

unfoldable pub add_clause_value : String → String → String → ℤ → Feature → Outcome
add_clause_value rule clause value now f = do
  rule_idx ← find_rule rule f
  r ← read f.rules rule_idx
  idx ← deref (find_clause clause r.clauses)
  c ← read r.clauses idx
  if is_some (index_by (λ x. x) value c.values)
      then ok f
      else ok (
          set_clauses rule_idx r (set r.clauses idx (record c { values = c.values ++ value ∷ [] }))
            now f)

-- A value that is not there is no error.
unfoldable pub remove_clause_value : String → String → String → ℤ → Feature → Outcome
remove_clause_value rule clause value now f = do
  rule_idx ← find_rule rule f
  r ← read f.rules rule_idx
  clause_idx ← deref (find_clause clause r.clauses)
  c ← read r.clauses clause_idx
  elim (index_by (λ x. x) value c.values) [
    | none ↦ ok f
    | some idx ↦ ok (
        set_clauses rule_idx r
          (set r.clauses clause_idx (record c { values = erase_at c.values idx })) now f)
  ]
