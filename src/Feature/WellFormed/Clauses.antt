-- ===== src/Feature/WellFormed/Clauses.antt =====
-- The operations of Feature/Clauses on consistent features (pkg/feature/domain/feature.go).
use bucketeer.Prelude.{
  ℤ, ℕ, String, List, [], ◌∷◌, ◌++◌, Option, none, some, ◌≡◌, refl, is_some, index_by, erase_at,
  set, read, deref, Safe, Safe-bind, ok, ◌>>=◌, true, deref-Safe, All, or_err-Safe, get_elem?,
  All-get_elem?, if_ind, ◌==◌,
}
use bucketeer.Feature.Model.{Feature, Error, Rule, Clause, Operator, rule_not_found}
use bucketeer.Feature.Lookup.{Outcome, find_rule, find_clause, rule_id, clause_id, variation_ids}
use bucketeer.Feature.Clauses.{
  set_clauses, same_operator, add_clause, delete_clause, change_clause_attribute,
  change_clause_operator, add_clause_value, remove_clause_value,
}
use bucketeer.Feature.WellFormed.{WellFormed, RuleServes, read-Safe}
use bucketeer.Feature.WellFormed.Rules.{set_rule-WellFormed}

-- Any change of a rule's clauses.
set_clauses-WellFormed :
    (f : Feature) (i : ℕ) (r : Rule) (clauses : List Clause) (now : ℤ)
    → WellFormed f
    → get_elem? f.rules i ≡ some r
    → WellFormed (set_clauses i r clauses now f)
set_clauses-WellFormed f i r clauses now w at =
    set_rule-WellFormed f now i r (record r { clauses = clauses }) w at refl
      (All-get_elem? (RuleServes (variation_ids f.variations)) f.rules i r w.rules_serve at)

pub add_clause-WellFormed :
    (rule : String) (clause : Clause) (now : ℤ) (f : Feature)
    → WellFormed f
    → Safe WellFormed (add_clause rule clause now f)
unfolding add_clause find_rule
add_clause-WellFormed rule clause now f w =
    Safe-bind _ WellFormed (find_rule rule f) _ (or_err-Safe _ rule_not_found) λ i found.
      Safe-bind _ WellFormed (read f.rules i) _ (read-Safe rule_id rule f.rules i found)
        λ r at. set_clauses-WellFormed f i r (r.clauses ++ clause ∷ []) now w at.0

-- The way to a clause that five operations share.
at_clause : String → String → Feature → (ℕ → Rule → ℕ → Outcome) → Outcome
at_clause rule clause f k = do
  i ← find_rule rule f
  r ← read f.rules i
  j ← deref (find_clause clause r.clauses)
  k i r j

-- Every rule with the id has the clause.
abbrev pub HasClause : String → String → Feature → Type 0
HasClause rule clause f =
    All (λ (r : Rule). r.id ≡ rule → is_some (find_clause clause r.clauses) ≡ true) f.rules

at_clause-Safe :
    (rule clause : String) (f : Feature) (k : ℕ → Rule → ℕ → Outcome)
    → HasClause rule clause f
    → ((i : ℕ) (r : Rule) (j : ℕ)
        → get_elem? f.rules i ≡ some r
        → find_clause clause r.clauses ≡ some j
        → Safe WellFormed (k i r j))
    → Safe WellFormed (at_clause rule clause f k)
unfolding at_clause find_rule
at_clause-Safe rule clause f k there keeps =
    Safe-bind _ WellFormed (find_rule rule f) _ (or_err-Safe _ rule_not_found) λ i found.
      Safe-bind _ WellFormed (read f.rules i) _ (read-Safe rule_id rule f.rules i found) λ r at.
        Safe-bind _ WellFormed (deref (find_clause clause r.clauses)) _
          (deref-Safe Error _ (All-get_elem? _ f.rules i r there at.0 at.1))
          λ j e. keeps i r j at.0 e

-- The clause found is read.
at_read-Safe :
    (clause : String) (r : Rule) (j : ℕ) (k : Clause → Outcome)
    → find_clause clause r.clauses ≡ some j
    → ((c : Clause) → Safe WellFormed (k c))
    → Safe WellFormed (read r.clauses j >>= k)
unfolding find_clause
at_read-Safe clause r j k e keeps =
    Safe-bind _ WellFormed (read r.clauses j) k (read-Safe clause_id clause r.clauses j e)
      λ c _. keeps c

pub delete_clause-WellFormed :
    (rule clause : String) (now : ℤ) (f : Feature)
    → HasClause rule clause f
    → WellFormed f
    → Safe WellFormed (delete_clause rule clause now f)
unfolding delete_clause at_clause
delete_clause-WellFormed rule clause now f there w =
    at_clause-Safe rule clause f (λ i r j. ok (set_clauses i r (erase_at r.clauses j) now f)) there
      λ i r j at e. set_clauses-WellFormed f i r (erase_at r.clauses j) now w at

pub change_clause_attribute-WellFormed :
    (rule clause attribute : String) (now : ℤ) (f : Feature)
    → HasClause rule clause f
    → WellFormed f
    → Safe WellFormed (change_clause_attribute rule clause attribute now f)
unfolding change_clause_attribute at_clause
change_clause_attribute-WellFormed rule clause attribute now f there w =
    at_clause-Safe rule clause f _ there λ i r j at e. at_read-Safe clause r j _ e λ c.
      if_ind (Safe WellFormed) (c.attribute == attribute) (λ _. w)
        (λ _. set_clauses-WellFormed f i r _ now w at)

pub change_clause_operator-WellFormed :
    (rule clause : String) (operator : Operator) (now : ℤ) (f : Feature)
    → HasClause rule clause f
    → WellFormed f
    → Safe WellFormed (change_clause_operator rule clause operator now f)
unfolding change_clause_operator at_clause
change_clause_operator-WellFormed rule clause operator now f there w =
    at_clause-Safe rule clause f _ there λ i r j at e. at_read-Safe clause r j _ e λ c.
      if_ind (Safe WellFormed) (same_operator c.operator operator) (λ _. w)
        (λ _. set_clauses-WellFormed f i r _ now w at)

pub add_clause_value-WellFormed :
    (rule clause value : String) (now : ℤ) (f : Feature)
    → HasClause rule clause f
    → WellFormed f
    → Safe WellFormed (add_clause_value rule clause value now f)
unfolding add_clause_value at_clause
add_clause_value-WellFormed rule clause value now f there w =
    at_clause-Safe rule clause f _ there λ i r j at e. at_read-Safe clause r j _ e λ c.
      if_ind (Safe WellFormed) (is_some (index_by (λ x. x) value c.values)) (λ _. w)
        (λ _. set_clauses-WellFormed f i r _ now w at)

pub remove_clause_value-WellFormed :
    (rule clause value : String) (now : ℤ) (f : Feature)
    → HasClause rule clause f
    → WellFormed f
    → Safe WellFormed (remove_clause_value rule clause value now f)
unfolding remove_clause_value at_clause
remove_clause_value-WellFormed rule clause value now f there w =
    at_clause-Safe rule clause f _ there λ i r j at e.
      at_read-Safe clause r j _ e λ c. by_index i r j at c (index_by (λ x. x) value c.values)
  where
    by_index :
        (i : ℕ) (r : Rule) (j : ℕ)
        → get_elem? f.rules i ≡ some r
        → (c : Clause) (o : Option ℕ)
        → Safe {E = Error} WellFormed (elim o [
          | none ↦ ok f
          | some idx ↦ ok (
              set_clauses i r (set r.clauses j (record c { values = erase_at c.values idx })) now f)
        ])
    by_index i r j at c none = w
    by_index i r j at c (some idx) = set_clauses-WellFormed f i r _ now w at
