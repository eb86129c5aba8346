-- ===== src/Evaluation/Rule.antt =====
-- pkg/feature/domain/rule_evaluator.go: the first rule whose clauses all hold.
use bucketeer.Prelude.{
  String, Bool, true, false, not, List, [], ◌∷◌, Option, none, some, if◌then◌else◌, ◌==◌,
}
use bucketeer.Feature.Model.{Clause, Rule}
use bucketeer.Evaluation.Model.{User, SegmentUser}
use bucketeer.Evaluation.External.{External}
use bucketeer.Evaluation.Clause.{evaluate_clause_value}

-- `m[k]` on a map of texts: the empty text for a missing key.
unfoldable pub text_at : String → List (String × String) → String
text_at k [] = ""
text_at k ((j, v) ∷ m) = if j == k then v else text_at k m

module _ (x : External) where
  unfoldable pub evaluate_clause : Clause → User → List SegmentUser → Bool
  evaluate_clause clause user us =
      let target =
        if clause.attribute == "id" then user.id else text_at clause.attribute user.data_of in
      evaluate_clause_value x target clause user.id us

  unfoldable pub evaluate_clauses : List Clause → User → List SegmentUser → Bool
  evaluate_clauses [] user us = true
  evaluate_clauses (c ∷ cs) user us =
      if not (evaluate_clause c user us) then false else evaluate_clauses cs user us

  unfoldable pub evaluate_rule : Rule → User → List SegmentUser → Bool
  evaluate_rule rule user us = evaluate_clauses rule.clauses user us

  unfoldable pub evaluate_rules : List Rule → User → List SegmentUser → Option Rule
  evaluate_rules [] user us = none
  evaluate_rules (r ∷ rs) user us =
      if evaluate_rule r user us then some r else evaluate_rules rs user us
