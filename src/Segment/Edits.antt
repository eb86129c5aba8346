-- ===== src/Segment/Edits.antt =====
-- The operations of pkg/feature/domain/segment.go, one by one, on a sound segment.
use bucketeer.Prelude.{
  ℕ, ◌<◌, arith, ℤ, String, List, [], ◌∷◌, ◌++◌, map, true, false, not, Option, none, some, is_some,
  ◌≡◌, refl, sym, subst, length, leb, index_by, erase_at, contains, All-append, All-erase_at,
  All-get_elem?, map-append_one, map-erase_at_pos, index_by-none, read, Safe, Safe-bind, guard_then,
  found_then,
}
use bucketeer.Feature.Model.{Rule, Clause, Operator}
use bucketeer.Feature.Lookup.{index, rule_id, clause_id}
use bucketeer.Feature.WellFormed.{Unique, Unique-append, Unique-erase_at}
use bucketeer.Segment.Model.{Segment}
use bucketeer.Segment.Operations
use bucketeer.Segment.Operations.{Outcome, Found, find_rule_index, find_clause_index, find_clause}
use bucketeer.Segment.Sound.{
  HasValues, SoundRule, Sound, AtRule, AtClause, set_clauses-Sound, read_rule-Safe,
  find_clause-Safe, set_clause-Sound, length-append_one, length-erase_at,
}

-- A search that found nothing.
absent :
    {A : Type 0} (key : A → String) (k : String) (xs : List A)
    → not (is_some (index_by key k xs)) ≡ true
    → contains k (map key xs) ≡ false
absent key k xs h = index_by-none key k xs (is_none (index_by key k xs) h)
  where
    is_none : (o : Option ℕ) → not (is_some o) ≡ true → o ≡ none
    is_none none e = refl
    is_none (some i) e = cc

pub add_rule-Sound :
    (rule : Rule) (now : ℤ) (s : Segment)
    → SoundRule rule
    → Sound s
    → Safe Sound (Operations.add_rule rule now s)
unfolding Operations.add_rule
add_rule-Sound rule now s r h =
    guard_then Sound (not (is_some (index_by rule_id rule.id s.rules))) _ _ λ w. record {
      rules_unique = subst Unique (sym (map-append_one rule_id s.rules rule)) (
          Unique-append (map rule_id s.rules) rule.id h.rules_unique
            (absent rule_id rule.id s.rules w));
      rules_sound = All-append SoundRule s.rules rule h.rules_sound r;
    }

pub delete_rule-Sound :
    (rule : String) (now : ℤ) (s : Segment)
    → Sound s
    → Safe Sound (Operations.delete_rule rule now s)
unfolding Operations.delete_rule find_rule_index
delete_rule-Sound rule now s h = found_then Sound (index_by rule_id rule s.rules) _ _ λ i _.
    record {
      rules_unique =
          subst Unique (sym (map-erase_at_pos rule_id s.rules i))
            (Unique-erase_at (map rule_id s.rules) i h.rules_unique);
      rules_sound = All-erase_at SoundRule s.rules i h.rules_sound;
    }

pub add_clause-Sound :
    (rule : String) (clause : Clause) (now : ℤ) (s : Segment)
    → HasValues clause
    → Sound s
    → Safe Sound (Operations.add_clause rule clause now s)
unfolding Operations.add_clause find_rule_index
add_clause-Sound rule clause now s v h = found_then Sound (index_by rule_id rule s.rules) _ _ λ i e.
    Safe-bind (AtRule s i) Sound (read s.rules i) _ (read_rule-Safe rule s i h e) λ r (at, sound).
      guard_then Sound (not (is_some (index_by clause_id clause.id r.clauses))) _ _ λ w.
        set_clauses-Sound i r (r.clauses ++ clause ∷ []) now s at
          (record {
            some_clause = omega (arith, length-append_one r.clauses clause);
            clauses_unique = subst Unique (sym (map-append_one clause_id r.clauses clause)) (
                Unique-append (map clause_id r.clauses) clause.id sound.clauses_unique
                  (absent clause_id clause.id r.clauses w));
            some_value = All-append HasValues r.clauses clause sound.some_value v;
          })
          h

-- The guard refuses to take the last element.
pub more_left :
    {A : Type 0} (xs : List A) (i : ℕ) → not (leb (length xs) 1) ≡ true → 0 < length (erase_at xs i)
more_left xs i w = ground (arith, length-erase_at xs i)

pub delete_clause-Sound :
    (rule clause : String) (now : ℤ) (s : Segment)
    → Sound s
    → Safe Sound (Operations.delete_clause rule clause now s)
unfolding Operations.delete_clause find_rule_index find_clause_index
delete_clause-Sound rule clause now s h =
    found_then Sound (index_by rule_id rule s.rules) _ _ λ i e.
      Safe-bind (AtRule s i) Sound (read s.rules i) _ (read_rule-Safe rule s i h e) λ r (at, sound).
        guard_then Sound (not (leb (length r.clauses) 1)) _ _ λ w.
          found_then Sound (index_by clause_id clause r.clauses) _ _ λ j _.
            set_clauses-Sound i r (erase_at r.clauses j) now s at
              (record {
                some_clause = more_left r.clauses j w;
                clauses_unique =
                    subst Unique (sym (map-erase_at_pos clause_id r.clauses j))
                      (Unique-erase_at (map clause_id r.clauses) j sound.clauses_unique);
                some_value = All-erase_at HasValues r.clauses j sound.some_value;
              })
              h

values_at : (s : Segment) (at : Found) → AtClause s at → HasValues at.clause
values_at s at (_, sound, there) =
    All-get_elem? HasValues at.rule.clauses at.clause_idx at.clause sound.some_value there

pub change_clause_attribute-Sound :
    (rule clause attribute : String) (now : ℤ) (s : Segment)
    → Sound s
    → Safe Sound (Operations.change_clause_attribute rule clause attribute now s)
unfolding Operations.change_clause_attribute
change_clause_attribute-Sound rule clause attribute now s h =
    Safe-bind (AtClause s) Sound (find_clause rule clause s) _ (find_clause-Safe rule clause s h)
      λ at q. set_clause-Sound at _ now s q refl (values_at s at q) h

pub change_clause_operator-Sound :
    (rule clause : String) (operator : Operator) (now : ℤ) (s : Segment)
    → Sound s
    → Safe Sound (Operations.change_clause_operator rule clause operator now s)
unfolding Operations.change_clause_operator
change_clause_operator-Sound rule clause operator now s h =
    Safe-bind (AtClause s) Sound (find_clause rule clause s) _ (find_clause-Safe rule clause s h)
      λ at q. set_clause-Sound at _ now s q refl (values_at s at q) h

pub add_clause_value-Sound :
    (rule clause value : String) (now : ℤ) (s : Segment)
    → Sound s
    → Safe Sound (Operations.add_clause_value rule clause value now s)
unfolding Operations.add_clause_value
add_clause_value-Sound rule clause value now s h =
    Safe-bind (AtClause s) Sound (find_clause rule clause s) _ (find_clause-Safe rule clause s h)
      λ at q.
        set_clause-Sound at _ now s q refl (omega (arith, length-append_one at.clause.values value))
          h

pub remove_clause_value-Sound :
    (rule clause value : String) (now : ℤ) (s : Segment)
    → Sound s
    → Safe Sound (Operations.remove_clause_value rule clause value now s)
unfolding Operations.remove_clause_value index
remove_clause_value-Sound rule clause value now s h =
    Safe-bind (AtClause s) Sound (find_clause rule clause s) _ (find_clause-Safe rule clause s h)
      λ at q. guard_then Sound (not (leb (length at.clause.values) 1)) _ _ λ w.
        found_then Sound (index_by (λ x. x) value at.clause.values) _ _
          λ i _. set_clause-Sound at _ now s q refl (more_left at.clause.values i w) h
