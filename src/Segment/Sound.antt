-- ===== src/Segment/Sound.antt =====
-- What the operations of pkg/feature/domain/segment.go keep of a segment's rules.
use bucketeer.Prelude.{
  ℕ, zero, suc, ◌<◌, ◌≤◌, arith, ℤ, String, List, [], ◌∷◌, ◌++◌, map, some, ◌≡◌, refl, sym, subst,
  length, get_elem?, set, index_by, erase_at, All, All-set, All-get_elem?, map-set, read,
  or_err-Safe, Safe, Safe-bind, Safe-map,
}
use bucketeer.Feature.Model.{Error, Rule, Clause}
use bucketeer.Feature.Lookup.{rule_id, clause_id}
use bucketeer.Feature.WellFormed.{Unique, read-Safe}
use bucketeer.Segment.Model.{Segment}
use bucketeer.Segment.Operations.{
  Found, find_rule_index, find_clause_index, find_clause, set_clauses, set_clause,
}

module _ {A : Type 0} where
  pub length-append_one : (xs : List A) (y : A) → length (xs ++ y ∷ []) ≡ suc (length xs)
  length-append_one [] y = refl
  length-append_one (x ∷ xs) y = omega (arith, length-append_one xs y)

  length-set : (xs : List A) (i : ℕ) (y : A) → length (set xs i y) ≡ length xs
  length-set [] i y = refl
  length-set (x ∷ xs) zero y = refl
  length-set (x ∷ xs) (suc i) y = omega (arith, length-set xs i y)

  pub length-erase_at : (xs : List A) (i : ℕ) → length xs ≤ suc (length (erase_at xs i))
  unfolding erase_at
  length-erase_at [] i = omega arith
  length-erase_at (x ∷ xs) zero = omega arith
  length-erase_at (x ∷ xs) (suc i) = omega (arith, length-erase_at xs i)

abbrev pub HasValues : Clause → Type 0
HasValues c = 0 < length c.values

-- A rule has clauses, each with a value, and no id twice among them.
pub record SoundRule (r : Rule) : Type 0 where
  pub some_clause : 0 < length r.clauses
  pub clauses_unique : Unique (map clause_id r.clauses)
  pub some_value : All HasValues r.clauses

pub record Sound (s : Segment) : Type 0 where
  pub rules_unique : Unique (map rule_id s.rules)
  pub rules_sound : All SoundRule s.rules

pub set_clauses-Sound :
    (idx : ℕ) (r : Rule) (clauses : List Clause) (now : ℤ) (s : Segment)
    → get_elem? s.rules idx ≡ some r
    → SoundRule (record r { clauses = clauses })
    → Sound s
    → Sound (set_clauses idx r clauses now s)
set_clauses-Sound idx r clauses now s at new h = record {
  rules_unique =
      subst Unique (sym (map-set rule_id s.rules idx r (record r { clauses = clauses }) at refl))
        h.rules_unique;
  rules_sound = All-set SoundRule s.rules idx (record r { clauses = clauses }) h.rules_sound new;
}

abbrev pub AtRule : Segment → ℕ → Rule → Type 0
AtRule s idx r = (get_elem? s.rules idx ≡ some r) × SoundRule r

pub read_rule-Safe :
    (id : String) (s : Segment) (i : ℕ)
    → Sound s
    → index_by rule_id id s.rules ≡ some i
    → Safe {E = Error} (λ r. AtRule s i r) (read s.rules i)
read_rule-Safe id s i h e =
    Safe-map _ _ (read s.rules i)
      (λ r (at, _). (at, All-get_elem? SoundRule s.rules i r h.rules_sound at))
      (read-Safe rule_id id s.rules i e)

-- Where the clause was found.
abbrev pub AtClause : Segment → Found → Type 0
AtClause s at =
    (get_elem? s.rules at.rule_idx ≡ some at.rule)
    × SoundRule at.rule
    × (get_elem? at.rule.clauses at.clause_idx ≡ some at.clause)

pub find_clause-Safe :
    (rule clause : String) (s : Segment) → Sound s → Safe (AtClause s) (find_clause rule clause s)
unfolding find_clause find_rule_index find_clause_index
find_clause-Safe rule clause s h =
    Safe-bind _ (AtClause s) _ _ (or_err-Safe (index_by rule_id rule s.rules) _) λ i e.
      Safe-bind (AtRule s i) (AtClause s) (read s.rules i) _ (read_rule-Safe rule s i h e)
        λ r (at, sound).
          Safe-bind _ (AtClause s) _ _ (or_err-Safe (index_by clause_id clause r.clauses) _) λ j f.
            Safe-bind _ (AtClause s) (read r.clauses j) _ (read-Safe clause_id clause r.clauses j f)
              λ c (there, _).
                let found : AtClause s
                    (record { rule_idx = i; rule = r; clause_idx = j; clause = c }) =
                  (at, sound, there) in
                found

-- A clause that keeps its id and has a value may take the place of another.
pub set_clause-Sound :
    (at : Found) (c : Clause) (now : ℤ) (s : Segment)
    → AtClause s at
    → c.id ≡ at.clause.id
    → HasValues c
    → Sound s
    → Sound (set_clause at c now s)
set_clause-Sound at c now s (in_rules, sound, in_clauses) same values h =
    set_clauses-Sound at.rule_idx at.rule _ now s in_rules
      (record {
        some_clause =
            subst (λ n. 0 < n) (sym (length-set at.rule.clauses at.clause_idx c)) sound.some_clause;
        clauses_unique =
            subst Unique
              (sym (map-set clause_id at.rule.clauses at.clause_idx at.clause c in_clauses same))
              sound.clauses_unique;
        some_value = All-set HasValues at.rule.clauses at.clause_idx c sound.some_value values;
      })
      h
