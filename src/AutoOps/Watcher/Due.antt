-- ===== src/AutoOps/Watcher/Due.antt =====
-- The job of pkg/opsevent/batch/job/datetime_watcher.go executes the rules that are due.
use bucketeer.Prelude.{
  none-some, ℤ, String, List, [], ◌∷◌, ◌++◌, Bool, true, false, ◌&&◌, ◌||◌, Option, none, some,
  leb_ℤ, if◌then◌else◌, ◌≡◌, refl, sym, ap, subst, ◌∙◌, Option-cases, inl, inr,
}
use mathlib.Core.List.{append_assoc, append-nil}
use bucketeer.AutoOps.Model.{
  DatetimeClause, AutoOpsRule, Clause, Packing, Unmarshaled, message, other_type, unmarshal_error,
}
use bucketeer.AutoOps.Operations.{extract}
use bucketeer.AutoOps.Watcher.{
  Execution, Targets, Progress, assess_rule, assess_clauses, assess_auto_ops_rule, execute,
  execute_assessed, watch_rule, watch_rules, watch_environments, run,
}

module _ {Any : Type 0} (datetime : Packing Any DatetimeClause) where
  abbrev is_readable : Unmarshaled DatetimeClause → Bool
  is_readable (message c) = true
  is_readable other_type = true
  is_readable unmarshal_error = false

  abbrev has_come : Unmarshaled DatetimeClause → ℤ → Bool
  has_come (message c) now = leb_ℤ c.time now
  has_come other_type now = false
  has_come unmarshal_error now = false

  -- Every clause can be read.
  abbrev pub readable : List (Clause Any) → Bool
  readable [] = true
  readable (c ∷ cs) = is_readable (datetime.unmarshal c.clause) && readable cs

  -- Some clause is of a time that has come.
  abbrev pub some_come : List (Clause Any) → ℤ → Bool
  some_come [] now = false
  some_come (c ∷ cs) now = has_come (datetime.unmarshal c.clause) now || some_come cs now

  -- The assessment is that of the clauses themselves.
  abbrev assessment : Bool → Bool → Option Bool
  assessment true b = some b
  assessment false b = none

  abbrev assessed : Option (List DatetimeClause) → ℤ → Option Bool
  assessed none now = none
  assessed (some cs) now = some (assess_clauses cs now)

  assessed-cons :
      (u : Unmarshaled DatetimeClause) (r : Option (List DatetimeClause)) (now : ℤ) (b d : Bool)
      → assessed r now ≡ assessment b d
      → assessed
          (elim u [
            | unmarshal_error ↦ none
            | other_type ↦ r
            | message x ↦ elim r [ none ↦ none | some rest ↦ some (x ∷ rest) ]
          ])
          now
        ≡ assessment (is_readable u && b) (has_come u now || d)
  unfolding assess_clauses assess_rule
  assessed-cons unmarshal_error r now b d h = refl
  assessed-cons other_type r now b d h = h
  assessed-cons (message x) none now true d h = absurd (none-some h)
  assessed-cons (message x) none now false d h = refl
  assessed-cons (message x) (some cs) now false d h = absurd (none-some (sym h))
  assessed-cons (message x) (some cs) now true d h = by_time (leb_ℤ x.time now)
    where
      by_time : (t : Bool) → some (if t then true else assess_clauses cs now) ≡ some (t || d)
      by_time true = refl
      by_time false = h

  extract-assessed :
      (cs : List (Clause Any)) (now : ℤ)
      → assessed (extract datetime cs) now ≡ assessment (readable cs) (some_come cs now)
  unfolding extract assess_clauses
  extract-assessed [] now = refl
  extract-assessed (c ∷ cs) now =
      assessed-cons (datetime.unmarshal c.clause) (extract datetime cs) now _ _
        (extract-assessed cs now)

module _ {Any E : Type 0} (datetime : Packing Any DatetimeClause) (t : Targets Any E) where
  -- A rule is due where all of its clauses can be read and one is of a time that has come.
  abbrev pub is_due : String → AutoOpsRule Any → Bool
  is_due ns a = readable datetime a.clauses && some_come datetime a.clauses (t.clock ns a)

  abbrev pub due : String → AutoOpsRule Any → List Execution
  due ns a = if is_due ns a then record { environment_namespace = ns; rule_id = a.id } ∷ [] else []

  abbrev pub all_due : String → List (AutoOpsRule Any) → List Execution
  all_due ns [] = []
  all_due ns (a ∷ rest) = due ns a ++ all_due ns rest

  -- The executions that are due, environment by environment.
  abbrev pub executions_due : List String → List Execution
  executions_due [] = []
  executions_due (ns ∷ nss) = all_due ns (t.rules ns) ++ executions_due nss

  abbrev AllReadable : List (AutoOpsRule Any) → Type 0
  AllReadable [] = Unit
  AllReadable (a ∷ rest) = (readable datetime a.clauses ≡ true) × AllReadable rest

  abbrev pub EveryReadable : List String → Type 0
  EveryReadable [] = Unit
  EveryReadable (ns ∷ nss) = AllReadable (t.rules ns) × EveryReadable nss

  -- No execution is answered with an error.
  abbrev pub Quiet : Type 0
  Quiet = (xs : List Execution) (x : Execution) → t.answer xs x ≡ none

  -- `p'` has made the executions `xs` after `p`, and where all is well there is no new error.
  abbrev Made : Type 0 → Progress E → List Execution → Progress E → Type 0
  Made Well p xs p' =
      (p'.executions ≡ p.executions ++ xs)
      × (Quiet → Well → p.last_error ≡ none → p'.last_error ≡ none)

  Made-trans :
      (V W : Type 0) (p q r : Progress E) (xs ys : List Execution)
      → Made V p xs q
      → Made W q ys r
      → Made (V × W) p (xs ++ ys) r
  Made-trans V W p q r xs ys (a, f) (b, g) = (
    b ∙ ap (λ zs. zs ++ ys) a ∙ append_assoc p.executions xs ys,
    λ quiet (v, w) h. g quiet w (f quiet v h),
  )

  execute-Made : (x : Execution) (p : Progress E) → Made Unit p (x ∷ []) (execute datetime t x p)
  unfolding execute
  execute-Made x p = elim (Option-cases (t.answer p.executions x)) [
    | inl e ↦ rw (execute, e) (refl, λ _ _ h. h)
    | inr (y, e) ↦
        rw (execute, e) (refl, λ quiet _ _. absurd (none-some (sym (quiet p.executions x) ∙ e)))
  ]

  execute_assessed-Made :
      (all some_time : Bool) (x : Execution) (p : Progress E)
      → Made
          (all ≡ true)
          p
          (if all && some_time then x ∷ [] else [])
          (execute_assessed datetime t (assessment datetime all some_time) x p)
  unfolding execute_assessed
  execute_assessed-Made true true x p = let (a, f) = execute-Made x p in (a, λ quiet _. f quiet tt)
  execute_assessed-Made true false x p = (sym (append-nil p.executions), λ _ _ h. h)
  execute_assessed-Made false some_time x p = (sym (append-nil p.executions), λ _ w _. cc)

  assess-assessment :
      (ns : String) (a : AutoOpsRule Any)
      → assess_auto_ops_rule datetime t ns a
        ≡ assessment datetime
            (readable datetime a.clauses)
            (some_come datetime a.clauses (t.clock ns a))
  unfolding assess_auto_ops_rule
  assess-assessment ns a =
      by_clauses (extract datetime a.clauses) (extract-assessed datetime a.clauses (t.clock ns a))
    where
      by_clauses :
          (m : Option (List DatetimeClause)) {r : Option Bool}
          → assessed datetime m (t.clock ns a) ≡ r
          → elim m [ none ↦ none | some cs ↦ some (assess_clauses cs (t.clock ns a)) ] ≡ r
      by_clauses none h = h
      by_clauses (some cs) h = h

  watch_rule-Made :
      (ns : String) (a : AutoOpsRule Any) (p : Progress E)
      → Made (readable datetime a.clauses ≡ true) p (due ns a) (watch_rule datetime t ns a p)
  unfolding watch_rule
  watch_rule-Made ns a p =
      subst
        (λ m.
          Made (readable datetime a.clauses ≡ true) p (due ns a) (
            execute_assessed datetime t m (record { environment_namespace = ns; rule_id = a.id })
              p))
        (sym (assess-assessment ns a)) (execute_assessed-Made _ _ _ p)

  watch_rules-Made :
      (ns : String) (rules : List (AutoOpsRule Any)) (p : Progress E)
      → Made (AllReadable rules) p (all_due ns rules) (watch_rules datetime t ns rules p)
  unfolding watch_rules
  watch_rules-Made ns [] p = (sym (append-nil p.executions), λ _ _ h. h)
  watch_rules-Made ns (a ∷ rest) p =
      Made-trans _ _ p (watch_rule datetime t ns a p) _ (due ns a) (all_due ns rest)
        (watch_rule-Made ns a p) (watch_rules-Made ns rest (watch_rule datetime t ns a p))

  watch_environments-Made :
      (nss : List String) (p : Progress E)
      → Made (EveryReadable nss) p (executions_due nss) (watch_environments datetime t nss p)
  unfolding watch_environments
  watch_environments-Made [] p = (sym (append-nil p.executions), λ _ _ h. h)
  watch_environments-Made (ns ∷ nss) p =
      Made-trans _ _ p (watch_rules datetime t ns (t.rules ns) p) _ (all_due ns (t.rules ns))
        (executions_due nss) (watch_rules-Made ns (t.rules ns) p)
        (watch_environments-Made nss (watch_rules datetime t ns (t.rules ns) p))

  -- One run of the job executes the rules that are due and no others, each once, environment by
  -- environment, whatever the executor answers. Where it answers no error and every clause of every
  -- rule can be read, the run ends without an error.
  pub run-Due :
      ((run datetime t).executions ≡ executions_due t.environments)
      × (Quiet → EveryReadable t.environments → (run datetime t).last_error ≡ none)
  unfolding run
  run-Due =
      let (a, f) =
        watch_environments-Made t.environments (record { executions = []; last_error = none }) in
      (a, λ quiet all. f quiet all refl)
