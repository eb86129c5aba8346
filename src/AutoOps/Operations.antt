-- ===== src/AutoOps/Operations.antt =====
-- The methods of the type AutoOpsRule of pkg/autoops/domain/auto_ops_rule.go. `now` is the answer of
-- `time.Now().Unix()`, and `new_id` that of `uuid.NewUUID` (`none` is its error).
use bucketeer.Prelude.{
  ℕ, zero, suc, ℤ, pos, String, List, [], ◌∷◌, ◌++◌, Bool, true, false, not, Option, none, some,
  length, leb, ◌+◌, ltb_ℤ, if◌then◌else◌, ◌==◌, Result, ok, err, or_err, guard, ◌>>=◌, ◌>>◌,
}
use bucketeer.AutoOps.Model.{
  OpsType, OpsEventRateClause, DatetimeClause, WebhookClause, Clause, AutoOpsRule, AutoOpsError,
  clause_not_found, clause_empty, uuid_error, marshal_error, message, other_type, unmarshal_error,
  Packing, Packings,
}

-- Some methods change the rule before they return an error.
pub data Edit (Any : Type 0) : Type 0 where
  edited : AutoOpsRule Any → Edit Any
  refused : AutoOpsError → AutoOpsRule Any → Edit Any

-- `m[id] = x`.
unfoldable pub insert : {A : Type 0} → String → A → List (String × A) → List (String × A)
insert id x [] = (id, x) ∷ []
insert id x ((k, y) ∷ m) = if k == id then (id, x) ∷ m else (k, y) ∷ insert id x m

module _ {Any : Type 0} where
  abbrev pub clause_id : Clause Any → String
  clause_id c = c.id

  unfoldable pub set_deleted : ℤ → AutoOpsRule Any → AutoOpsRule Any
  set_deleted now a = record a { deleted = true; updated_at = now }

  unfoldable pub set_triggered_at : ℤ → AutoOpsRule Any → AutoOpsRule Any
  set_triggered_at now a = record a { triggered_at = now; updated_at = now }

  unfoldable pub already_triggered : AutoOpsRule Any → Bool
  already_triggered a = ltb_ℤ (pos 0) a.triggered_at

  unfoldable pub set_ops_type : OpsType → ℤ → AutoOpsRule Any → AutoOpsRule Any
  set_ops_type ops_type now a = record a {
    ops_type = ops_type;
    updated_at = now;
    triggered_at = pos 0;
  }

  -- The clause that was made, and the rule with it.
  unfoldable pub add_clause :
      Any
      → (new_id : Option String) → ℤ
      → AutoOpsRule Any
      → Result AutoOpsError (Clause Any × AutoOpsRule Any)
  add_clause ac none now a = err uuid_error
  add_clause ac (some id) now a =
      let clause : Clause Any = record { id = id; clause = ac } in
      ok (
        clause,
        record a { clauses = a.clauses ++ clause ∷ []; updated_at = now; triggered_at = pos 0 },
      )

  -- `AddOpsEventRateClause`, `AddDatetimeClause` and `AddWebhookClause`.
  unfoldable pub add_packed :
      {A : Type 0}
      → Packing Any A
      → A
      → (new_id : Option String) → ℤ
      → AutoOpsRule Any
      → Result AutoOpsError (Clause Any × AutoOpsRule Any)
  add_packed p c new_id now a = do
    ac ← or_err (p.marshal c) marshal_error
    add_clause ac new_id now a

  -- The write to the first clause with the id; `none` where there is no such clause.
  unfoldable pub replace_clause : String → Any → List (Clause Any) → Option (List (Clause Any))
  replace_clause id ac [] = none
  replace_clause id ac (c ∷ cs) =
      if c.id == id
      then some (record c { clause = ac } ∷ cs)
      else elim (replace_clause id ac cs) [ none ↦ none | some rest ↦ some (c ∷ rest) ]

  unfoldable pub has_clause : String → List (Clause Any) → Bool
  has_clause id [] = false
  has_clause id (c ∷ cs) = if c.id == id then true else has_clause id cs

  -- The message is marshalled where its clause was found.
  unfoldable pub change_marshalled : String → Option Any → AutoOpsRule Any → Edit Any
  change_marshalled id none a =
      if has_clause id a.clauses then refused marshal_error a else refused clause_not_found a
  change_marshalled id (some ac) a = elim (replace_clause id ac a.clauses) [
    | none ↦ refused clause_not_found a
    | some clauses ↦ edited (record a { clauses = clauses })
  ]

  unfoldable pub change_clause :
      {A : Type 0} → Packing Any A → String → A → ℤ → AutoOpsRule Any → Edit Any
  change_clause p id c now a =
      change_marshalled id (p.marshal c) (record a { updated_at = now; triggered_at = pos 0 })

  -- `append(xs[:0], xs[1:]...)` in place: the elements move one to the left, and the last stays.
  unfoldable pub shift : List (Clause Any) → List (Clause Any)
  shift [] = []
  shift (x ∷ []) = x ∷ []
  shift (x ∷ y ∷ ys) = y ∷ shift (y ∷ ys)

  -- The loop of `DeleteClause` from one place of the array on: what the array then holds, and whether
  -- a clause was found. The loop goes on over the shifted array. Fuel: its length.
  unfoldable pub delete_from : ℕ → String → List (Clause Any) → List (Clause Any) × Bool
  delete_from zero id cs = (cs, false)
  delete_from (suc n) id [] = ([], false)
  delete_from (suc n) id (c ∷ []) = (c ∷ [], c.id == id)
  delete_from (suc n) id (c ∷ y ∷ ys) = elim (c.id == id) [
    | true ↦ (y ∷ (delete_from n id (shift (y ∷ ys))).0, true)
    | false ↦ let rest = delete_from n id (y ∷ ys) in (c ∷ rest.0, rest.1)
  ]

  -- All but the last element: the slice that `append` answers.
  unfoldable pub front : List (Clause Any) → List (Clause Any)
  front [] = []
  front (x ∷ []) = []
  front (x ∷ y ∷ ys) = x ∷ front (y ∷ ys)

  unfoldable pub delete_clause : String → ℤ → AutoOpsRule Any → Edit Any
  delete_clause id now a =
      if leb (length a.clauses) 1
      then refused clause_empty a
      else let a' = record a { updated_at = now; triggered_at = pos 0 } in
        let (array, found) = delete_from (length a.clauses) id a.clauses in
        if found then edited (record a' { clauses = front array }) else refused clause_not_found a'

  -- `ExtractDatetimeClauses` and `ExtractWebhookClauses`: the clauses of one type, in a slice.
  unfoldable pub extract : {A : Type 0} → Packing Any A → List (Clause Any) → Option (List A)
  extract p [] = some []
  extract p (c ∷ cs) = elim (p.unmarshal c.clause) [
    | unmarshal_error ↦ none
    | other_type ↦ extract p cs
    | message x ↦ elim (extract p cs) [ none ↦ none | some rest ↦ some (x ∷ rest) ]
  ]

  -- The loop of `ExtractOpsEventRateClauses`: what the map `m` has become after the clauses.
  unfoldable pub extract_rates_from :
      {Float : Type 0}
      → Packing Any (OpsEventRateClause Float)
      → List (Clause Any)
      → List (String × OpsEventRateClause Float)
      → Option (List (String × OpsEventRateClause Float))
  extract_rates_from p [] m = some m
  extract_rates_from p (c ∷ cs) m = elim (p.unmarshal c.clause) [
    | unmarshal_error ↦ none
    | other_type ↦ extract_rates_from p cs m
    | message x ↦ extract_rates_from p cs (insert c.id x m)
  ]

  -- The rate clauses in a map keyed by the ids of their clauses: a later clause takes the place of
  -- an earlier one with its id. The map is an association list, whose order means nothing.
  unfoldable pub extract_rates :
      {Float : Type 0}
      → Packing Any (OpsEventRateClause Float)
      → List (Clause Any)
      → Option (List (String × OpsEventRateClause Float))
  extract_rates p cs = extract_rates_from p cs []

  -- The clauses of one list, each with its id.
  unfoldable pub add_all :
      {A : Type 0}
      → Packing Any A
      → List A
      → (ℕ → Option String)
      → ℕ
      → ℤ
      → AutoOpsRule Any
      → Result AutoOpsError (AutoOpsRule Any)
  add_all p [] new_uuid n now a = ok a
  add_all p (c ∷ cs) new_uuid n now a = do
    (clause, a') ← add_packed p c (new_uuid n) now a
    add_all p cs new_uuid (suc n) now a'

  abbrev pub empty_rule : String → String → OpsType → ℤ → AutoOpsRule Any
  empty_rule id feature_id ops_type now = record {
    id = id;
    feature_id = feature_id;
    ops_type = ops_type;
    clauses = [];
    triggered_at = pos 0;
    created_at = now;
    updated_at = now;
    deleted = false;
  }

  abbrev pub is_empty : List (Clause Any) → Bool
  is_empty [] = true
  is_empty (c ∷ cs) = false

  unfoldable pub new_auto_ops_rule :
      {Float : Type 0}
      → Packings Any Float
      → (ℕ → Option String)
      → (feature_id : String) → OpsType
      → List (OpsEventRateClause Float)
      → List DatetimeClause
      → List WebhookClause
      → ℤ
      → Result AutoOpsError (AutoOpsRule Any)
  new_auto_ops_rule p new_uuid feature_id ops_type rates datetimes webhooks now = do
    id ← or_err (new_uuid 0) uuid_error
    a ← add_all p.rate rates new_uuid 1 now (empty_rule id feature_id ops_type now)
    b ← add_all p.datetime datetimes new_uuid (1 + length rates) now a
    c ← add_all p.webhook webhooks new_uuid (1 + length rates + length datetimes) now b
    guard (not (is_empty c.clauses)) clause_empty
    ok c
