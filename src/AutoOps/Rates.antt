-- ===== src/AutoOps/Rates.antt =====
-- ExtractOpsEventRateClauses of pkg/autoops/domain/auto_ops_rule.go fills a map keyed by the ids of
-- the clauses.
use bucketeer.Prelude.{
  ℕ, suc, ◌≤◌, arith, String, List, [], ◌∷◌, ◌++◌, map, Bool, true, false, Bool-cases, inl, inr,
  ◌⊎◌, Option, some, ◌≡◌, refl, sym, ap, subst, ◌∙◌, contains, ◌==◌, eq_iff, eq_refl,
}
use mathlib.Core.List.{append_assoc, append-nil}
use bucketeer.Feature.WellFormed.{Unique}
use bucketeer.Segment.Fresh.{Distinct}
use bucketeer.AutoOps.Model.{OpsEventRateClause, Clause, message, other_type, Packing}
use bucketeer.AutoOps.Operations.{clause_id, insert, extract_rates_from, extract_rates}
use bucketeer.AutoOps.RoundTrip.{Inverse, Apart, Marshalled, Drawn}

abbrev pub key : {A : Type 0} → String × A → String
key e = e.0

-- The messages under the ids of their clauses.
abbrev pub entries : {Any A : Type 0} → List (Clause Any) → List A → List (String × A)
entries [] xs = []
entries (c ∷ cs) [] = []
entries (c ∷ cs) (x ∷ xs) = (c.id, x) ∷ entries cs xs

true-false : {b : Bool} → b ≡ true → ¬ (b ≡ false)
true-false e f = cc

module _ {A : Type 0} where
  insert-new :
      (id : String) (x : A) (m : List (String × A))
      → contains id (map key m) ≡ false
      → insert id x m ≡ m ++ (id, x) ∷ []
  unfolding insert contains
  insert-new id x [] h = refl
  insert-new id x ((k, y) ∷ m) h = elim (Bool-cases (k == id)) [
    | inl e ↦ cc
    | inr e ↦
        let absent : contains id (map key m) ≡ false = ground (arith, h, e) in
        let rest = insert-new id x m absent in rw (insert, e, rest) refl
  ]

  -- A key that is in a list is found there.
  behind :
      (m : List (String × A)) (e : String × A) (rest : List (String × A))
      → contains e.0 (map key (m ++ e ∷ rest)) ≡ true
  unfolding contains
  behind [] e rest = rw (eq_refl e.0) refl
  behind (y ∷ m) e rest = let later = behind m e rest in ground (arith, later)

  -- A key with another behind it is not among those before.
  Unique-before :
      (m : List (String × A)) (e : String × A) (rest : List (String × A))
      → Unique (map key (m ++ e ∷ rest))
      → contains e.0 (map key m) ≡ false
  unfolding contains
  Unique-before [] e rest h = refl
  Unique-before (y ∷ m) e rest (new, h) =
      rw (other (Bool-cases (y.0 == e.0)), Unique-before m e rest h) refl
    where
      other : ((y.0 == e.0) ≡ true) ⊎ ((y.0 == e.0) ≡ false) → (y.0 == e.0) ≡ false
      other (inl same) =
          let found = behind m e rest in
          let missed : contains e.0 (map key (m ++ e ∷ rest)) ≡ false =
            subst (λ k. contains k (map key (m ++ e ∷ rest)) ≡ false) ((eq_iff y.0 e.0).0 same)
              new in
          absurd (true-false found missed)
      other (inr differ) = differ

module _ {Any Float : Type 0} (p : Packing Any (OpsEventRateClause Float)) where
  from-message :
      (c : Clause Any) (x : OpsEventRateClause Float) (cs : List (Clause Any))
      (m : List (String × OpsEventRateClause Float))
      → p.unmarshal c.clause ≡ message x
      → extract_rates_from p (c ∷ cs) m ≡ extract_rates_from p cs (insert c.id x m)
  unfolding extract_rates_from
  from-message c x cs m e = rw (extract_rates_from, e) refl

  from-other :
      (c : Clause Any) (cs : List (Clause Any)) (m : List (String × OpsEventRateClause Float))
      → p.unmarshal c.clause ≡ other_type
      → extract_rates_from p (c ∷ cs) m ≡ extract_rates_from p cs m
  unfolding extract_rates_from
  from-other c cs m e = rw (extract_rates_from, e) refl

  -- Rate clauses with keys of their own get an entry each.
  from-own :
      (cs : List (Clause Any)) (xs : List (OpsEventRateClause Float)) (rest : List (Clause Any))
      (m : List (String × OpsEventRateClause Float))
      → Inverse p
      → Marshalled p cs xs
      → Unique (map key (m ++ entries cs xs))
      → extract_rates_from p (cs ++ rest) m ≡ extract_rates_from p rest (m ++ entries cs xs)
  from-own [] [] rest m i h u = ap (extract_rates_from p rest) (sym (append-nil m))
  from-own [] (x ∷ xs) rest m i h u = absurd h
  from-own (c ∷ cs) [] rest m i h u = absurd h
  from-own (c ∷ cs) (x ∷ xs) rest m i (e, h) u =
      let e1 : String × OpsEventRateClause Float = (c.id, x) in
      let joined = append_assoc m (e1 ∷ []) (entries cs xs) in
      from-message c x (cs ++ rest) m (i x c.clause e)
      ∙ ap (extract_rates_from p (cs ++ rest))
          (insert-new c.id x m (Unique-before m e1 (entries cs xs) u))
      ∙ from-own cs xs rest (m ++ e1 ∷ []) i h (subst (λ es. Unique (map key es)) (sym joined) u)
      ∙ ap (extract_rates_from p rest) joined

  pub from-Apart :
      {B : Type 0} (q : Packing Any B) (cs : List (Clause Any)) (xs : List B)
      (rest : List (Clause Any)) (m : List (String × OpsEventRateClause Float))
      → Apart q p
      → Marshalled q cs xs
      → extract_rates_from p (cs ++ rest) m ≡ extract_rates_from p rest m
  from-Apart q [] [] rest m i h = refl
  from-Apart q [] (x ∷ xs) rest m i h = absurd h
  from-Apart q (c ∷ cs) [] rest m i h = absurd h
  from-Apart q (c ∷ cs) (x ∷ xs) rest m i (e, h) =
      from-other c (cs ++ rest) m (i x c.clause e) ∙ from-Apart q cs xs rest m i h

  keys-entries :
      (cs : List (Clause Any)) (xs : List (OpsEventRateClause Float))
      → Marshalled p cs xs
      → map key (entries cs xs) ≡ map clause_id cs
  keys-entries [] [] h = refl
  keys-entries [] (x ∷ xs) h = absurd h
  keys-entries (c ∷ cs) [] h = absurd h
  keys-entries (c ∷ cs) (x ∷ xs) (e, h) = ap (λ ks. c.id ∷ ks) (keys-entries cs xs h)

  -- The map of rate clauses has one entry for each of `rs`, under the id of the clause that holds it,
  -- where the ids are different, and no other entry.
  abbrev pub Keyed : List (Clause Any) → List (OpsEventRateClause Float) → Type 0
  Keyed cs rs =
      (own : List (Clause Any)) × (rest : List (Clause Any)) × (cs ≡ own ++ rest)
      × Marshalled p own rs
      × Unique (map clause_id own)
      × (extract_rates p cs ≡ some (entries own rs))

  pub own-Keyed :
      (own rest : List (Clause Any)) (rs : List (OpsEventRateClause Float))
      → Inverse p
      → Marshalled p own rs
      → Unique (map clause_id own)
      → ((m : List (String × OpsEventRateClause Float)) → extract_rates_from p rest m ≡ some m)
      → Keyed (own ++ rest) rs
  unfolding extract_rates
  own-Keyed own rest rs i h u none_left = (
    own,
    rest,
    refl,
    h,
    u,
    from-own own rs rest [] i h (subst Unique (sym (keys-entries own rs h)) u)
        ∙ none_left (entries own rs),
  )

  pub from-nothing :
      (m : List (String × OpsEventRateClause Float)) → extract_rates_from p [] m ≡ some m
  unfolding extract_rates_from
  from-nothing m = refl

module _ {Any : Type 0} (new_uuid : ℕ → Option String) where
  origin :
      (n : ℕ) (cs : List (Clause Any)) (k : String)
      → Drawn new_uuid n cs
      → contains k (map clause_id cs) ≡ true
      → (i : ℕ) × (n ≤ i) × (new_uuid i ≡ some k)
  unfolding contains
  origin n [] k d h = cc
  origin n (c ∷ cs) k (e, d) h = elim (Bool-cases (c.id == k)) [
    | inl same ↦ (n, omega arith, e ∙ ap some ((eq_iff c.id k).0 same))
    | inr other ↦
        let there : contains k (map clause_id cs) ≡ true = ground (arith, h, other) in
        let (i, later, f) = origin (suc n) cs k d there in (i, omega (arith, later), f)
  ]

  -- Clauses with ids drawn one after another from a source that repeats none have different ids.
  pub Drawn-Unique :
      (n : ℕ) (cs : List (Clause Any))
      → Distinct new_uuid
      → Drawn new_uuid n cs
      → Unique (map clause_id cs)
  Drawn-Unique n [] distinct d = tt
  Drawn-Unique n (c ∷ cs) distinct (e, d) =
      (fresh (Bool-cases (contains c.id (map clause_id cs))), Drawn-Unique (suc n) cs distinct d)
    where
      fresh :
          (contains c.id (map clause_id cs) ≡ true) ⊎ (contains c.id (map clause_id cs) ≡ false)
          → contains c.id (map clause_id cs) ≡ false
      fresh (inl h) =
          let (i, later, f) = origin (suc n) cs c.id d h in
          let same : n ≡ i = distinct n i c.id e f in absurd (omega (arith, later, same))
      fresh (inr h) = h
