-- ===== src/AutoOps/Deletion.antt =====
-- DeleteClause of pkg/autoops/domain/auto_ops_rule.go loops over a slice that it shifts in place;
-- it deletes what a plain deletion deletes.
use bucketeer.Prelude.{
  ℕ, zero, suc, ◌<◌, ◌≤◌, arith, ℤ, pos, String, List, [], ◌∷◌, map, Bool, true, false, Bool-cases,
  inl, inr, ◌≡◌, refl, sym, ap, subst, ◌∙◌, length, leb, contains, if◌then◌else◌, ◌==◌, eq_iff,
}
use bucketeer.Feature.WellFormed.{Unique}
use bucketeer.AutoOps.Model.{Clause, AutoOpsRule}
use bucketeer.AutoOps.Operations.{edited, clause_id, shift, delete_from, front, delete_clause}

module _ {Any : Type 0} where
  length-shift : (xs : List (Clause Any)) → length (shift xs) ≡ length xs
  unfolding shift
  length-shift [] = refl
  length-shift (x ∷ []) = refl
  length-shift (x ∷ y ∷ ys) = omega (arith, length-shift (y ∷ ys))

  front-shift : (x : Clause Any) (xs : List (Clause Any)) → front (shift (x ∷ xs)) ≡ xs
  unfolding shift front
  front-shift x [] = refl
  front-shift x (y ∷ []) = refl
  front-shift x (y ∷ z ∷ zs) = ap (λ ys. y ∷ ys) (front-shift y (z ∷ zs))

  abbrev Absent : String → List (Clause Any) → Type 0
  Absent id xs = contains id (map clause_id xs) ≡ false

  shift-Absent : (id : String) (xs : List (Clause Any)) → Absent id xs → Absent id (shift xs)
  unfolding shift contains
  shift-Absent id [] h = h
  shift-Absent id (x ∷ []) h = h
  shift-Absent id (x ∷ y ∷ ys) h = ground (arith, shift-Absent id (y ∷ ys))

  delete_from-same :
      (n : ℕ) (id : String) (c y : Clause Any) (ys : List (Clause Any))
      → (c.id == id) ≡ true
      → delete_from (suc n) id (c ∷ y ∷ ys) ≡ (y ∷ (delete_from n id (shift (y ∷ ys))).0, true)
  unfolding delete_from
  delete_from-same n id c y ys h = rw (delete_from, h)

  delete_from-other :
      (n : ℕ) (id : String) (c y : Clause Any) (ys : List (Clause Any))
      → (c.id == id) ≡ false
      → delete_from (suc n) id (c ∷ y ∷ ys)
        ≡ (c ∷ (delete_from n id (y ∷ ys)).0, (delete_from n id (y ∷ ys)).1)
  unfolding delete_from
  delete_from-other n id c y ys h = rw (delete_from, h)

  Absent-head :
      (id : String) (c : Clause Any) (cs : List (Clause Any))
      → Absent id (c ∷ cs)
      → ((c.id == id) ≡ false) × Absent id cs
  unfolding contains
  Absent-head id c cs h = ground (arith, h)

  -- No clause has the id: the loop changes nothing.
  delete_from-Absent :
      (n : ℕ) (id : String) (xs : List (Clause Any))
      → Absent id xs
      → delete_from n id xs ≡ (xs, false)
  delete_from-Absent zero id xs a = unfold delete_from in refl
  delete_from-Absent (suc n) id [] a = unfold delete_from in refl
  delete_from-Absent (suc n) id (c ∷ []) a =
      let (other, _) = Absent-head id c [] a in unfold delete_from in rw other
  delete_from-Absent (suc n) id (c ∷ y ∷ ys) a =
      let (other, rest) = Absent-head id c (y ∷ ys) a in
      delete_from-other n id c y ys other
      ∙ ap (λ r. (c ∷ r.0, r.1)) (delete_from-Absent n id (y ∷ ys) rest)

  length-delete_from :
      (n : ℕ) (id : String) (xs : List (Clause Any))
      → length xs ≤ n
      → length (delete_from n id xs).0 ≡ length xs
  length-delete_from zero id xs h = unfold delete_from in refl
  length-delete_from (suc n) id [] h = unfold delete_from in refl
  length-delete_from (suc n) id (c ∷ []) h = unfold delete_from in refl
  length-delete_from (suc n) id (c ∷ y ∷ ys) h = elim (Bool-cases (c.id == id)) [
    | inl same ↦
        ap (λ r. length r.0) (delete_from-same n id c y ys same)
        ∙ ap suc (
            length-delete_from n id (shift (y ∷ ys)) (omega (arith, h, length-shift (y ∷ ys)))
            ∙ length-shift (y ∷ ys))
    | inr other ↦
        ap (λ r. length r.0) (delete_from-other n id c y ys other)
        ∙ ap suc (length-delete_from n id (y ∷ ys) (omega (arith, h)))
  ]

  -- The plain deletion: the list without the first clause that has the id.
  abbrev pub without : String → List (Clause Any) → List (Clause Any)
  without id [] = []
  without id (c ∷ cs) = if c.id == id then cs else c ∷ without id cs

  front-cons : (c : Clause Any) (r : List (Clause Any)) → 0 < length r → front (c ∷ r) ≡ c ∷ front r
  unfolding front
  front-cons c [] h = absurd (omega (arith, h))
  front-cons c (x ∷ xs) h = refl

  abbrev Deleted : String → List (Clause Any) → List (Clause Any) × Bool → Type 0
  Deleted id xs r = (r.1 ≡ true) × (front r.0 ≡ without id xs)

  without-same :
      (id : String) (c : Clause Any) (cs : List (Clause Any))
      → (c.id == id) ≡ true
      → without id (c ∷ cs) ≡ cs
  without-same id c cs h = rw h

  without-other :
      (id : String) (c : Clause Any) (cs : List (Clause Any))
      → (c.id == id) ≡ false
      → without id (c ∷ cs) ≡ c ∷ without id cs
  without-other id c cs h = rw h

  -- The tail of a list without repeated ids does not have the id of its head.
  Unique-head :
      (id : String) (c : Clause Any) (cs : List (Clause Any))
      → Unique (map clause_id (c ∷ cs))
      → (c.id == id) ≡ true
      → Absent id cs
  Unique-head id c cs u h = subst (λ k. Absent k cs) ((eq_iff c.id id).0 h) u.0

  contains_tail :
      (id : String) (c : Clause Any) (cs : List (Clause Any))
      → contains id (map clause_id (c ∷ cs)) ≡ true
      → (c.id == id) ≡ false
      → contains id (map clause_id cs) ≡ true
  unfolding contains
  contains_tail id c cs h o = ground (arith, h, o)

  only :
      (id : String) (c : Clause Any) (n : ℕ)
      → contains id (map clause_id (c ∷ [])) ≡ true
      → Deleted id (c ∷ []) (delete_from (suc n) id (c ∷ []))
  unfolding delete_from front contains
  only id c n k = let same : (c.id == id) ≡ true = ground (arith, k) in (same, rw same)

  front_moved : (c y : Clause Any) (ys : List (Clause Any)) → front (y ∷ shift (y ∷ ys)) ≡ y ∷ ys
  unfolding shift front
  front_moved c y ys = front-shift c (y ∷ ys)

  delete_from-Deleted :
      (n : ℕ) (id : String) (xs : List (Clause Any))
      → length xs ≤ n
      → Unique (map clause_id xs)
      → contains id (map clause_id xs) ≡ true
      → Deleted id xs (delete_from n id xs)
  delete_from-Deleted n id [] h u k = unfold contains in cc k
  delete_from-Deleted zero id (c ∷ cs) h u k = absurd (omega (arith, h))
  delete_from-Deleted (suc n) id (c ∷ []) h u k = only id c n k
  delete_from-Deleted (suc n) id (c ∷ y ∷ ys) h u k = elim (Bool-cases (c.id == id)) [
    | inl same ↦
        let gone = shift-Absent id (y ∷ ys) (Unique-head id c (y ∷ ys) u same) in
        let e =
          delete_from-same n id c y ys same
          ∙ ap (λ r. (y ∷ r.0, true)) (delete_from-Absent n id (shift (y ∷ ys)) gone) in
        subst (Deleted id (c ∷ y ∷ ys)) (sym e)
          (refl, front_moved c y ys ∙ sym (without-same id c (y ∷ ys) same))
    | inr other ↦
        let (found, rest) =
          delete_from-Deleted n id (y ∷ ys) (omega (arith, h)) u.1
            (contains_tail id c (y ∷ ys) k other) in
        let r = (delete_from n id (y ∷ ys)).0 in
        let more : 0 < length r =
          subst (λ m. 0 < m) (sym (length-delete_from n id (y ∷ ys) (omega (arith, h))))
            (omega arith) in
        subst (Deleted id (c ∷ y ∷ ys)) (sym (delete_from-other n id c y ys other)) (
          found,
          front-cons c r more ∙ ap (λ zs. c ∷ zs) rest ∙ sym (without-other id c (y ∷ ys) other),
        )
  ]

  -- In a rule whose clauses have different ids, the deletion of a clause that is there and not the
  -- last one leaves the other clauses in their order, and forgets that the rule was triggered. The
  -- loop that shifts the slice while it reads it does what a plain deletion does.
  pub delete_clause-without :
      (id : String) (now : ℤ) (a : AutoOpsRule Any)
      → Unique (map clause_id a.clauses)
      → contains id (map clause_id a.clauses) ≡ true
      → 1 < length a.clauses
      → delete_clause id now a
        ≡ edited
            (record a { clauses = without id a.clauses; updated_at = now; triggered_at = pos 0 })
  unfolding delete_clause
  delete_clause-without id now a u k h =
      let (found, rest) = delete_from-Deleted (length a.clauses) id a.clauses (omega arith) u k in
      let enough : leb (length a.clauses) 1 ≡ false = ground (arith, h) in rw (enough, found, rest)
