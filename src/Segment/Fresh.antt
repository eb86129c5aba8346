-- ===== src/Segment/Fresh.antt =====
-- The clauses of a new rule get fresh ids: AddRule of pkg/feature/command/segment.go.
use bucketeer.Prelude.{
  ℕ, suc, ◌<◌, ◌≤◌, arith, String, List, [], ◌∷◌, map, true, false, Bool-cases, inl, inr, Option,
  none, some, ◌⊎◌, ◌≡◌, refl, sym, ap, subst, ◌∙◌, length, contains, ◌||◌, ◌==◌, eq_iff, All,
}
use bucketeer.Feature.Model.{Rule, Clause}
use bucketeer.Feature.Lookup.{clause_id}
use bucketeer.Feature.WellFormed.{Unique}
use bucketeer.Command.Handlers.{fresh_clauses}
use bucketeer.Segment.Sound.{HasValues, SoundRule}

-- The ids that are drawn are different.
abbrev pub Distinct : (ℕ → Option String) → Type 0
Distinct new_uuid = (i j : ℕ) (id : String) → new_uuid i ≡ some id → new_uuid j ≡ some id → i ≡ j

module _ (new_uuid : ℕ → Option String) (distinct : Distinct new_uuid) where
  -- The clauses `ds` are `cs` with the ids drawn from the `n`-th on.
  record Renewed (n : ℕ) (cs ds : List Clause) : Type 0 where
    as_many : length ds ≡ length cs
    unique : Unique (map clause_id ds)
    values : All HasValues cs → All HasValues ds
    drawn :
        (k : String)
        → contains k (map clause_id ds) ≡ true
        → (i : ℕ) × (n ≤ i) × (new_uuid i ≡ some k)

  abbrev RenewedIf : ℕ → List Clause → Option (List Clause) → Type 0
  RenewedIf n cs none = Unit
  RenewedIf n cs (some ds) = Renewed n cs ds

  renew_one :
      (n : ℕ) (id : String) (c : Clause) (cs ds : List Clause)
      → new_uuid n ≡ some id
      → Renewed (suc n) cs ds
      → Renewed n (c ∷ cs) (record c { id = id } ∷ ds)
  unfolding contains
  renew_one n id c cs ds e r = record {
    as_many = omega (arith, r.as_many);
    unique = (new (Bool-cases (contains id (map clause_id ds))), r.unique);
    values = λ (v, vs). (v, r.values vs);
    drawn = λ k h. origin k h (Bool-cases (id == k));
  }
    where
      new :
          (contains id (map clause_id ds) ≡ true) ⊎ (contains id (map clause_id ds) ≡ false)
          → contains id (map clause_id ds) ≡ false
      new (inl h) =
          let (i, later, f) = r.drawn id h in
          let same : n ≡ i = distinct n i id e f in absurd (omega (arith, later, same))
      new (inr h) = h

      origin :
          (k : String)
          → (id == k || contains k (map clause_id ds)) ≡ true
          → ((id == k) ≡ true) ⊎ ((id == k) ≡ false)
          → (i : ℕ) × (n ≤ i) × (new_uuid i ≡ some k)
      origin k h (inl same) = (n, omega arith, e ∙ ap some ((eq_iff id k).0 same))
      origin k h (inr other) =
          let (i, later, f) = r.drawn k (ground (arith, h, other)) in (i, omega (arith, later), f)

  fresh_clauses-Renewed : (n : ℕ) (cs : List Clause) → RenewedIf n cs (fresh_clauses new_uuid n cs)
  unfolding fresh_clauses contains
  fresh_clauses-Renewed n [] = record {
    as_many = refl;
    unique = tt;
    values = λ h. h;
    drawn = λ k h. cc;
  }
  fresh_clauses-Renewed n (c ∷ cs) =
      by_id (new_uuid n) (fresh_clauses new_uuid (suc n) cs) refl (fresh_clauses-Renewed (suc n) cs)
    where
      by_id :
          (o : Option String) (rest : Option (List Clause))
          → new_uuid n ≡ o
          → RenewedIf (suc n) cs rest
          → RenewedIf n (c ∷ cs) (elim o [
            | none ↦ none
            | some id ↦ elim rest [ none ↦ none | some ds ↦ some (record c { id = id } ∷ ds) ]
          ])
      by_id none rest e r = tt
      by_id (some id) none e r = tt
      by_id (some id) (some ds) e r = renew_one n id c cs ds e r

  pub fresh_clauses-SoundRule :
      (rule : Rule) (ds : List Clause)
      → 0 < length rule.clauses
      → All HasValues rule.clauses
      → fresh_clauses new_uuid 0 rule.clauses ≡ some ds
      → SoundRule (record rule { clauses = ds })
  fresh_clauses-SoundRule rule ds some_clause values e =
      let r = subst (RenewedIf 0 rule.clauses) e (fresh_clauses-Renewed 0 rule.clauses) in
      record {
        some_clause = subst (λ k. 0 < k) (sym r.as_many) some_clause;
        clauses_unique = r.unique;
        some_value = r.values values;
      }
