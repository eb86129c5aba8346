-- ===== src/AutoOps/RoundTrip.antt =====
-- What NewAutoOpsRule of pkg/autoops/domain/auto_ops_rule.go packs, the Extract methods unpack.
use bucketeer.Prelude.{
  ℕ, suc, ℤ, String, List, [], ◌∷◌, ◌++◌, Option, none, some, ◌≡◌, refl, sym, ap, ◌∙◌, found_then,
  Safe, Safe-bind, Safe-map,
}
use mathlib.Core.List.{append_assoc, append-nil}
use bucketeer.AutoOps.Model.{Clause, AutoOpsRule, message, other_type, Packing}
use bucketeer.AutoOps.Operations.{add_clause, add_packed, add_all, extract}

-- What is marshalled is unmarshalled to the same message.
abbrev pub Inverse : {Any A : Type 0} → Packing Any A → Type 0
Inverse {Any} {A} p = (c : A) (a : Any) → p.marshal c ≡ some a → p.unmarshal a ≡ message c

-- What `p` marshals is of another type for `q`.
abbrev pub Apart : {Any A B : Type 0} → Packing Any A → Packing Any B → Type 0
Apart {Any} {A} p q = (c : A) (a : Any) → p.marshal c ≡ some a → q.unmarshal a ≡ other_type

-- The messages of one type in a list of clauses, in their order.
abbrev pub Extracts : {Any A : Type 0} → Packing Any A → List (Clause Any) → List A → Type 0
Extracts p cs xs = extract p cs ≡ some xs

-- The clauses hold the messages, marshalled one by one.
abbrev pub Marshalled : {Any A : Type 0} → Packing Any A → List (Clause Any) → List A → Type 0
Marshalled p [] [] = Unit
Marshalled p [] (x ∷ xs) = ⊥
Marshalled p (c ∷ cs) [] = ⊥
Marshalled p (c ∷ cs) (x ∷ xs) = (p.marshal x ≡ some c.clause) × Marshalled p cs xs

module _ {Any A : Type 0} (p : Packing Any A) where
  Extracts-message :
      (c : Clause Any) (x : A) (cs : List (Clause Any)) (xs : List A)
      → p.unmarshal c.clause ≡ message x
      → Extracts p cs xs
      → Extracts p (c ∷ cs) (x ∷ xs)
  unfolding extract
  Extracts-message c x cs xs e f = rw (extract, e, f) refl

  Extracts-other :
      (c : Clause Any) (cs : List (Clause Any)) (xs : List A)
      → p.unmarshal c.clause ≡ other_type
      → Extracts p cs xs
      → Extracts p (c ∷ cs) xs
  unfolding extract
  Extracts-other c cs xs e f = rw (extract, e) f

  pub Extracts-own :
      (cs : List (Clause Any)) (xs : List A) (rest : List (Clause Any)) (ys : List A)
      → Inverse p
      → Marshalled p cs xs
      → Extracts p rest ys
      → Extracts p (cs ++ rest) (xs ++ ys)
  Extracts-own [] [] rest ys i m h = h
  Extracts-own [] (x ∷ xs) rest ys i m h = absurd m
  Extracts-own (c ∷ cs) [] rest ys i m h = absurd m
  Extracts-own (c ∷ cs) (x ∷ xs) rest ys i (e, m) h =
      Extracts-message c x (cs ++ rest) (xs ++ ys) (i x c.clause e)
        (Extracts-own cs xs rest ys i m h)

  pub Extracts-none : Extracts p [] []
  unfolding extract
  Extracts-none = refl

module _ {Any A B : Type 0} (p : Packing Any A) (q : Packing Any B) where
  pub Extracts-Apart :
      (cs : List (Clause Any)) (xs : List B) (rest : List (Clause Any)) (ys : List A)
      → Apart q p
      → Marshalled q cs xs
      → Extracts p rest ys
      → Extracts p (cs ++ rest) ys
  Extracts-Apart [] [] rest ys i m h = h
  Extracts-Apart [] (x ∷ xs) rest ys i m h = absurd m
  Extracts-Apart (c ∷ cs) [] rest ys i m h = absurd m
  Extracts-Apart (c ∷ cs) (x ∷ xs) rest ys i (e, m) h =
      Extracts-other p c (cs ++ rest) ys (i x c.clause e) (Extracts-Apart cs xs rest ys i m h)

-- The ids of the clauses are those drawn from the `n`-th on.
abbrev pub Drawn : {Any : Type 0} → (ℕ → Option String) → ℕ → List (Clause Any) → Type 0
Drawn new_uuid n [] = Unit
Drawn new_uuid n (c ∷ cs) = (new_uuid n ≡ some c.id) × Drawn new_uuid (suc n) cs

module _ {Any A : Type 0} (p : Packing Any A) (new_uuid : ℕ → Option String) (now : ℤ) where
  -- The clause made stands behind the others, and holds the id and the message.
  abbrev Made : A → Option String → AutoOpsRule Any → Clause Any × AutoOpsRule Any → Type 0
  Made x id a r =
      (r.1.clauses ≡ a.clauses ++ r.0 ∷ []) × (id ≡ some r.0.id) × (p.marshal x ≡ some r.0.clause)

  add_packed-Made :
      (x : A) (id : Option String) (a : AutoOpsRule Any)
      → Safe (Made x id a) (add_packed p x id now a)
  unfolding add_packed add_clause
  add_packed-Made x id a = found_then (Made x id a) (p.marshal x) _ _ λ ac e. by_id id ac e
    where
      by_id :
          (id : Option String) (ac : Any)
          → p.marshal x ≡ some ac
          → Safe (Made x id a) (add_clause ac id now a)
      by_id none ac e = tt
      by_id (some i) ac e = (refl, refl, e)

  abbrev pub Appended : ℕ → List A → AutoOpsRule Any → AutoOpsRule Any → Type 0
  Appended n xs a a' =
      (cs : List (Clause Any)) × (a'.clauses ≡ a.clauses ++ cs)
      × Marshalled p cs xs
      × Drawn new_uuid n cs

  pub add_all-Appended :
      (xs : List A) (n : ℕ) (a : AutoOpsRule Any)
      → Safe (Appended n xs a) (add_all p xs new_uuid n now a)
  unfolding add_all
  add_all-Appended [] n a = ([], sym (append-nil a.clauses), tt, tt)
  add_all-Appended (x ∷ xs) n a =
      Safe-bind (Made x (new_uuid n) a) (Appended n (x ∷ xs) a) (add_packed p x (new_uuid n) now a)
        _ (add_packed-Made x (new_uuid n) a)
        λ (c, b) (e, i, m).
          Safe-map (Appended (suc n) xs b) (Appended n (x ∷ xs) a)
            (add_all p xs new_uuid (suc n) now b)
            (λ b' (cs, f, ms, is). (
              c ∷ cs,
              f ∙ ap (λ zs. zs ++ cs) e ∙ append_assoc a.clauses (c ∷ []) cs,
              (m, ms),
              (i, is),
            ))
            (add_all-Appended xs (suc n) b)
