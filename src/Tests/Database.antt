-- ===== src/Tests/Database.antt =====
-- A table in memory that keeps what Transaction asks of a database.
use bucketeer.Prelude.{
  ℕ, String, List, [], ◌∷◌, ◌++◌, true, some, ◌==◌, if◌then◌else◌, if_ind, Bool-cases, inl, inr,
  ◌≡◌, subst, All, All-append,
}
use bucketeer.Transaction.{Selected, row, no_rows, inserted, Database}
use bucketeer.Transaction.Laws.{DatabaseLaws}

module _ {S : Type 0} (key : S → String) where
  abbrev pub find_row : List S → String → Selected S
  find_row [] id = no_rows
  find_row (x ∷ xs) id = if key x == id then row x else find_row xs id

  abbrev pub replace_row : List S → S → ℕ × List S
  replace_row [] y = (0, [])
  replace_row (x ∷ xs) y =
      let rest = replace_row xs y in if key x == key y then (1, y ∷ xs) else (rest.0, x ∷ rest.1)

  abbrev pub table : Database S
  table = record {
    begin_tx = true;
    commit = true;
    select = find_row;
    insert = λ rows x. inserted (rows ++ x ∷ []);
    update = λ rows x. some (replace_row rows x);
  }

  find_row-known :
      (P : S → Type 0) (rows : List S) (id : String) (x : S)
      → find_row rows id ≡ row x
      → All P rows
      → P x
  find_row-known P [] id x e h = cc
  find_row-known P (y ∷ ys) id x e h = elim (Bool-cases (key y == id)) [
    | inl t ↦ subst P (cc) h.0
    | inr f ↦ find_row-known P ys id x (cc) h.1
  ]

  replace_row-known :
      (P : S → Type 0) (rows : List S) (y : S) → All P rows → P y → All P (replace_row rows y).1
  replace_row-known P [] y h p = tt
  replace_row-known P (x ∷ xs) y h p =
      if_ind (λ (r : ℕ × List S). All P r.1) (key x == key y) (λ _. (p, h.1))
        (λ _. (h.0, replace_row-known P xs y h.1 p))

  pub table-DatabaseLaws : DatabaseLaws table
  table-DatabaseLaws = record {
    select_known = find_row-known;
    update_known =
        λ P rows rows' x e h p. subst (All P) (ap_rows e) (replace_row-known P rows x h p);
    insert_known =
        λ P rows rows' x e h p. subst (All P) (inserted_rows e) (All-append P rows x h p);
  }
    where
      ap_rows : {rows : List S} {r : ℕ × List S} → some r ≡ some (1, rows) → r.1 ≡ rows
      ap_rows e = cc

      inserted_rows : {a b : List S} → inserted a ≡ inserted b → a ≡ b
      inserted_rows e = cc
