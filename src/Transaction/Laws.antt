-- ===== src/Transaction/Laws.antt =====
-- What a transaction commits and what it leaves when it fails.
use bucketeer.Prelude.{
  ℕ, String, List, Option, none, some, eqb, if◌then◌else◌, if_ind, ◌≡◌, refl, ◌∙◌, arith, All,
}
use bucketeer.Publish.{Sent, Sending, done, failed, panicked}
use bucketeer.Transaction.{
  Store, Selected, row, no_rows, select_error, Inserted, inserted, duplicate_entry, insert_error,
  Database, TxError, database_error, not_found, already_exists, unexpected_affected_rows, Attempt,
  finished, aborted, crashed, Served, served, refused, aborted_by_panic, update_row, insert_row,
  write_after, change_row, run_in_transaction, reply, serve_update, serve_insert,
}

-- What a database promises: a row that is selected is one of the table, and a write leaves only
-- rows of the table and the row written.
pub record DatabaseLaws {S : Type 0} (db : Database S) : Type 1 where
  pub select_known :
      (P : S → Type 0) (rows : List S) (id : String) (x : S)
      → db.select rows id ≡ row x
      → All P rows
      → P x
  pub update_known :
      (P : S → Type 0) (rows rows' : List S) (x : S)
      → db.update rows x ≡ some (1, rows')
      → All P rows
      → P x
      → All P rows'
  pub insert_known :
      (P : S → Type 0) (rows rows' : List S) (x : S)
      → db.insert rows x ≡ inserted rows'
      → All P rows
      → P x
      → All P rows'

module _ {E S Event : Type 0} (db : Database S) where
  -- The row `id` was read, handled with success and written back alone.
  abbrev pub Changed :
      (Sent S Event → Sending E S Event) → String → Store S Event → Store S Event → Type 0
  Changed handle id s s' =
      (x : S) × (h : Sent S Event) × (db.select s.rows id ≡ row x)
      × (handle (record { subject = x; published = s.published }) ≡ done h)
      × (db.update s.rows h.subject ≡ some (1, s'.rows))
      × (s'.published ≡ h.published)

  -- The object was handled with success and stored as a new row.
  abbrev pub Added : (Sent S Event → Sending E S Event) → S → Store S Event → Store S Event → Type 0
  Added handle x s s' =
      (h : Sent S Event) × (handle (record { subject = x; published = s.published }) ≡ done h)
      × (db.insert s.rows h.subject ≡ inserted s'.rows)
      × (s'.published ≡ h.published)

abbrev pub Commits : {E S Event : Type 0} → (Store S Event → Type 0) → Attempt E S Event → Type 0
Commits P (finished s) = P s
Commits P (aborted e events) = Unit
Commits P crashed = Unit

Commits-map :
    {E S Event : Type 0} (P Q : Store S Event → Type 0) (r : Attempt E S Event)
    → ((s : Store S Event) → P s → Q s)
    → Commits P r
    → Commits Q r
Commits-map P Q (finished s) f h = f s h
Commits-map P Q (aborted e events) f h = tt
Commits-map P Q crashed f h = tt

module _ (E : Type 0) {S Event : Type 0} (db : Database S) where
  update_row-Commits :
      (rows : List S) (h : Sent S Event)
      → Commits
          (λ s'. (db.update rows h.subject ≡ some (1, s'.rows)) × (s'.published ≡ h.published))
          (update_row {E = E} db rows h)
  unfolding update_row
  update_row-Commits rows h = by_answer (db.update rows h.subject) refl
    where
      by_answer :
          (o : Option (ℕ × List S))
          → db.update rows h.subject ≡ o
          → Commits {E = E}
              (λ s'. (db.update rows h.subject ≡ some (1, s'.rows)) × (s'.published ≡ h.published))
              (elim o [
                | none ↦ aborted database_error h.published
                | some (affected, rows') ↦
                    if eqb affected 1
                    then finished (record { rows = rows'; published = h.published })
                    else aborted unexpected_affected_rows h.published
              ])
      by_answer none e = tt
      by_answer (some (n, rows')) e =
          if_ind (Commits _) (eqb n 1)
            (λ one. let n1 : n ≡ 1 = ground arith in (e ∙ (rw n1 refl), refl)) (λ _. tt)

  insert_row-Commits :
      (rows : List S) (h : Sent S Event)
      → Commits
          (λ s'. (db.insert rows h.subject ≡ inserted s'.rows) × (s'.published ≡ h.published))
          (insert_row {E = E} db rows h)
  unfolding insert_row
  insert_row-Commits rows h = by_answer (db.insert rows h.subject) refl
    where
      by_answer :
          (o : Inserted S)
          → db.insert rows h.subject ≡ o
          → Commits {E = E}
              (λ s'. (db.insert rows h.subject ≡ inserted s'.rows) × (s'.published ≡ h.published))
              (elim o [
                | insert_error ↦ aborted database_error h.published
                | duplicate_entry ↦ aborted already_exists h.published
                | inserted rows' ↦ finished (record { rows = rows'; published = h.published })
              ])
      by_answer (inserted rows') e = (e, refl)
      by_answer duplicate_entry e = tt
      by_answer insert_error e = tt

module _ {E S Event : Type 0} (db : Database S) where
  pub change_row-Commits :
      (handle : Sent S Event → Sending E S Event) (id : String) (s : Store S Event)
      → Commits (Changed db handle id s) (change_row db handle id s)
  unfolding change_row write_after
  change_row-Commits handle id s = by_row (db.select s.rows id) refl
    where
      start : S → Sent S Event
      start x = record { subject = x; published = s.published }

      by_end :
          (x : S) (r : Sending E S Event)
          → db.select s.rows id ≡ row x
          → handle (start x) ≡ r
          → Commits (Changed db handle id s) (write_after db (update_row db) s.rows r)
      by_end x (done h) at e =
          Commits-map _ _ (update_row db s.rows h) (λ s' (u, p). (x, h, at, e, u, p))
            (update_row-Commits E db s.rows h)
      by_end x (failed y h) at e = tt
      by_end x panicked at e = tt

      by_row :
          (o : Selected S)
          → db.select s.rows id ≡ o
          → Commits (Changed db handle id s) (elim o [
            | row x ↦ write_after db (update_row db) s.rows (handle (start x))
            | no_rows ↦ aborted not_found s.published
            | select_error ↦ aborted database_error s.published
          ])
      by_row (row x) e = by_end x (handle (start x)) e refl
      by_row no_rows e = tt
      by_row select_error e = tt

  add_row-Commits :
      (handle : Sent S Event → Sending E S Event) (x : S) (s : Store S Event)
      → Commits (Added db handle x s) (
          write_after db
            (insert_row db)
            s.rows
            (handle (record { subject = x; published = s.published })))
  unfolding write_after
  add_row-Commits handle x s = by_end (handle start) refl
    where
      start : Sent S Event
      start = record { subject = x; published = s.published }

      by_end :
          (r : Sending E S Event)
          → handle start ≡ r
          → Commits (Added db handle x s) (write_after db (insert_row db) s.rows r)
      by_end (done h) e =
          Commits-map _ _ (insert_row db s.rows h) (λ s' (u, p). (h, e, u, p))
            (insert_row-Commits E db s.rows h)
      by_end (failed y h) e = tt
      by_end panicked e = tt

  run-Commits :
      (P : Store S Event → Type 0) (r : Attempt E S Event)
      → Commits P r
      → Commits P (run_in_transaction db r)
  unfolding run_in_transaction
  run-Commits P (finished s) h = if_ind (Commits P) db.commit (λ _. h) (λ _. tt)
  run-Commits P (aborted e events) h = tt
  run-Commits P crashed h = tt

-- Success satisfies `P`, and a refusal leaves the rows as they were.
abbrev pub Atomic :
    {F S Event : Type 0} → (Store S Event → Type 0) → Store S Event → Served F S Event → Type 0
Atomic P s (served s') = P s'
Atomic P s (refused f s') = s'.rows ≡ s.rows
Atomic P s aborted_by_panic = Unit

module _ {E F S Event : Type 0} (db : Database S) (status : TxError E → F) where
  reply-Atomic :
      (P : Store S Event → Type 0) (s : Store S Event) (r : Attempt E S Event)
      → Commits P r
      → Atomic P s (reply status s r)
  unfolding reply
  reply-Atomic P s (finished s') h = h
  reply-Atomic P s (aborted e events) h = refl
  reply-Atomic P s crashed h = tt

  -- A request that changes a row either commits, and then the row was read, handled with success
  -- and written back as the only change, with the events of the handler, or is refused and leaves
  -- the rows as they were, or panics, of which nothing is said (Exact says more).
  pub serve_update-Atomic :
      (handle : Sent S Event → Sending E S Event) (id : String) (s : Store S Event)
      → Atomic (Changed db handle id s) s (serve_update db status handle id s)
  unfolding serve_update
  serve_update-Atomic handle id s =
      if_ind (Atomic (Changed db handle id s) s) db.begin_tx
        (λ _.
          reply-Atomic _ s (run_in_transaction db (change_row db handle id s))
            (run-Commits db _ (change_row db handle id s) (change_row-Commits db handle id s)))
        (λ _. refl)

  pub serve_insert-Atomic :
      (handle : Sent S Event → Sending E S Event) (x : S) (s : Store S Event)
      → Atomic (Added db handle x s) s (serve_insert db status handle x s)
  unfolding serve_insert
  serve_insert-Atomic handle x s =
      if_ind (Atomic (Added db handle x s) s) db.begin_tx
        (λ _. reply-Atomic _ s _ (run-Commits db _ _ (add_row-Commits db handle x s))) (λ _. refl)
