-- ===== src/Transaction/Exact.antt =====
-- A request that changes a row, in every outcome: RunInTransaction of pkg/storage/v2/mysql/client.go
-- around updateExperiment of pkg/experiment/api/experiment.go.
use bucketeer.Prelude.{
  ℕ, String, List, Option, none, some, true, eqb, if◌then◌else◌, if_ind, ◌≡◌, refl, sym, ◌∙◌, subst,
  arith, ◌⊎◌, inl, inr,
}
use bucketeer.Publish.{Sent, SendError, Sending, done, failed, panicked}
use bucketeer.Transaction.{
  Store, Selected, row, no_rows, select_error, Database, TxError, database_error, not_found,
  unexpected_affected_rows, Attempt, finished, aborted, crashed, Served, served, refused,
  aborted_by_panic, update_row, write_after, change_row, run_in_transaction, reply, serve_update,
}
use bucketeer.Transaction.Laws.{Changed}

row-injective : {S : Type 0} {x y : S} → row x ≡ row y → x ≡ y
row-injective e = cc

done-injective :
    {E S Event : Type 0} {h k : Sent S Event} → Path (Sending E S Event) (done h) (done k) → h ≡ k
done-injective e = cc

count_of : {S : Type 0} {q r : ℕ × List S} → some q ≡ some r → q.0 ≡ r.0
count_of e = cc

module _ {E S Event : Type 0} (db : Database S) (handle : Sent S Event → Sending E S Event)
    (id : String) (s : Store S Event) where
  abbrev start : S → Sent S Event
  start x = record { subject = x; published = s.published }

  -- The transaction begins and commits, and the row is changed.
  abbrev pub Committed : Store S Event → Type 0
  Committed s' = (db.begin_tx ≡ true) × (db.commit ≡ true) × Changed db handle id s s'

  -- The row that was read was handled and leaves `h`, with or without an error.
  abbrev pub Handled : Sent S Event → Type 0
  Handled h =
      (x : S) × (db.select s.rows id ≡ row x)
      × ((handle (start x) ≡ done h) ⊎ (e : SendError E) × (handle (start x) ≡ failed e h))

  -- Nothing was published, or what the handler published before the failure.
  abbrev pub Published : List Event → Type 0
  Published events =
      (events ≡ s.published) ⊎ (h : Sent S Event) × Handled h × (events ≡ h.published)

  abbrev pub Panicked : Type 0
  Panicked = (x : S) × (db.select s.rows id ≡ row x) × (handle (start x) ≡ panicked)

  -- Success is a commit; a refusal restores the rows, keeps what was published and is met only where
  -- no commit is possible; a panic is the handler's.
  abbrev pub Exact : {F : Type 0} → Served F S Event → Type 0
  Exact (served s') = Committed s'
  Exact (refused f s') =
      (s'.rows ≡ s.rows) × Published s'.published × ((t : Store S Event) → ¬ (Committed t))
  Exact aborted_by_panic = Panicked

  -- The function of the transaction.
  abbrev ExactRow : Attempt E S Event → Type 0
  ExactRow (finished s') = Changed db handle id s s'
  ExactRow (aborted e events) =
      Published events × ((t : Store S Event) → ¬ (Changed db handle id s t))
  ExactRow crashed = Panicked

  -- The transaction.
  abbrev ExactCommit : Attempt E S Event → Type 0
  ExactCommit (finished s') = (db.commit ≡ true) × Changed db handle id s s'
  ExactCommit (aborted e events) =
      Published events × ((t : Store S Event) → ¬ ((db.commit ≡ true) × Changed db handle id s t))
  ExactCommit crashed = Panicked

  -- A change reads the row and is handled with success as here.
  same_row :
      (x : S) (t : Store S Event)
      → db.select s.rows id ≡ row x
      → Changed db handle id s t
      → (h : Sent S Event) × (handle (start x) ≡ done h)
        × (db.update s.rows h.subject ≡ some (1, t.rows))
  same_row x t at (y, h, at', e, u, p) =
      (h, subst (λ z. handle (start z) ≡ done h) (row-injective (sym at' ∙ at)) e, u)

  same_end :
      (x : S) (h : Sent S Event) (t : Store S Event)
      → db.select s.rows id ≡ row x
      → handle (start x) ≡ done h
      → Changed db handle id s t
      → db.update s.rows h.subject ≡ some (1, t.rows)
  same_end x h t at e c =
      let (k, f, u) = same_row x t at c in
      subst (λ j. db.update s.rows j.subject ≡ some (1, t.rows)) (done-injective (sym f ∙ e)) u

  update_row-ExactRow :
      (x : S) (h : Sent S Event)
      → db.select s.rows id ≡ row x
      → handle (start x) ≡ done h
      → ExactRow (update_row db s.rows h)
  unfolding update_row
  update_row-ExactRow x h at e = by_answer (db.update s.rows h.subject) refl
    where
      kept : Published h.published
      kept = inr (h, (x, at, inl e), refl)

      by_answer :
          (o : Option (ℕ × List S))
          → db.update s.rows h.subject ≡ o
          → ExactRow (elim o [
            | none ↦ aborted database_error h.published
            | some (affected, rows') ↦
                if eqb affected 1
                then finished (record { rows = rows'; published = h.published })
                else aborted unexpected_affected_rows h.published
          ])
      by_answer none u = (kept, λ t c. let v = same_end x h t at e c in cc)
      by_answer (some (n, rows')) u =
          if_ind ExactRow (eqb n 1)
            (λ one. let n1 : n ≡ 1 = ground arith in (x, h, at, e, u ∙ (rw n1 refl), refl))
            (λ other. (
              kept,
              λ t c.
                  let n1 : n ≡ 1 = count_of (sym u ∙ same_end x h t at e c) in
                  absurd (ground (arith, other, n1)),
            ))

  write-ExactRow :
      (x : S) (r : Sending E S Event)
      → db.select s.rows id ≡ row x
      → handle (start x) ≡ r
      → ExactRow (write_after db (update_row db) s.rows r)
  unfolding write_after
  write-ExactRow x (done h) at e = update_row-ExactRow x h at e
  write-ExactRow x (failed y h) at e =
      (inr (h, (x, at, inr (y, e)), refl), λ t c. let (k, f, u) = same_row x t at c in cc)
  write-ExactRow x panicked at e = (x, at, e)

  change_row-ExactRow : ExactRow (change_row db handle id s)
  unfolding change_row
  change_row-ExactRow = by_row (db.select s.rows id) refl
    where
      by_row :
          (o : Selected S)
          → db.select s.rows id ≡ o
          → ExactRow (elim o [
            | row x ↦ write_after db (update_row db) s.rows (handle (start x))
            | no_rows ↦ aborted not_found s.published
            | select_error ↦ aborted database_error s.published
          ])
      by_row (row x) e = write-ExactRow x (handle (start x)) e refl
      by_row no_rows e = (inl refl, λ t (x, h, at, f, u, p). cc)
      by_row select_error e = (inl refl, λ t (x, h, at, f, u, p). cc)

  run-ExactCommit : (r : Attempt E S Event) → ExactRow r → ExactCommit (run_in_transaction db r)
  unfolding run_in_transaction
  run-ExactCommit (finished s') (x, h, at, e, u, p) =
      if_ind ExactCommit db.commit (λ c. (c, (x, h, at, e, u, p)))
        (λ c. (inr (h, (x, at, inl e), p), λ t (d, k). cc))
  run-ExactCommit (aborted e events) (p, never) = (p, λ t (d, k). never t k)
  run-ExactCommit crashed h = h

module _ {E F S Event : Type 0} (db : Database S) (status : TxError E → F)
    (handle : Sent S Event → Sending E S Event) (id : String) (s : Store S Event) where
  reply-Exact :
      (r : Attempt E S Event)
      → db.begin_tx ≡ true
      → ExactCommit db handle id s r
      → Exact db handle id s (reply status s r)
  unfolding reply
  reply-Exact (finished s') b (c, h) = (b, c, h)
  reply-Exact (aborted e events) b (p, never) = (refl, p, λ t (d, c, h). never t (c, h))
  reply-Exact crashed b h = h

  -- A request that changes a row succeeds exactly where the transaction begins and commits, the row
  -- is read, the handler succeeds on it and the one row is written: the store is then that of the
  -- write, with the events of the handler. It is refused only where no such commit is possible, and
  -- then the rows are as before, and the events are those from before or those that the handler left.
  -- It panics only where the handler panics on the row that was read.
  pub serve_update-Exact : Exact db handle id s (serve_update db status handle id s)
  unfolding serve_update
  serve_update-Exact =
      if_ind (Exact db handle id s) db.begin_tx
        (λ b. reply-Exact (run_in_transaction db (change_row db handle id s)) b (
          run-ExactCommit db handle id s (change_row db handle id s)
            (change_row-ExactRow db handle id s)))
        (λ b. (refl, inl refl, λ t (c, d, h). cc))
