-- ===== src/Transaction.antt =====
-- A request that changes one stored object: `RunInTransaction` of pkg/storage/v2/mysql/client.go
-- around the storage of pkg/experiment/storage/v2 and a command handler. A failure rolls the rows
-- back; what was published stays published.
pub mod Laws
pub mod Kept
pub mod Exact
use bucketeer.Prelude.{ℕ, String, List, [], Bool, Option, none, some, eqb, if◌then◌else◌}
use bucketeer.Publish.{Sent, SendError, Sending, done, failed, panicked}

-- The rows of a table in one environment, and the events published.
pub record Store (S Event : Type 0) : Type 0 where
  pub rows : List S
  pub published : List Event

pub data Selected (S : Type 0) : Type 0 where
  row : S → Selected S
  no_rows select_error : Selected S

pub data Inserted (S : Type 0) : Type 0 where
  inserted : List S → Inserted S
  duplicate_entry insert_error : Inserted S

-- The database: whether a transaction begins and commits, and the answers of its statements. An
-- update answers the number of rows affected and the rows; `none` is its error.
pub record Database (S : Type 0) : Type 0 where
  pub begin_tx : Bool
  pub commit : Bool
  pub select : List S → String → Selected S
  pub insert : List S → S → Inserted S
  pub update : List S → S → Option (ℕ × List S)

pub data TxError (E : Type 0) : Type 0 where
  not_found already_exists unexpected_affected_rows database_error : TxError E
  handler : SendError E → TxError E

-- The end of a transaction's function: the store to commit, or an error and the events published.
pub data Attempt (E S Event : Type 0) : Type 0 where
  finished : Store S Event → Attempt E S Event
  aborted : TxError E → List Event → Attempt E S Event
  crashed : Attempt E S Event

-- What a request answers, and the store it leaves.
pub data Served (F S Event : Type 0) : Type 0 where
  served : Store S Event → Served F S Event
  refused : F → Store S Event → Served F S Event
  aborted_by_panic : Served F S Event

module _ {E S Event : Type 0} (db : Database S) where
  -- `UpdateExperiment` of the storage, as the end of the transaction.
  unfoldable pub update_row : List S → Sent S Event → Attempt E S Event
  update_row rows h = elim (db.update rows h.subject) [
    | none ↦ aborted database_error h.published
    | some (affected, rows') ↦
        if eqb affected 1
        then finished (record { rows = rows'; published = h.published })
        else aborted unexpected_affected_rows h.published
  ]

  -- `CreateExperiment` of the storage, as the end of the transaction.
  unfoldable pub insert_row : List S → Sent S Event → Attempt E S Event
  insert_row rows h = elim (db.insert rows h.subject) [
    | insert_error ↦ aborted database_error h.published
    | duplicate_entry ↦ aborted already_exists h.published
    | inserted rows' ↦ finished (record { rows = rows'; published = h.published })
  ]

  -- The handler's end, and then the write of the storage.
  unfoldable pub write_after :
      (List S → Sent S Event → Attempt E S Event) → List S → Sending E S Event → Attempt E S Event
  write_after write rows (done h) = write rows h
  write_after write rows (failed e h) = aborted (handler e) h.published
  write_after write rows panicked = crashed

  -- The object is read, handled and written back.
  unfoldable pub change_row :
      (Sent S Event → Sending E S Event) → String → Store S Event → Attempt E S Event
  change_row handle id s = elim (db.select s.rows id) [
    | row x ↦
        write_after update_row s.rows (handle (record { subject = x; published = s.published }))
    | no_rows ↦ aborted not_found s.published
    | select_error ↦ aborted database_error s.published
  ]

  unfoldable pub run_in_transaction : Attempt E S Event → Attempt E S Event
  run_in_transaction (finished s) =
      if db.commit then finished s else aborted database_error s.published
  run_in_transaction (aborted e events) = aborted e events
  run_in_transaction crashed = crashed

-- The rows are rolled back where the transaction was aborted.
unfoldable pub reply :
    {E F S Event : Type 0} → (TxError E → F) → Store S Event → Attempt E S Event → Served F S Event
reply status s (finished s') = served s'
reply status s (aborted e events) = refused (status e) (record s { published = events })
reply status s crashed = aborted_by_panic

-- A request that changes the row `id`.
unfoldable pub serve_update :
    {E F S Event : Type 0}
    → Database S
    → (TxError E → F)
    → (Sent S Event → Sending E S Event)
    → String
    → Store S Event
    → Served F S Event
serve_update db status handle id s =
    if db.begin_tx
    then reply status s (run_in_transaction db (change_row db handle id s))
    else refused (status database_error) s

-- A request that stores a new row.
unfoldable pub serve_insert :
    {E F S Event : Type 0}
    → Database S
    → (TxError E → F)
    → (Sent S Event → Sending E S Event)
    → S
    → Store S Event
    → Served F S Event
serve_insert db status handle x s =
    if db.begin_tx
    then reply status s (
        run_in_transaction db (
          write_after db (insert_row db) s.rows
            (handle (record { subject = x; published = s.published }))))
    else refused (status database_error) s
