-- ===== src/Transaction/Kept.antt =====
-- A property of every row that a transaction keeps.
use bucketeer.Prelude.{String, ◌≡◌, All}
use bucketeer.Publish.{Sent, Sending, done}
use bucketeer.Transaction.{
  Store, Database, TxError, Served, served, refused, aborted_by_panic, serve_update, serve_insert,
}
use bucketeer.Transaction.Laws.{
  DatabaseLaws, Changed, Added, Atomic, serve_update-Atomic, serve_insert-Atomic,
}

pub Atomic-map :
    {F S Event : Type 0} (P Q : Store S Event → Type 0) (s : Store S Event) (r : Served F S Event)
    → ((s' : Store S Event) → P s' → Q s')
    → Atomic P s r
    → Atomic Q s r
Atomic-map P Q s (served s') f h = f s' h
Atomic-map P Q s (refused e s') f h = h
Atomic-map P Q s aborted_by_panic f h = tt

abbrev pub AllRows : {S Event : Type 0} → (S → Type 0) → Store S Event → Type 0
AllRows P s = All P s.rows

module _ {E F S Event : Type 0} (db : Database S) (laws : DatabaseLaws db) (status : TxError E → F)
    (P : S → Type 0) where
  pub serve_update-AllRows :
      (handle : Sent S Event → Sending E S Event) (id : String) (s : Store S Event)
      → ((b h : Sent S Event) → P b.subject → handle b ≡ done h → P h.subject)
      → AllRows P s
      → Atomic (AllRows P) s (serve_update db status handle id s)
  serve_update-AllRows handle id s keep all =
      Atomic-map (Changed db handle id s) (AllRows P) s (serve_update db status handle id s)
        (λ s' (x, h, at, e, u, _).
          laws.update_known P s.rows s'.rows h.subject u all
            (keep _ h (laws.select_known P s.rows id x at all) e))
        (serve_update-Atomic db status handle id s)

  pub serve_insert-AllRows :
      (handle : Sent S Event → Sending E S Event) (x : S) (s : Store S Event)
      → ((b h : Sent S Event) → P b.subject → handle b ≡ done h → P h.subject)
      → P x
      → AllRows P s
      → Atomic (AllRows P) s (serve_insert db status handle x s)
  serve_insert-AllRows handle x s keep p all =
      Atomic-map (Added db handle x s) (AllRows P) s (serve_insert db status handle x s)
        (λ s' (h, e, u, _). laws.insert_known P s.rows s'.rows h.subject u all (keep _ h p e))
        (serve_insert-Atomic db status handle x s)
