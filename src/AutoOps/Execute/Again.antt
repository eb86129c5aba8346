-- ===== src/AutoOps/Execute/Again.antt =====
-- ExecuteAutoOps of pkg/autoops/api/api.go does not execute a rule again.
use bucketeer.Prelude.{
  ℤ, pos, String, List, true, some, ltb_ℤ, Bool-cases, ◌≡◌, refl, subst, inl, inr,
}
use bucketeer.Publish.{Outlet}
use bucketeer.Transaction.{Store, Database, row}
use bucketeer.AutoOps.Model.{AutoOpsRule, Packings}
use bucketeer.AutoOps.Operations.{already_triggered, set_triggered_at}
use bucketeer.AutoOps.Command.{EventBody}
use bucketeer.AutoOps.Execute.{
  FeatureCall, Features, triggered_before, stopped, executed, already_executed, reply, execute_row,
  commit, execute,
}
use bucketeer.AutoOps.Execute.Once.{Once, execute-Once}

module _ {Any Float Event : Type 0} (db : Database (AutoOpsRule Any)) (features : Features)
    (o : Outlet (EventBody Any Float) Event) (p : Packings Any Float) (now : ℤ) where
  execute_row-triggered :
      (id : String) (s : Store (AutoOpsRule Any) Event) (calls : List FeatureCall)
      (a : AutoOpsRule Any)
      → db.select s.rows id ≡ row a
      → already_triggered a ≡ true
      → execute_row db features o p now id s calls ≡ stopped triggered_before s.published calls
  unfolding execute_row
  execute_row-triggered id s calls a at t = rw (execute_row, at, t) refl

  begun :
      (id : String) (s s' : Store (AutoOpsRule Any) Event) (calls calls' : List FeatureCall)
      → execute db features o p now id s calls ≡ executed s' calls'
      → db.begin_tx ≡ true
  unfolding execute
  begun id s s' calls calls' h = elim (Bool-cases db.begin_tx) [ inl t ↦ t | inr f ↦ cc ]

module _ {Any Float Event : Type 0} (db : Database (AutoOpsRule Any)) (features : Features)
    (o : Outlet (EventBody Any Float) Event) (p : Packings Any Float) where
  -- What is executed successfully at a positive time is not executed again at any time, earlier or
  -- later: where the database reads back a row that was written, the next execution neither
  -- changes, publishes nor requests anything.
  pub execute-executed :
      (now next : ℤ) (id : String) (s s' : Store (AutoOpsRule Any) Event)
      (calls calls' : List FeatureCall)
      → ((a : AutoOpsRule Any) (rows : List (AutoOpsRule Any))
          → db.select s.rows id ≡ row a
          → db.update s.rows (set_triggered_at now a) ≡ some (1, rows)
          → db.select rows id ≡ row (set_triggered_at now a))
      → ltb_ℤ (pos 0) now ≡ true
      → execute db features o p now id s calls ≡ executed s' calls'
      → execute db features o p next id s' calls' ≡ already_executed s' calls'
  unfolding execute commit reply already_triggered set_triggered_at
  execute-executed now next id s s' calls calls' reads positive h =
      let (a, e, c, at, fresh, u, w, k, r) =
        subst (Once db features o p now id s calls) h
          (execute-Once db features o p now id s calls) in
      let again =
        execute_row-triggered db features o p next id s' calls' (set_triggered_at now a)
          (reads a s'.rows at u) positive in
      rw (again, begun db features o p now id s s' calls calls' h) refl
