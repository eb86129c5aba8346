-- ===== src/AutoOps/Execute/Once.antt =====
-- ExecuteAutoOps of pkg/autoops/api/api.go executes a rule once.
use bucketeer.Prelude.{
  ℕ, arith, ℤ, String, List, [], ◌∷◌, ◌++◌, true, false, Option, none, some, eqb, if◌then◌else◌,
  if_ind, ◌≡◌, refl, ap, sym, ◌∙◌, ◌⊎◌, inl, inr,
}
use bucketeer.Publish.{Sent, Outlet, send_ind}
use bucketeer.Transaction.{
  Store, Database, Selected, row, no_rows, select_error, TxError, finished, aborted,
  unexpected_affected_rows, database_error, update_row,
}
use bucketeer.AutoOps.Model.{OpsType, AutoOpsRule, Packings}
use bucketeer.AutoOps.Operations.{already_triggered, set_triggered_at}
use bucketeer.AutoOps.Command.{Command, EventBody, handle, tell, change_triggered_at}
use bucketeer.AutoOps.Execute.{
  FeatureCall, enable, disable, FeatureFault, failed_precondition, other_code, operation_error,
  Features, triggered_before, unknown_ops_type, operation_failed, transaction, Outcome, completed,
  stopped, crash, Executed, executed, already_executed, refused, aborted_by_panic, operate,
  execute_operation, after_operation, reply, after_write, after_handle, execute_row, commit,
  execute,
}

-- The request that the operation of a rule makes.
abbrev pub call_of : OpsType → String → Option FeatureCall
call_of OpsType.enable_feature id = some (enable id)
call_of OpsType.disable_feature id = some (disable id)
call_of (OpsType.unknown n) id = none

-- At most one request was made.
abbrev pub AtMostOne : List FeatureCall → List FeatureCall → Type 0
AtMostOne calls calls' = (calls' ≡ calls) ⊎ (c : FeatureCall) × (calls' ≡ calls ++ c ∷ [])

module _ {Any Float Event : Type 0} (db : Database (AutoOpsRule Any)) (features : Features)
    (o : Outlet (EventBody Any Float) Event) (p : Packings Any Float) (now : ℤ) where
  -- A rule that was not triggered was read, and written back as triggered at `now`; one event and
  -- the one request of its type of operation were made.
  abbrev pub Ran :
      (id : String)
      → (s s' : Store (AutoOpsRule Any) Event) → (calls calls' : List FeatureCall) → Type 0
  Ran id s s' calls calls' =
      (a : AutoOpsRule Any) × (e : Event) × (c : FeatureCall) × (db.select s.rows id ≡ row a)
      × (already_triggered a ≡ false)
      × (db.update s.rows (set_triggered_at now a) ≡ some (1, s'.rows))
      × (s'.published ≡ s.published ++ e ∷ [])
      × (call_of a.ops_type a.feature_id ≡ some c)
      × (calls' ≡ calls ++ c ∷ [])

  -- The rule that was read is triggered, and nothing was changed or requested.
  abbrev pub Passed :
      (id : String)
      → (s : Store (AutoOpsRule Any) Event) → List Event
      → (calls calls' : List FeatureCall) → Type 0
  Passed id s events calls calls' =
      (a : AutoOpsRule Any) × (db.select s.rows id ≡ row a)
      × (already_triggered a ≡ true)
      × (events ≡ s.published)
      × (calls' ≡ calls)

  abbrev OnOutcome :
      (id : String)
      → Store (AutoOpsRule Any) Event
      → List FeatureCall
      → Outcome (AutoOpsRule Any) Event
      → Type 0
  OnOutcome id s calls (completed s' calls') = Ran id s s' calls calls'
  OnOutcome id s calls (stopped triggered_before events calls') = Passed id s events calls calls'
  OnOutcome id s calls (stopped unknown_ops_type events calls') = AtMostOne calls calls'
  OnOutcome id s calls (stopped operation_failed events calls') = AtMostOne calls calls'
  OnOutcome id s calls (stopped (transaction e) events calls') = AtMostOne calls calls'
  OnOutcome id s calls crash = ⊥

  -- Success, a rule that is triggered already, and a refusal, which leaves the rows as they were.
  abbrev pub Once :
      (id : String)
      → Store (AutoOpsRule Any) Event
      → List FeatureCall
      → Executed (AutoOpsRule Any) Event
      → Type 0
  Once id s calls (executed s' calls') = Ran id s s' calls calls'
  Once id s calls (already_executed s' calls') =
      (s'.rows ≡ s.rows) × Passed id s s'.published calls calls'
  Once id s calls (refused e s' calls') = (s'.rows ≡ s.rows) × AtMostOne calls calls'
  Once id s calls aborted_by_panic = ⊥

  module _ (id : String) (s : Store (AutoOpsRule Any) Event) (calls : List FeatureCall)
      (a : AutoOpsRule Any) (at : db.select s.rows id ≡ row a)
      (fresh : already_triggered a ≡ false) where
    -- The row was written as triggered, and one event was published.
    abbrev Written : Event → Store (AutoOpsRule Any) Event → Type 0
    Written e s' =
        (db.update s.rows (set_triggered_at now a) ≡ some (1, s'.rows))
        × (s'.published ≡ s.published ++ e ∷ [])

    operate-OnOutcome :
        (e : Event) (s' : Store (AutoOpsRule Any) Event) (c : FeatureCall)
        → Written e s'
        → call_of a.ops_type a.feature_id ≡ some c
        → OnOutcome id s calls (after_operation s' (operate features c calls))
    unfolding after_operation operate operation_error
    operate-OnOutcome e s' c (u, w) t = by_answer (features.answer calls c)
      where
        ran : Ran id s s' calls (calls ++ c ∷ [])
        ran = (a, e, c, at, fresh, u, w, t, refl)

        by_answer :
            (m : Option FeatureFault)
            → OnOutcome id s calls
                (after_operation s' (record { error = operation_error m; calls = calls ++ c ∷ [] }))
        by_answer none = ran
        by_answer (some failed_precondition) = ran
        by_answer (some other_code) = inr (c, refl)

    operation-OnOutcome :
        (e : Event) (s' : Store (AutoOpsRule Any) Event) (type : OpsType)
        → Written e s'
        → type ≡ a.ops_type
        → OnOutcome id s calls
            (after_operation s' (execute_operation features type a.feature_id calls))
    unfolding execute_operation after_operation
    operation-OnOutcome e s' OpsType.enable_feature w t =
        operate-OnOutcome e s' (enable a.feature_id) w (ap (λ u. call_of u a.feature_id) (sym t))
    operation-OnOutcome e s' OpsType.disable_feature w t =
        operate-OnOutcome e s' (disable a.feature_id) w (ap (λ u. call_of u a.feature_id) (sym t))
    operation-OnOutcome e s' (OpsType.unknown n) w t = inl refl

    -- The rule after its handler.
    abbrev marked : Event → Sent (AutoOpsRule Any) Event
    marked e = record { subject = set_triggered_at now a; published = s.published ++ e ∷ [] }

    write-OnOutcome :
        (e : Event)
        → OnOutcome id s calls (
            after_write db features o p now
              (set_triggered_at now a)
              (update_row db s.rows (marked e))
              calls)
    unfolding update_row after_write set_triggered_at
    write-OnOutcome e = by_answer (db.update s.rows (set_triggered_at now a)) refl
      where
        by_answer :
            (m : Option (ℕ × List (AutoOpsRule Any)))
            → db.update s.rows (set_triggered_at now a) ≡ m
            → OnOutcome id s calls (
                after_write db features o p now
                  (set_triggered_at now a)
                  (elim m [
                    | none ↦ aborted database_error (marked e).published
                    | some (affected, rows') ↦
                        if eqb affected 1
                        then finished (record { rows = rows'; published = (marked e).published })
                        else aborted unexpected_affected_rows (marked e).published
                  ])
                  calls)
        by_answer none u = inl refl
        by_answer (some (n, rows')) u =
            if_ind
              (λ r.
                OnOutcome id s calls
                  (after_write db features o p now (set_triggered_at now a) r calls))
              (eqb n 1)
              (λ one.
                let n1 : n ≡ 1 = ground arith in
                operation-OnOutcome e (record { rows = rows'; published = (marked e).published })
                  a.ops_type (u ∙ (rw n1 refl), refl) refl)
              (λ _. inl refl)

    handle-OnOutcome : OnOutcome id s calls (
        after_handle db features o p now s.rows
          (handle o p none now Command.mark_triggered
            (record { subject = a; published = s.published }))
          calls)
    unfolding handle change_triggered_at tell after_handle
    handle-OnOutcome =
        send_ind o (λ r. OnOutcome id s calls (after_handle db features o p now s.rows r calls)) _ _
          _ write-OnOutcome (inl refl) (inl refl)

  execute_row-OnOutcome :
      (id : String) (s : Store (AutoOpsRule Any) Event) (calls : List FeatureCall)
      → OnOutcome id s calls (execute_row db features o p now id s calls)
  unfolding execute_row
  execute_row-OnOutcome id s calls = by_row (db.select s.rows id) refl
    where
      by_row :
          (m : Selected (AutoOpsRule Any))
          → db.select s.rows id ≡ m
          → OnOutcome id s calls (elim m [
            | no_rows ↦ stopped (transaction TxError.not_found) s.published calls
            | select_error ↦ stopped (transaction TxError.database_error) s.published calls
            | row a ↦
                if already_triggered a
                then stopped triggered_before s.published calls
                else after_handle db features o p now s.rows
                    (handle o p none now Command.mark_triggered
                      (record { subject = a; published = s.published }))
                    calls
          ])
      by_row no_rows e = inl refl
      by_row select_error e = inl refl
      by_row (row a) e =
          if_ind (OnOutcome id s calls) (already_triggered a) (λ t. (a, e, t, refl, refl))
            (handle-OnOutcome id s calls a e)

  Ran-AtMostOne :
      (id : String) (s s' : Store (AutoOpsRule Any) Event) (calls calls' : List FeatureCall)
      → Ran id s s' calls calls'
      → AtMostOne calls calls'
  Ran-AtMostOne id s s' calls calls' (a, e, c, at, fresh, u, w, t, r) = inr (c, r)

  commit-OnOutcome :
      (id : String) (s : Store (AutoOpsRule Any) Event) (calls : List FeatureCall)
      (r : Outcome (AutoOpsRule Any) Event)
      → OnOutcome id s calls r
      → OnOutcome id s calls (commit db features o p now r)
  unfolding commit
  commit-OnOutcome id s calls (completed s' calls') h =
      if_ind (OnOutcome id s calls) db.commit (λ _. h) (λ _. Ran-AtMostOne id s s' calls calls' h)
  commit-OnOutcome id s calls (stopped e events calls') h = h
  commit-OnOutcome id s calls crash h = h

  reply-Once :
      (id : String) (s : Store (AutoOpsRule Any) Event) (calls : List FeatureCall)
      (r : Outcome (AutoOpsRule Any) Event)
      → OnOutcome id s calls r
      → Once id s calls (reply s r)
  unfolding reply
  reply-Once id s calls (completed s' calls') h = h
  reply-Once id s calls (stopped triggered_before events calls') h = (refl, h)
  reply-Once id s calls (stopped unknown_ops_type events calls') h = (refl, h)
  reply-Once id s calls (stopped operation_failed events calls') h = (refl, h)
  reply-Once id s calls (stopped (transaction e) events calls') h = (refl, h)
  reply-Once id s calls crash h = h

  -- A rule is executed by one transaction that never panics. On success a rule that was not
  -- triggered was marked as triggered, with one event and the one request of its type of operation;
  -- where the rule is triggered already nothing is changed, published or requested; a refusal leaves
  -- the rows as they were, and has made at most one request.
  pub execute-Once :
      (id : String) (s : Store (AutoOpsRule Any) Event) (calls : List FeatureCall)
      → Once id s calls (execute db features o p now id s calls)
  unfolding execute
  execute-Once id s calls =
      if_ind (Once id s calls) db.begin_tx
        (λ _.
          reply-Once id s calls _
            (commit-OnOutcome id s calls _ (execute_row-OnOutcome id s calls)))
        (λ _. (refl, inl refl))
