-- ===== src/Goal/Edits.antt =====
-- What a request of pkg/experiment/api/goal.go that changes a goal stores and publishes.
use bucketeer.Prelude.{
  ℕ, ◌+◌, arith, ℤ, String, List, [], ◌∷◌, ◌++◌, length, true, Option, none, some, ◌≡◌, refl, ap,
  sym, subst, ◌∙◌, Result, ok, err, panic,
}
use mathlib.Core.List.{append_assoc, append-nil}
use bucketeer.Publish.{Sent, Sending, Outlet, done, failed, panicked, send_ind, after}
use bucketeer.Transaction.{Store, Database, row}
use bucketeer.Transaction.Laws.{Changed, Atomic, serve_update-Atomic}
use bucketeer.Transaction.Kept.{Atomic-map}
use bucketeer.Experiment.Api.{ApiError, Caller, checked, and_then}
use bucketeer.Goal.{
  Goal, rename, change_description, set_archived, set_deleted, Command, create_goal, rename_goal,
  change_description_goal, archive_goal, delete_goal, other, EventBody, handle, create,
  handle_rename, handle_description, archive, delete,
}
use bucketeer.Goal.Requests.{
  handle_all, update_status, update_goal, checked_update, update_goal_request, commands_of,
}

-- What a command makes of a goal.
abbrev pub edit : (now : ℤ) → Command → Goal → Goal
edit now create_goal g = g
edit now (rename_goal name) g = record g { name = name; updated_at = now }
edit now (change_description_goal text) g = record g { description = text; updated_at = now }
edit now archive_goal g = record g { archived = true; updated_at = now }
edit now delete_goal g = record g { deleted = true; updated_at = now }
edit now other g = g

abbrev pub edit_all : (now : ℤ) → List Command → Goal → Goal
edit_all now [] g = g
edit_all now (c ∷ cs) g = edit_all now cs (edit now c g)

-- Success leaves `g`, with one more event for each command.
abbrev pub Leads : {Event : Type 0} → List Event → List Command → Goal → Sent Goal Event → Type 0
Leads {Event} before cs g h =
    (h.subject ≡ g)
    × (events : List Event) × (h.published ≡ before ++ events)
    × (length events ≡ length cs)

abbrev OnSuccess : {E S Event : Type 0} → (Sent S Event → Type 0) → Sending E S Event → Type 0
OnSuccess P (done h) = P h
OnSuccess P (failed e h) = Unit
OnSuccess P panicked = Unit

OnSuccess-done :
    {E S Event : Type 0} (P : Sent S Event → Type 0) (r : Sending E S Event) (h : Sent S Event)
    → OnSuccess P r
    → r ≡ done h
    → P h
OnSuccess-done P (done h') h p e = subst P (cc) p
OnSuccess-done P (failed x h') h p e = cc
OnSuccess-done P panicked h p e = cc

length-append : {A : Type 0} (xs ys : List A) → length (xs ++ ys) ≡ length xs + length ys
length-append [] ys = omega arith
length-append (x ∷ xs) ys = let rest = length-append xs ys in omega arith

module _ {Event : Type 0} (o : Outlet EventBody Event) (now : ℤ) where
  handle-Leads :
      (c : Command) (h : Sent Goal Event)
      → OnSuccess (Leads h.published (c ∷ []) (edit now c h.subject)) (handle o now c h)
  unfolding handle create handle_rename handle_description archive delete rename change_description
      set_archived set_deleted after
  handle-Leads create_goal h =
      send_ind o (OnSuccess _) _ _ h (λ e. (refl, e ∷ [], refl, refl)) tt tt
  handle-Leads (rename_goal name) h =
      send_ind o (OnSuccess _) _ _ _ (λ e. (refl, e ∷ [], refl, refl)) tt tt
  handle-Leads (change_description_goal text) h =
      send_ind o (OnSuccess _) _ _ _ (λ e. (refl, e ∷ [], refl, refl)) tt tt
  handle-Leads archive_goal h =
      send_ind o (OnSuccess _) _ _ _ (λ e. (refl, e ∷ [], refl, refl)) tt tt
  handle-Leads delete_goal h =
      send_ind o (OnSuccess _) _ _ _ (λ e. (refl, e ∷ [], refl, refl)) tt tt
  handle-Leads other h = tt

  -- The events of the first command stand before those of the others.
  Leads-append :
      (c : Command) (cs : List Command) (before : List Event) (g : Goal) (h h' : Sent Goal Event)
      → Leads before (c ∷ []) (edit now c g) h
      → Leads h.published cs (edit_all now cs h.subject) h'
      → Leads before (c ∷ cs) (edit_all now (c ∷ cs) g) h'
  Leads-append c cs before g h h' (s, es, p, n) (s', es', p', n') = (
    s' ∙ ap (edit_all now cs) s,
    es ++ es',
    p' ∙ ap (λ xs. xs ++ es') p ∙ append_assoc before es es',
    (let l = length-append es es' in omega arith),
  )

  and_then-Leads :
      (c : Command) (cs : List Command) (before : List Event) (g : Goal) (r : Sending ⊥ Goal Event)
      (k : Sent Goal Event → Sending ⊥ Goal Event)
      → OnSuccess (Leads before (c ∷ []) (edit now c g)) r
      → ((h : Sent Goal Event) → OnSuccess (Leads h.published cs (edit_all now cs h.subject)) (k h))
      → OnSuccess (Leads before (c ∷ cs) (edit_all now (c ∷ cs) g)) (and_then r k)
  unfolding and_then
  and_then-Leads c cs before g (done h) k p q = by_rest (k h) (q h)
    where
      by_rest :
          (r : Sending ⊥ Goal Event)
          → OnSuccess (Leads h.published cs (edit_all now cs h.subject)) r
          → OnSuccess (Leads before (c ∷ cs) (edit_all now (c ∷ cs) g)) r
      by_rest (done h') l = Leads-append c cs before g h h' p l
      by_rest (failed e h') l = tt
      by_rest panicked l = tt
  and_then-Leads c cs before g (failed e h) k p q = tt
  and_then-Leads c cs before g panicked k p q = tt

  handle_all-Leads :
      (cs : List Command) (h : Sent Goal Event)
      → OnSuccess (Leads h.published cs (edit_all now cs h.subject)) (handle_all o now cs h)
  unfolding handle_all
  handle_all-Leads [] h = (refl, [], sym (append-nil h.published), refl)
  handle_all-Leads (c ∷ cs) h =
      and_then-Leads c cs h.published h.subject (handle o now c h) (handle_all o now cs)
        (handle-Leads c h) (handle_all-Leads cs)

module _ {Event : Type 0} (db : Database Goal) (o : Outlet EventBody Event) (caller : Caller)
    (now : ℤ) where
  -- One goal was read, edited by the commands in turn and written back alone, and one event was
  -- published for each command.
  abbrev pub Edited : List Command → (id : String) → Store Goal Event → Store Goal Event → Type 0
  Edited cs id s s' =
      (g : Goal) × (events : List Event) × (db.select s.rows id ≡ row g)
      × (db.update s.rows (edit_all now cs g) ≡ some (1, s'.rows))
      × (s'.published ≡ s.published ++ events)
      × (length events ≡ length cs)

  update_goal-Edited :
      (cs : List Command) (id : String) (s : Store Goal Event)
      → Atomic (Edited cs id s) s (update_goal db o caller now cs id s)
  unfolding update_goal
  update_goal-Edited cs id s =
      Atomic-map (Changed db (handle_all o now cs) id s) (Edited cs id s) s _
        (λ s' (x, h, at, e, u, p).
          let (sub, events, pub_, n) =
            OnSuccess-done (Leads s.published cs (edit_all now cs x)) _ h
              (handle_all-Leads o now cs (record { subject = x; published = s.published })) e in
          (x, events, at, ap (db.update s.rows) (sym sub) ∙ u, p ∙ pub_, n))
        (serve_update-Atomic db update_status (handle_all o now cs) id s)

  -- The goal with the name and the description that are given, where any is given.
  abbrev pub renamed : (name description : Option String) → Goal → Goal
  renamed none none g = g
  renamed (some name) none g = record g { name = name; updated_at = now }
  renamed none (some text) g = record g { description = text; updated_at = now }
  renamed (some name) (some text) g = record g { name = name; description = text; updated_at = now }

  abbrev pub count : Option String → ℕ
  count none = 0
  count (some x) = 1

  -- One goal was read, given the name and the description, and written back alone; each of the two
  -- that is given published one event.
  abbrev pub Updated :
      (id : String) → (name description : Option String) → (s s' : Store Goal Event) → Type 0
  Updated id name description s s' =
      (g : Goal) × (events : List Event) × (db.select s.rows id ≡ row g)
      × (db.update s.rows (renamed name description g) ≡ some (1, s'.rows))
      × (s'.published ≡ s.published ++ events)
      × (length events ≡ count name + count description)

  commands_of-Updated :
      (id : String) (name description : Option String) (s s' : Store Goal Event)
      → Edited (commands_of name description) id s s'
      → Updated id name description s s'
  unfolding commands_of
  commands_of-Updated id none none s s' h = h
  commands_of-Updated id (some name) none s s' h = h
  commands_of-Updated id none (some text) s s' h = h
  commands_of-Updated id (some name) (some text) s s' h = h

  checked-Edited :
      (r : Result ApiError (Unit {0})) (cs : List Command) (id : String) (s : Store Goal Event)
      → Atomic (Edited cs id s) s (checked r (λ _. update_goal db o caller now cs id) s)
  unfolding checked
  checked-Edited (ok a) cs id s = update_goal-Edited cs id s
  checked-Edited (err e) cs id s = refl
  checked-Edited panic cs id s = tt

  -- A request to rename a goal or to change its description that succeeds has read the goal of its
  -- id, written it back alone with both texts that were given, and published one event for each of
  -- them; a request that is refused leaves the rows as they were.
  pub update_goal_request-Updated :
      (id : String) (name description : Option String) (s : Store Goal Event)
      → Atomic
          (Updated id name description s)
          s
          (update_goal_request db o caller now id name description s)
  unfolding update_goal_request checked_update
  update_goal_request-Updated id name description s =
      Atomic-map (Edited (commands_of name description) id s) (Updated id name description s) s _
        (commands_of-Updated id name description s)
        (checked-Edited _ (commands_of name description) id s)
