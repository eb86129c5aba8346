-- ===== src/Experiment/Updater/Due.antt =====
-- The job makes the calls that are due, and no others:
-- pkg/experiment/batch/job/experiment_status_updater.go.
use bucketeer.Prelude.{
  none-some, ℕ, ◌<◌, arith, ℤ, String, List, [], ◌∷◌, ◌++◌, Bool, true, false, inl, inr, ◌≡◌, none,
  Option-cases, refl, sym, ap, subst, ◌∙◌, ltb_ℤ, length, if◌then◌else◌, ok, err,
}
use mathlib.Core.List.{append_assoc, append-nil}
use bucketeer.Experiment.Model.{
  Status, waiting, running, stopped, force_stopped, unknown, Experiment, before_start, before_stop,
}
use bucketeer.Experiment.Operations
use bucketeer.Experiment.Operations.{Outcome, is_waiting, is_running}
use bucketeer.Experiment.Updater.{
  Call, start_experiment, finish_experiment, Clients, Progress, list_request_size,
  list_environments, list_experiments, make_call, after_start, after_finish, update_to_running,
  update_to_stopped, update_status, update_all, listed, listing_error, run_environment,
  run_environments, run_listed, run,
}
use bucketeer.Experiment.Updater.Paging.{Paged, list_from-enough}

-- What is due of an experiment at a time: a start where it waits and its start has come, a finish
-- where it runs and its stop has come.
abbrev pub due_at : String → Experiment → ℤ → Status → List Call
due_at ns e now waiting = if ltb_ℤ now e.start_at then [] else start_experiment ns e.id ∷ []
due_at ns e now running = if ltb_ℤ now e.stop_at then [] else finish_experiment ns e.id ∷ []
due_at ns e now stopped = []
due_at ns e now force_stopped = []
due_at ns e now (unknown n) = []

module _ (now : ℤ) (e : Experiment) where
  start-late :
      e.status ≡ waiting → ltb_ℤ now e.start_at ≡ true → Operations.start now e ≡ err before_start
  unfolding Operations.start is_waiting
  start-late h t = rw (h, t)

  start-due :
      e.status ≡ waiting
      → ltb_ℤ now e.start_at ≡ false
      → (x : Experiment) × (Operations.start now e ≡ ok x)
  unfolding Operations.start is_waiting
  start-due h t = (record e { status = running; updated_at = now }, rw (h, t))

  finish-late :
      e.status ≡ running → ltb_ℤ now e.stop_at ≡ true → Operations.finish now e ≡ err before_stop
  unfolding Operations.finish is_waiting is_running
  finish-late h t = rw (h, t)

  finish-due :
      e.status ≡ running
      → ltb_ℤ now e.stop_at ≡ false
      → (x : Experiment) × (Operations.finish now e ≡ ok x)
  unfolding Operations.finish is_waiting is_running
  finish-due h t = (record e { status = stopped; updated_at = now }, rw (h, t))

module _ {E : Type 0} (clients : Clients E) where
  abbrev pub due : String → Experiment → List Call
  due ns e = due_at ns e (clients.clock ns e) e.status

  abbrev pub all_due : String → List Experiment → List Call
  all_due ns [] = []
  all_due ns (e ∷ es) = due ns e ++ all_due ns es

  -- The calls of every environment: of its waiting experiments, and then of its running ones.
  abbrev pub calls_due : (String → Status → List Experiment) → List String → List Call
  calls_due experiments [] = []
  calls_due experiments (ns ∷ nss) =
      all_due ns (experiments ns waiting ++ experiments ns running) ++ calls_due experiments nss

  -- No call is answered with an error.
  abbrev pub Quiet : Type 0
  Quiet = (cs : List Call) (c : Call) → clients.answer cs c ≡ none

  -- `p'` has made the calls `cs` after `p`, and none went wrong that was not answered so.
  abbrev pub Made : Progress E → List Call → Progress E → Type 0
  Made p cs p' = (p'.calls ≡ p.calls ++ cs) × (Quiet → p.last_error ≡ none → p'.last_error ≡ none)

  Made-nothing : (p : Progress E) → Made p [] p
  Made-nothing p = (sym (append-nil p.calls), λ _ h. h)

  Made-trans :
      (p q r : Progress E) (xs ys : List Call) → Made p xs q → Made q ys r → Made p (xs ++ ys) r
  Made-trans p q r xs ys (a, f) (b, g) =
      (b ∙ ap (λ zs. zs ++ ys) a ∙ append_assoc p.calls xs ys, λ quiet h. g quiet (f quiet h))

  module _ (fuel : ℕ) where
    make_call-Made : (c : Call) (p : Progress E) → Made p (c ∷ []) (make_call clients fuel c p)
    unfolding make_call
    make_call-Made c p = elim (Option-cases (clients.answer p.calls c)) [
      | inl e ↦ rw (make_call, e) (refl, λ _ h. h)
      | inr (x, e) ↦
          rw (make_call, e) (refl, λ quiet _. absurd (none-some (sym (quiet p.calls c) ∙ e)))
    ]

    after_start-Made :
        (late : Bool) (r : Outcome) (c : Call) (p : Progress E)
        → (late ≡ true → r ≡ err before_start)
        → (late ≡ false → (x : Experiment) × (r ≡ ok x))
        → Made p (if late then [] else c ∷ []) (after_start clients fuel r c p)
    unfolding after_start
    after_start-Made true r c p f g = rw (f refl) (Made-nothing p)
    after_start-Made false r c p f g = let (x, e) = g refl in rw e (make_call-Made c p)

    after_finish-Made :
        (late : Bool) (r : Outcome) (c : Call) (p : Progress E)
        → (late ≡ true → r ≡ err before_stop)
        → (late ≡ false → (x : Experiment) × (r ≡ ok x))
        → Made p (if late then [] else c ∷ []) (after_finish clients fuel r c p)
    unfolding after_finish
    after_finish-Made true r c p f g = rw (f refl) (Made-nothing p)
    after_finish-Made false r c p f g = let (x, e) = g refl in rw e (make_call-Made c p)

    update_status-waiting :
        (ns : String) (e : Experiment) (p : Progress E)
        → is_waiting e.status ≡ true
        → update_status clients fuel ns e p ≡ update_to_running clients fuel ns e p
    unfolding update_status
    update_status-waiting ns e p w = rw w

    update_status-running :
        (ns : String) (e : Experiment) (p : Progress E)
        → is_waiting e.status ≡ false
        → is_running e.status ≡ true
        → update_status clients fuel ns e p ≡ update_to_stopped clients fuel ns e p
    unfolding update_status
    update_status-running ns e p w r = rw (w, r)

    update_status-other :
        (ns : String) (e : Experiment) (p : Progress E)
        → is_waiting e.status ≡ false
        → is_running e.status ≡ false
        → update_status clients fuel ns e p ≡ p
    unfolding update_status
    update_status-other ns e p w r = rw (w, r)

    update_status-Made :
        (ns : String) (e : Experiment) (p : Progress E)
        → Made p (due ns e) (update_status clients fuel ns e p)
    unfolding update_to_running update_to_stopped is_waiting is_running
    update_status-Made ns e p = by_status e.status refl
      where
        now : ℤ
        now = clients.clock ns e

        idle :
            is_waiting e.status ≡ false
            → is_running e.status ≡ false
            → Made p [] (update_status clients fuel ns e p)
        idle w r = subst (Made p []) (sym (update_status-other ns e p w r)) (Made-nothing p)

        by_status :
            (s : Status)
            → e.status ≡ s
            → Made p (due_at ns e now s) (update_status clients fuel ns e p)
        by_status waiting h =
            subst (Made p (due_at ns e now waiting))
              (sym (update_status-waiting ns e p (ap is_waiting h)))
              (after_start-Made (ltb_ℤ now e.start_at) (Operations.start now e)
                (start_experiment ns e.id) p (start-late now e h) (start-due now e h))
        by_status running h =
            subst (Made p (due_at ns e now running))
              (sym (update_status-running ns e p (ap is_waiting h) (ap is_running h)))
              (after_finish-Made (ltb_ℤ now e.stop_at) (Operations.finish now e)
                (finish_experiment ns e.id) p (finish-late now e h) (finish-due now e h))
        by_status stopped h = idle (ap is_waiting h) (ap is_running h)
        by_status force_stopped h = idle (ap is_waiting h) (ap is_running h)
        by_status (unknown n) h = idle (ap is_waiting h) (ap is_running h)

    update_all-Made :
        (ns : String) (es : List Experiment) (p : Progress E)
        → Made p (all_due ns es) (update_all clients fuel ns es p)
    unfolding update_all
    update_all-Made ns [] p = Made-nothing p
    update_all-Made ns (e ∷ es) p =
        Made-trans p (update_status clients fuel ns e p) _ (due ns e) (all_due ns es)
          (update_status-Made ns e p) (update_all-Made ns es (update_status clients fuel ns e p))

  module _ (fuel : ℕ) (experiments : String → Status → List Experiment) (cursor_at : ℕ → String)
      (paged : (ns : String) (s : Status)
        → Paged list_request_size (clients.list_experiments ns s) cursor_at (experiments ns s))
      (enough : (ns : String) (s : Status) → length (experiments ns s) < fuel) where
    list_experiments-all :
        (ns : String) (s : Status) → list_experiments clients fuel ns s ≡ ok (experiments ns s)
    unfolding list_experiments
    list_experiments-all ns s =
        list_from-enough list_request_size (omega arith) _ cursor_at _ (paged ns s) fuel
          (enough ns s)

    run_environment-Made :
        (ns : String) (p : Progress E)
        → Made p
            (all_due ns (experiments ns waiting ++ experiments ns running))
            (run_environment clients fuel ns p)
    unfolding run_environment listed listing_error
    run_environment-Made ns p =
        rw (list_experiments-all ns waiting, list_experiments-all ns running)
          (update_all-Made fuel ns (experiments ns waiting ++ experiments ns running) p)

    run_environments-Made :
        (nss : List String) (p : Progress E)
        → Made p (calls_due experiments nss) (run_environments clients fuel nss p)
    unfolding run_environments
    run_environments-Made [] p = Made-nothing p
    run_environments-Made (ns ∷ nss) p =
        Made-trans p (run_environment clients fuel ns p) _
          (all_due ns (experiments ns waiting ++ experiments ns running))
          (calls_due experiments nss) (run_environment-Made ns p)
          (run_environments-Made nss (run_environment clients fuel ns p))

    -- One run of the job, where the services list all environments and experiments by pages: the
    -- calls made are those that are due, environment by environment, each experiment once, whatever
    -- errors the calls are answered with. Where none is, the job ends without an error.
    pub run-Made :
        (nss : List String)
        → Paged list_request_size clients.list_environments cursor_at nss
        → length nss < fuel
        → ((run clients fuel).calls ≡ calls_due experiments nss)
          × (Quiet → (run clients fuel).last_error ≡ none)
    unfolding run run_listed list_environments
    run-Made nss envs h =
        rw (list_from-enough list_request_size (omega arith) _ cursor_at nss envs fuel h) (
          let (a, b) = run_environments-Made nss (record { calls = []; last_error = none }) in
          (a, λ quiet. b quiet refl))
