-- ===== src/Experiment/Lifecycle.antt =====
-- The life cycle that the operations of pkg/experiment/domain/experiment.go allow, under any
-- sequence of commands.
use bucketeer.Prelude.{
  ℤ, String, Bool, true, false, not, ◌||◌, ◌≡◌, refl, sym, ◌∙◌, leb_ℤ, ltb_ℤ, ◌≢◌, subst, Safe,
  Safe-ok, Safe-bind, Safe-map, guard_then, guard_trivial,
}
use bucketeer.Publish.{Outlet, Sent, Leaves, after, send-Leaves, after-Leaves}
use bucketeer.Experiment.Model.{
  Status, waiting, running, stopped, force_stopped, unknown, Experiment, ExperimentError,
}
use bucketeer.Experiment.Operations
use bucketeer.Experiment.Operations.{
  Outcome, max_int64, is_waiting, is_running, new_experiment, validate_period, validate_start_at,
  validate_stop_at,
}
use bucketeer.Experiment.Command
use bucketeer.Experiment.Command.{Command, EventBody, handle, experiment_id}

-- The arrows of the status machine: what one operation may do to the status.
pub data Arrow : Status → Status → Type 0 where
  stay : (s : Status) → Arrow s s
  begin : Arrow waiting running
  expire : Arrow waiting stopped
  end : Arrow running stopped
  force : (s : Status) → Arrow s force_stopped

abbrev pub Follows : Experiment → Experiment → Type 0
Follows e e' = Arrow e.status e'.status

-- An experiment is stopped by force exactly where the flag and the time of the stop say so, and
-- it starts before it stops.
pub record Lawful (e : Experiment) : Type 0 where
  pub flagged : e.stopped ≡ true → e.status ≡ force_stopped
  pub forced : e.status ≡ force_stopped → e.stopped ≡ true
  pub unstopped : e.stopped ≡ false → e.stopped_at ≡ max_int64
  pub ordered : leb_ℤ e.stop_at e.start_at ≡ false

abbrev pub Allowed : Experiment → Experiment → Type 0
Allowed e e' = Follows e e' × (Lawful e → Lawful e')

is_waiting-eq : (s : Status) → is_waiting s ≡ true → s ≡ waiting
unfolding is_waiting
is_waiting-eq waiting h = refl
is_waiting-eq running h = cc
is_waiting-eq stopped h = cc
is_waiting-eq force_stopped h = cc
is_waiting-eq (unknown n) h = cc

-- A status that is neither waiting nor running does not end.
Arrow-stopped : (s : Status) → (is_waiting s || is_running s) ≡ true → Arrow s stopped
unfolding is_waiting is_running
Arrow-stopped waiting h = expire
Arrow-stopped running h = end
Arrow-stopped stopped h = cc
Arrow-stopped force_stopped h = cc
Arrow-stopped (unknown n) h = cc

unforced : (s : Status) → (is_waiting s || is_running s) ≡ true → s ≢ force_stopped
unfolding is_waiting is_running
unforced waiting h e = cc
unforced running h e = cc
unforced stopped h e = cc
unforced force_stopped h e = cc
unforced (unknown n) h e = cc

-- A change of status from one that is not forced to another such keeps the law.
Lawful-unforced :
    (e : Experiment) (s : Status) (now : ℤ)
    → e.status ≢ force_stopped
    → s ≢ force_stopped
    → Lawful e
    → Lawful (record e { status = s; updated_at = now })
Lawful-unforced e s now h k l = record {
  flagged = λ f. absurd (h (l.flagged f));
  forced = λ f. absurd (k f);
  unstopped = l.unstopped;
  ordered = l.ordered;
}

start-Allowed : (now : ℤ) (e : Experiment) → Safe (Allowed e) (Operations.start now e)
unfolding Operations.start
start-Allowed now e = guard_then (Allowed e) (is_waiting e.status) _ _ λ w.
    guard_then (Allowed e) (not (ltb_ℤ now e.start_at)) _ _ λ _.
      let at = is_waiting-eq e.status w in
      (
        subst (λ s. Arrow s running) (sym at) begin,
        Lawful-unforced e running now (λ f. cc) (λ f. cc),
      )

finish-Allowed : (now : ℤ) (e : Experiment) → Safe (Allowed e) (Operations.finish now e)
unfolding Operations.finish
finish-Allowed now e = guard_then (Allowed e) (is_waiting e.status || is_running e.status) _ _ λ w.
    guard_then (Allowed e) (not (ltb_ℤ now e.stop_at)) _ _
      λ _. (Arrow-stopped e.status w, Lawful-unforced e stopped now (unforced e.status w) (λ f. cc))

stop-Allowed : (now : ℤ) (e : Experiment) → Safe (Allowed e) (Operations.stop now e)
unfolding Operations.stop
stop-Allowed now e = guard_then (Allowed e) (not e.stopped) _ _ λ _. (
  force e.status,
  λ l. record { flagged = λ _. refl; forced = λ _. refl; unstopped = λ f. cc; ordered = l.ordered },
)

not-true : (b : Bool) → not b ≡ true → b ≡ false
not-true true h = cc
not-true false h = refl

change_period-Allowed :
    (start_at stop_at now : ℤ) (e : Experiment)
    → Safe (Allowed e) (Operations.change_period start_at stop_at now e)
unfolding Operations.change_period validate_period
change_period-Allowed start_at stop_at now e =
    Safe-bind (λ _. leb_ℤ stop_at start_at ≡ false) (Allowed e) _ _
      (guard_then _ (not (leb_ℤ stop_at start_at)) _ _
        λ w. Safe-map _ _ _ (λ _ _. not-true _ w) (guard_trivial (not (leb_ℤ stop_at now)) _))
      λ _ w. (
        stay e.status,
        λ l. record {
          flagged = l.flagged;
          forced = l.forced;
          unstopped = l.unstopped;
          ordered = w;
        },
      )

change_start_at-Allowed :
    (start_at now : ℤ) (e : Experiment)
    → Safe (Allowed e) (Operations.change_start_at start_at now e)
unfolding Operations.change_start_at validate_start_at
change_start_at-Allowed start_at now e =
    guard_then (Allowed e) (not (leb_ℤ e.stop_at start_at)) _ _ λ w. (
      stay e.status,
      λ l. record {
        flagged = l.flagged;
        forced = l.forced;
        unstopped = l.unstopped;
        ordered = not-true _ w;
      },
    )

change_stop_at-Allowed :
    (stop_at now : ℤ) (e : Experiment) → Safe (Allowed e) (Operations.change_stop_at stop_at now e)
unfolding Operations.change_stop_at validate_stop_at
change_stop_at-Allowed stop_at now e =
    Safe-bind (λ _. leb_ℤ stop_at e.start_at ≡ false) (Allowed e) _ _
      (guard_then _ (not (leb_ℤ stop_at e.start_at)) _ _
        λ w. Safe-map _ _ _ (λ _ _. not-true _ w) (guard_trivial (not (leb_ℤ stop_at now)) _))
      λ _ w. (
        stay e.status,
        λ l. record {
          flagged = l.flagged;
          forced = l.forced;
          unstopped = l.unstopped;
          ordered = w;
        },
      )

-- An operation that leaves the status, the flag and the period alone.
abbrev pub Untouched : Experiment → Experiment → Type 0
Untouched e e' =
    (e'.status ≡ e.status)
    × (e'.stopped ≡ e.stopped)
    × (e'.stopped_at ≡ e.stopped_at)
    × (e'.start_at ≡ e.start_at)
    × (e'.stop_at ≡ e.stop_at)

Untouched-Allowed : (e e' : Experiment) → Untouched e e' → Allowed e e'
Untouched-Allowed e e' (a, b, c, d, f) = (
  subst (λ s. Arrow e.status s) (sym a) (stay e.status),
  λ l. record {
    flagged = λ g. a ∙ l.flagged (sym b ∙ g);
    forced = λ g. b ∙ l.forced (sym a ∙ g);
    unstopped = λ g. c ∙ l.unstopped (sym b ∙ g);
    ordered = rw (d, f) l.ordered;
  },
)

change_name-Allowed :
    (name : String) (now : ℤ) (e : Experiment)
    → Safe (Allowed e) (Operations.change_name name now e)
unfolding Operations.change_name
change_name-Allowed name now e = Untouched-Allowed e _ (refl, refl, refl, refl, refl)

change_description-Allowed :
    (description : String) (now : ℤ) (e : Experiment)
    → Safe (Allowed e) (Operations.change_description description now e)
unfolding Operations.change_description
change_description-Allowed description now e = Untouched-Allowed e _ (refl, refl, refl, refl, refl)

set_archived-Allowed : (now : ℤ) (e : Experiment) → Safe (Allowed e) (Operations.set_archived now e)
unfolding Operations.set_archived
set_archived-Allowed now e = Untouched-Allowed e _ (refl, refl, refl, refl, refl)

set_deleted-Allowed : (now : ℤ) (e : Experiment) → Safe (Allowed e) (Operations.set_deleted now e)
unfolding Operations.set_deleted
set_deleted-Allowed now e = Untouched-Allowed e _ (refl, refl, refl, refl, refl)

module _ {Event : Type 0} (o : Outlet EventBody Event) (now : ℤ) where
  run-Allowed :
      (r : Outcome) (body : Experiment → EventBody) (h : Sent Experiment Event)
      → Safe (Allowed h.subject) r
      → Leaves (Allowed h.subject) (after o r experiment_id body h)
  run-Allowed r body h s =
      after-Leaves o (Allowed h.subject) r experiment_id body h (stay _, λ l. l)
        λ e q. Safe-ok (Allowed h.subject) r e s q

  -- Whatever a command leaves of the experiment, on success or failure, its status follows an
  -- arrow of the status machine, and it is lawful where it was before.
  pub handle-Allowed :
      (c : Command) (h : Sent Experiment Event) → Leaves (Allowed h.subject) (handle o now c h)
  unfolding handle Command.create Command.change_period Command.change_name
      Command.change_description Command.stop Command.start Command.finish Command.archive
      Command.delete
  handle-Allowed Command.create_experiment h =
      send-Leaves ExperimentError o (Allowed h.subject) _ _ h (stay _, λ l. l)
  handle-Allowed (Command.change_experiment_period a b) h =
      run-Allowed _ _ h (change_period-Allowed a b now h.subject)
  handle-Allowed (Command.change_experiment_name n) h =
      run-Allowed _ _ h (change_name-Allowed n now h.subject)
  handle-Allowed (Command.change_experiment_description d) h =
      run-Allowed _ _ h (change_description-Allowed d now h.subject)
  handle-Allowed Command.stop_experiment h = run-Allowed _ _ h (stop-Allowed now h.subject)
  handle-Allowed Command.start_experiment h = run-Allowed _ _ h (start-Allowed now h.subject)
  handle-Allowed Command.finish_experiment h = run-Allowed _ _ h (finish-Allowed now h.subject)
  handle-Allowed Command.archive_experiment h =
      run-Allowed _ _ h (set_archived-Allowed now h.subject)
  handle-Allowed Command.delete_experiment h = run-Allowed _ _ h (set_deleted-Allowed now h.subject)
  handle-Allowed Command.other h = (stay _, λ l. l)
