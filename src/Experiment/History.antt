-- ===== src/Experiment/History.antt =====
-- What holds of an experiment after any sequence of commands that succeed: a request stores the
-- experiment only then (pkg/experiment/api/experiment.go).
use bucketeer.Prelude.{
  ℤ, ℕ, ◌≤◌, arith, String, List, false, Option, none, some, ◌≡◌, refl, subst, leb_ℤ, ok, Holds,
  Holds-ok,
}
use bucketeer.Feature.Model.{Variation}
use bucketeer.Publish.{Outlet, Sent, done, Leaves}
use bucketeer.Experiment.Model.{
  Status, waiting, running, stopped, force_stopped, unknown, Experiment,
}
use bucketeer.Experiment.Operations.{new_experiment}
use bucketeer.Experiment.Command.{Command, EventBody, handle}
use bucketeer.Experiment.Lifecycle.{
  Arrow, stay, begin, expire, end, force, Lawful, Allowed, handle-Allowed,
}

pub new_experiment-Lawful :
    (new_id : Option String) (feature_id : String) (version : ℤ) (variations : List Variation)
    (goal_ids : List String) (a b : ℤ) (name description base maintainer : String) (now : ℤ)
    → leb_ℤ b a ≡ false
    → Holds Lawful (
        new_experiment new_id feature_id version variations goal_ids a b name description base
          maintainer now)
unfolding new_experiment
new_experiment-Lawful none f v vs gs a b n d base m now h = tt
new_experiment-Lawful (some id) f v vs gs a b n d base m now h = record {
  flagged = λ e. cc;
  forced = λ e. cc;
  unstopped = λ _. refl;
  ordered = h;
}

-- A later status never has a smaller rank.
abbrev pub rank : Status → ℕ
rank waiting = 0
rank running = 1
rank stopped = 2
rank force_stopped = 3
rank (unknown n) = 0

Arrow-rank : {s t : Status} → Arrow s t → rank s ≤ rank t
Arrow-rank (stay s) = omega arith
Arrow-rank begin = omega arith
Arrow-rank expire = omega arith
Arrow-rank end = omega arith
Arrow-rank (force waiting) = omega arith
Arrow-rank (force running) = omega arith
Arrow-rank (force stopped) = omega arith
Arrow-rank (force force_stopped) = omega arith
Arrow-rank (force (unknown n)) = omega arith

module _ {Event : Type 0} (o : Outlet EventBody Event) where
  -- The commands that succeed from one stored experiment to a later one, the last command last.
  pub data History (first : Experiment) : Experiment → Type 0 where
    created : History first first
    handled :
        {e : Experiment}
        → History first e
        → (now : ℤ) (c : Command) (events : List Event) (h : Sent Experiment Event)
        → handle o now c (record { subject = e; published = events }) ≡ done h
        → History first h.subject

  handled-Allowed :
      (now : ℤ) (c : Command) (before h : Sent Experiment Event)
      → handle o now c before ≡ done h
      → Allowed before.subject h.subject
  handled-Allowed now c before h e =
      subst (Leaves (Allowed before.subject)) e (handle-Allowed o now c before)

  pub History-Lawful : {first e : Experiment} → Lawful first → History first e → Lawful e
  History-Lawful l created = l
  History-Lawful l (handled hist now c events h r) =
      (handled-Allowed now c _ h r).1 (History-Lawful l hist)

  -- Commands only move the status forward: an experiment that has run never waits again, one that
  -- is stopped never runs again, and one that was stopped by force stays so.
  pub History-rank : {first e : Experiment} → History first e → rank first.status ≤ rank e.status
  History-rank created = omega arith
  History-rank (handled hist now c events h r) =
      omega (arith, History-rank hist, Arrow-rank (handled-Allowed now c _ h r).0)

  -- An experiment that was created with a start before its stop is lawful after any sequence of
  -- commands: the flag and the time of a stop agree with the status, and the start stays before the
  -- stop.
  pub stored-Lawful :
      {e0 e : Experiment} (new_id : Option String) (feature_id : String) (version : ℤ)
      (variations : List Variation) (goal_ids : List String) (start_at stop_at : ℤ)
      (name description base maintainer : String) (at : ℤ)
      → new_experiment new_id feature_id version variations goal_ids start_at stop_at name
          description base maintainer at
        ≡ ok e0
      → leb_ℤ stop_at start_at ≡ false
      → History e0 e
      → Lawful e
  stored-Lawful new_id f v vs gs a b n d base m at made lt hist =
      History-Lawful
        (Holds-ok Lawful _ _ (new_experiment-Lawful new_id f v vs gs a b n d base m at lt) made)
        hist
