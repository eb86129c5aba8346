-- ===== src/Segment/Commands.antt =====
-- Every command of pkg/feature/command/segment.go: what it keeps and what it publishes.
use bucketeer.Prelude.{
  ℕ, ◌<◌, ℤ, String, List, Option, none, some, ◌≡◌, refl, length, All, Safe, Safe-ok, ok,
}
use bucketeer.Feature.Model.{Error, Rule, Clause}
use bucketeer.Evaluation.Model.{SegmentUserState}
use bucketeer.Command.Handlers.{fresh_clauses}
use bucketeer.Publish.{Outlet, Sent, Leaves, after, after-Leaves, send-Leaves}
use bucketeer.Segment.Model.{Segment, uploading}
use bucketeer.Segment.Operations
use bucketeer.Segment.Operations.{Outcome}
use bucketeer.Segment.Command
use bucketeer.Segment.Command.{Command, EventBody, handle, segment_id, when_included}
use bucketeer.Segment.Sound.{Sound, HasValues}
use bucketeer.Segment.Edits.{
  add_rule-Sound, delete_rule-Sound, add_clause-Sound, delete_clause-Sound,
  change_clause_attribute-Sound, change_clause_operator-Sound, add_clause_value-Sound,
  remove_clause_value-Sound,
}
use bucketeer.Segment.Fresh.{Distinct, fresh_clauses-SoundRule}

-- A rule that is added has clauses, and a clause that is added has a value.
abbrev pub Complete : Command → Type 0
Complete (Command.add_rule (some rule)) = (0 < length rule.clauses) × All HasValues rule.clauses
Complete (Command.add_clause rule_id (some clause)) = HasValues clause
Complete c = Unit

module _ {Event : Type 0} (o : Outlet EventBody Event) (new_uuid : ℕ → Option String)
    (now : ℤ) where
  run-Sound :
      (r : Outcome) (body : Segment → EventBody) (h : Sent Segment Event)
      → Sound h.subject
      → Safe Sound r
      → Leaves Sound (after o r segment_id body h)
  run-Sound r body h s q = after-Leaves o Sound r segment_id body h s λ e f. Safe-ok Sound r e q f

  when_included-Sound :
      (state : SegmentUserState) (f : Segment → Segment) (s : Segment)
      → Sound s
      → Sound (f s)
      → Sound (when_included state f s)
  unfolding when_included
  when_included-Sound SegmentUserState.included f s h k = k
  when_included-Sound SegmentUserState.excluded f s h k = h
  when_included-Sound (SegmentUserState.unknown n) f s h k = h

  -- An operation that leaves the rules alone.
  same-Sound : (s s' : Segment) → s'.rules ≡ s.rules → Sound s → Sound s'
  same-Sound s s' e h = record {
    rules_unique = rw e h.rules_unique;
    rules_sound = rw e h.rules_sound;
  }

  count-Sound :
      (state : SegmentUserState) (count : ℤ) (h : Sent Segment Event) (body : Segment → EventBody)
      (f : ℤ → ℤ → Segment → Segment)
      → ((s : Segment) → (f count now s).rules ≡ s.rules)
      → Sound h.subject
      → Leaves Sound
          (Command.run o new_uuid now (λ s. ok (when_included state (f count now) s)) body h)
  count-Sound state count h body f same s =
      run-Sound (ok (when_included state (f count now) h.subject)) body h s (
        when_included-Sound state (f count now) h.subject s
          (same-Sound h.subject (f count now h.subject) (same h.subject) s))

  add_rule_with-Sound :
      (rule : Rule) (ds : Option (List Clause)) (h : Sent Segment Event)
      → Distinct new_uuid
      → fresh_clauses new_uuid 0 rule.clauses ≡ ds
      → 0 < length rule.clauses
      → All HasValues rule.clauses
      → Sound h.subject
      → Leaves Sound (Command.add_rule_with o new_uuid now rule ds h)
  unfolding Command.add_rule_with
  add_rule_with-Sound rule none h d e n v s = s
  add_rule_with-Sound rule (some ds) h d e n v s =
      run-Sound _ _ h s
        (add_rule-Sound _ now h.subject (fresh_clauses-SoundRule new_uuid d rule ds n v e) s)

  add_clause_with-Sound :
      (rule_id : String) (c : Clause) (id : Option String) (h : Sent Segment Event)
      → HasValues c
      → Sound h.subject
      → Leaves Sound (Command.add_clause_with o new_uuid now rule_id (some c) id h)
  unfolding Command.add_clause_with
  add_clause_with-Sound rule_id c none h v s = s
  add_clause_with-Sound rule_id c (some id) h v s =
      run-Sound _ _ h s (add_clause-Sound rule_id _ now h.subject v s)

  add_clause_with-none :
      (rule_id : String) (id : Option String) (h : Sent Segment Event)
      → Sound h.subject
      → Leaves Sound (Command.add_clause_with o new_uuid now rule_id none id h)
  unfolding Command.add_clause_with
  add_clause_with-none rule_id none h s = s
  add_clause_with-none rule_id (some id) h s = tt

  -- If before a command no rule id of the segment occurs twice, every rule has a clause, no clause
  -- id occurs twice in a rule and every clause has a value, if a rule that the command adds has
  -- clauses with values and a clause that it adds has a value, and if the ids that are drawn are
  -- different, then the same four facts hold of what the command leaves of the segment, on success
  -- or failure. Where it panics nothing is said.
  pub handle-Sound :
      (c : Command) (h : Sent Segment Event)
      → Distinct new_uuid
      → Complete c
      → Sound h.subject
      → Leaves Sound (handle o new_uuid now c h)
  unfolding handle Command.create Command.delete Command.rename Command.describe Command.insert_rule
      Command.remove_rule Command.insert_clause Command.remove_clause Command.change_attribute
      Command.change_operator Command.insert_value Command.remove_value Command.add_users
      Command.delete_users Command.bulk_upload Command.change_upload_status Operations.set_deleted
      Operations.change_name Operations.change_description Operations.add_included_user_count
      Operations.remove_included_user_count Operations.set_included_user_count Operations.set_status
  handle-Sound Command.create_segment h d k s = send-Leaves Error o Sound _ _ h s
  handle-Sound Command.delete_segment h d k s =
      run-Sound (Operations.set_deleted now h.subject) _ h s (same-Sound h.subject _ refl s)
  handle-Sound (Command.change_name n) h d k s =
      run-Sound (Operations.change_name n now h.subject) _ h s (same-Sound h.subject _ refl s)
  handle-Sound (Command.change_description t) h d k s =
      run-Sound (Operations.change_description t now h.subject) _ h s
        (same-Sound h.subject _ refl s)
  handle-Sound (Command.add_rule none) h d k s = tt
  handle-Sound (Command.add_rule (some rule)) h d (n, v) s =
      add_rule_with-Sound rule (fresh_clauses new_uuid 0 rule.clauses) h d refl n v s
  handle-Sound (Command.delete_rule id) h d k s =
      run-Sound _ _ h s (delete_rule-Sound id now h.subject s)
  handle-Sound (Command.add_clause rule_id none) h d k s =
      add_clause_with-none rule_id (new_uuid 0) h s
  handle-Sound (Command.add_clause rule_id (some c)) h d k s =
      add_clause_with-Sound rule_id c (new_uuid 0) h k s
  handle-Sound (Command.delete_clause rule_id id) h d k s =
      run-Sound _ _ h s (delete_clause-Sound rule_id id now h.subject s)
  handle-Sound (Command.change_clause_attribute rule_id id a) h d k s =
      run-Sound _ _ h s (change_clause_attribute-Sound rule_id id a now h.subject s)
  handle-Sound (Command.change_clause_operator rule_id id p) h d k s =
      run-Sound _ _ h s (change_clause_operator-Sound rule_id id p now h.subject s)
  handle-Sound (Command.add_clause_value rule_id id v) h d k s =
      run-Sound _ _ h s (add_clause_value-Sound rule_id id v now h.subject s)
  handle-Sound (Command.remove_clause_value rule_id id v) h d k s =
      run-Sound _ _ h s (remove_clause_value-Sound rule_id id v now h.subject s)
  handle-Sound (Command.add_segment_user users state) h d k s =
      count-Sound state _ h _ Operations.add_included_user_count (λ _. refl) s
  handle-Sound (Command.delete_segment_user users state) h d k s =
      count-Sound state _ h _ Operations.remove_included_user_count (λ _. refl) s
  handle-Sound (Command.bulk_upload_segment_users state) h d k s =
      run-Sound (ok (Operations.set_status uploading now h.subject)) _ h s
        (same-Sound h.subject _ refl s)
  handle-Sound (Command.change_bulk_upload_status status state count) h d k s =
      let marked : Segment = Operations.set_status status now h.subject in
      let sound : Sound marked = same-Sound h.subject marked refl s in
      run-Sound (ok (when_included state (Operations.set_included_user_count count now) marked)) _ h
        s
        (when_included-Sound state _ marked sound
          (same-Sound marked (Operations.set_included_user_count count now marked) refl sound))
  handle-Sound Command.other h d k s = s
