-- ===== src/Publish.antt =====
-- The `send` that the command handlers of pkg/experiment/command, pkg/autoops/command,
-- pkg/feature/command/segment.go and their like share: the event is made by
-- `domainevent.NewEvent` and given to the publisher, and either may fail.
use bucketeer.Prelude.{
  String, List, [], ◌∷◌, ◌++◌, Bool, Option, none, some, ◌≡◌, refl, if◌then◌else◌, if_ind, Result,
  ok, err, panic,
}

-- What a handler works on: the object of the command, and the events published so far.
pub record Sent (S Event : Type 0) : Type 0 where
  pub subject : S
  pub published : List Event

pub data SendError (E : Type 0) : Type 0 where
  domain : E → SendError E
  event_error publish_error unknown_command : SendError E

-- A handler changes its object also where it then returns an error.
pub data Sending (E S Event : Type 0) : Type 0 where
  done : Sent S Event → Sending E S Event
  failed : SendError E → Sent S Event → Sending E S Event
  panicked : Sending E S Event

-- The factory of events, given the object's id, and the publisher, whose answer may depend on
-- what was published before.
pub record Outlet (Body Event : Type 0) : Type 0 where
  pub new_event : String → Body → Option Event
  pub publish : List Event → Event → Bool

-- One more event stands behind those that were there.
abbrev pub OneMore : {Event : Type 0} → List Event → List Event → Type 0
OneMore {Event} xs ys = (e : Event) × (ys ≡ xs ++ e ∷ [])

-- From `h`: success publishes one event, and nothing else publishes any. An error of the operation
-- leaves the object as it was; an error of the event leaves it changed.
abbrev pub Recorded : {E S Event : Type 0} → Sent S Event → Sending E S Event → Type 0
Recorded h (done h') = OneMore h.published h'.published
Recorded h (failed (domain x) h') = h' ≡ h
Recorded h (failed unknown_command h') = h' ≡ h
Recorded h (failed event_error h') = h'.published ≡ h.published
Recorded h (failed publish_error h') = h'.published ≡ h.published
Recorded h panicked = Unit

-- The object that a handler leaves behind, on success or failure.
abbrev pub Leaves : {E S Event : Type 0} → (S → Type 0) → Sending E S Event → Type 0
Leaves P (done h) = P h.subject
Leaves P (failed e h) = P h.subject
Leaves P panicked = Unit

module _ {E S Body Event : Type 0} (o : Outlet Body Event) where
  unfoldable pub send : String → Body → Sent S Event → Sending E S Event
  send id body h = elim (o.new_event id body) [
    | none ↦ failed event_error h
    | some e ↦
        if o.publish h.published e
        then done (record h { published = h.published ++ e ∷ [] })
        else failed publish_error h
  ]

  -- An operation of the object, and then its event.
  unfoldable pub after : Result E S → (S → String) → (S → Body) → Sent S Event → Sending E S Event
  after (ok s) id body h = send (id s) (body s) (record h { subject = s })
  after (err x) id body h = failed (domain x) h
  after panic id body h = panicked

  -- What every end of `send` satisfies: the event published, and the two failures.
  pub send_ind {κ} :
      (Q : Sending E S Event → Type κ) (id : String) (body : Body) (h : Sent S Event)
      → ((e : Event) → Q (done (record h { published = h.published ++ e ∷ [] })))
      → Q (failed event_error h)
      → Q (failed publish_error h)
      → Q (send id body h)
  unfolding send
  send_ind Q id body h d f g = by_event (o.new_event id body)
    where
      by_event :
          (m : Option Event)
          → Q (elim m [
            | none ↦ failed event_error h
            | some e ↦
                if o.publish h.published e
                then done (record h { published = h.published ++ e ∷ [] })
                else failed publish_error h
          ])
      by_event none = f
      by_event (some e) = if_ind Q (o.publish h.published e) (λ _. d e) (λ _. g)

  pub after-Recorded :
      (r : Result E S) (id : S → String) (body : S → Body) (h : Sent S Event)
      → Recorded h (after r id body h)
  unfolding after
  after-Recorded (ok s) id body h =
      send_ind (Recorded h) (id s) (body s) (record h { subject = s }) (λ e. (e, refl)) refl refl
  after-Recorded (err x) id body h = refl
  after-Recorded panic id body h = tt

module _ (E : Type 0) {S Body Event : Type 0} (o : Outlet Body Event) where
  pub send-Recorded :
      (id : String) (body : Body) (h : Sent S Event) → Recorded {E = E} h (send o id body h)
  send-Recorded id body h = send_ind o (Recorded h) id body h (λ e. (e, refl)) refl refl

  pub send-Leaves :
      (P : S → Type 0) (id : String) (body : Body) (h : Sent S Event)
      → P h.subject
      → Leaves {E = E} P (send o id body h)
  send-Leaves P id body h p = send_ind o (Leaves P) id body h (λ e. p) p p

module _ {E S Body Event : Type 0} (o : Outlet Body Event) where
  -- What holds of the object before and of the operation's value holds of what is left.
  pub after-Leaves :
      (P : S → Type 0) (r : Result E S) (id : S → String) (body : S → Body) (h : Sent S Event)
      → P h.subject
      → ((s : S) → r ≡ ok s → P s)
      → Leaves P (after o r id body h)
  unfolding after
  after-Leaves P (ok s) id body h p q = send-Leaves E o P (id s) (body s) _ (q s refl)
  after-Leaves P (err x) id body h p q = p
  after-Leaves P panic id body h p q = tt
