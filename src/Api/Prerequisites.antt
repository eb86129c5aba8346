-- ===== src/Api/Prerequisites.antt =====
-- The command AddPrerequisite through the transaction that changes a feature's targeting.
use bucketeer.Prelude.{
  ℤ, ℕ, zero, suc, String, List, [], ◌∷◌, ◌++◌, some, is_some, not, ◌≡◌, refl, ok, ◌==◌, get_elem?,
  set, index_by, guard, Holds, Holds-bind, Holds-ok, Holds-trivial, ◌∙◌, next_int32, ap,
}
use mathlib.Core.List.{append_assoc}
use bucketeer.Feature.Model.{Prerequisite, Feature}
use bucketeer.Feature.Lookup.{prerequisite_feature}
use bucketeer.Feature.Variations.{Parsers}
use bucketeer.Feature.Settings.{increment_version}
use bucketeer.Feature.Prerequisites
use bucketeer.Evaluation.Order.{topological_sort}
use bucketeer.Command.Model.{Command, EventBody, Handler, done, World}
use bucketeer.Command.Handlers
use bucketeer.Command.Dispatch.{handle}
use bucketeer.Api.Model.{invalid_prerequisite}
use bucketeer.Api.Validation.{
  validate_add_prerequisite, validate_targeting, validate_variation_id, sort_status,
}
use bucketeer.Api.Targeting.{stored, feature_id, validate_all, handle_all, update_targeting}

get_elem?-set :
    {A : Type 0} (xs : List A) (i : ℕ) (x y : A)
    → get_elem? xs i ≡ some x
    → get_elem? (set xs i y) i ≡ some y
get_elem?-set [] i x y e = cc
get_elem?-set (z ∷ zs) zero x y e = refl
get_elem?-set (z ∷ zs) (suc i) x y e = get_elem?-set zs i x y e

abbrev with_prerequisite : Prerequisite → Feature → Feature
with_prerequisite q f = record f { prerequisites = f.prerequisites ++ q ∷ [] }

-- The check itself leaves the prerequisite in the target feature.
validate_add-adds :
    (fs : List Feature) (i : ℕ) (q : Prerequisite) (f : Feature)
    → get_elem? fs i ≡ some f
    → Holds
        (λ fs'. get_elem? fs' i ≡ some (with_prerequisite q f))
        (validate_add_prerequisite fs i (some q))
unfolding validate_add_prerequisite
validate_add-adds fs i q f at = rw at (
    Holds-bind _ _ (guard (not (f.id == q.feature_id)) invalid_prerequisite) _ (Holds-trivial _)
      λ _ _.
        Holds-bind _ _
          (guard (not (is_some (index_by prerequisite_feature q.feature_id f.prerequisites)))
            invalid_prerequisite)
          _ (Holds-trivial _)
          λ _ _. Holds-bind _ _ (validate_variation_id fs q) _ (Holds-trivial _) λ _ _.
            Holds-bind _ _ (sort_status (topological_sort (set fs i (with_prerequisite q f)))) _
              (Holds-trivial _) λ _ _. get_elem?-set fs i f (with_prerequisite q f) at)

emit-done :
    {Event : Type 0} (w : World Event) (p : Parsers) (now : ℤ) (body : EventBody)
    (h : Handler Event) (e : Event)
    → w.new_event h.feature.id h.feature.version body ≡ some e
    → Handlers.emit w p now body h ≡ done (record h { events = h.events ++ e ∷ [] })
unfolding Handlers.emit
emit-done w p now body h e made = rw (Handlers.emit, made) refl

-- A prerequisite that the request's check accepts is stored twice: the check leaves it in the
-- feature that the handler then adds it to again. (The factory of events is one that succeeds.)
pub prerequisite_stored_twice :
    {Event : Type 0} (w : World Event) (p : Parsers) (now : ℤ) (fs fs' : List Feature) (i : ℕ)
    (q : Prerequisite) (f : Feature)
    → ((id : String) (version : ℤ) (body : EventBody)
        → (e : Event) × (w.new_event id version body ≡ some e))
    → index_by feature_id f.id fs ≡ some i
    → get_elem? fs i ≡ some f
    → validate_add_prerequisite fs i (some q) ≡ ok fs'
    → (h : Handler Event) × (update_targeting w p now fs f.id
          (Command.add_prerequisite (some q) ∷ [])
        ≡ stored h)
      × (h.feature.prerequisites ≡ f.prerequisites ++ q ∷ q ∷ [])
unfolding update_targeting validate_all validate_targeting handle_all handle
    Handlers.increment_feature_version Handlers.add_prerequisite Handlers.after increment_version
    Prerequisites.add_prerequisite
prerequisite_stored_twice {Event = Event} w p now fs fs' i q f makes found at checked =
    let added = Holds-ok _ _ fs' (validate_add-adds fs i q f at) checked in
    let (h, ran, twice) = handled (with_prerequisite q f) in
    (h, rw (found, checked, added) ran, twice ∙ append_assoc f.prerequisites (q ∷ []) (q ∷ []))
  where
    handled :
        (g : Feature)
        → (h : Handler Event) × (handle_all w p now
              (Command.increment_feature_version ∷ Command.add_prerequisite (some q) ∷ [])
              (done (record { feature = g; events = [] }))
            ≡ stored h)
          × (h.feature.prerequisites ≡ g.prerequisites ++ q ∷ [])
    handled g =
        let version = next_int32 g.version in
        let (e, made) = makes g.id version (EventBody.feature_version_incremented g.id version) in
        let (e', made') = makes g.id version (EventBody.prerequisite_added (some q)) in
        let raised : Feature = record g { version = version; updated_at = now } in
        (
          record { feature = with_prerequisite q raised; events = e ∷ e' ∷ [] },
          ap (handle_all w p now (Command.add_prerequisite (some q) ∷ []))
                (emit-done w p now _ (record { feature = raised; events = [] }) e made)
              ∙ ap (handle_all w p now []) (
                  emit-done w p now _
                    (record { feature = with_prerequisite q raised; events = e ∷ [] }) e' made'),
          refl,
        )
