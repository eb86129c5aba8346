-- ===== src/Api/Stored.antt =====
-- What the transaction of UpdateFeatureTargeting stores.
use bucketeer.Prelude.{
  ℕ, ℤ, String, true, List, [], ◌∷◌, ◌≡◌, some, get_elem?, index_by, All, Safe, Safe-bind, Safe-map,
  Result, ok, err, panic, read, ◌>>=◌,
}
use bucketeer.Feature.Model.{Feature}
use bucketeer.Feature.Variations.{Parsers}
use bucketeer.Feature.WellFormed.{WellFormed}
use bucketeer.Command.Model.{Command, Handled, done, failed, panicked, World}
use bucketeer.Command.Dispatch.{handle}
use bucketeer.Command.Consistency.{After, handle-WellFormed}
use bucketeer.Api.Model.{ApiError}
use bucketeer.Api.Validation.{validate_targeting}
use bucketeer.Api.Targeting.{
  Updated, stored, rejected, aborted, crashed, feature_id, validate_all, handle_all,
  update_targeting, run_checked,
}
use bucketeer.Api.Admitted.{is_checked, Always, Target, Lets, validate_targeting-Safe}

abbrev pub IsChecked : Command → Type 0
IsChecked c = is_checked c ≡ true

-- The run does not crash, and a feature that it stores satisfies `P`.
abbrev pub Stores : {Event : Type 0} → (Feature → Type 0) → Updated Event → Type 0
Stores P (stored h) = P h.feature
Stores P (rejected e) = Unit
Stores P (aborted e) = Unit
Stores P crashed = ⊥

abbrev AllLet : ℕ → List Command → List Feature → Type 0
AllLet i cs fs = All Always cs × Target i fs

validate_all-Safe :
    (cs : List Command) (fs : List Feature) (i : ℕ)
    → All IsChecked cs
    → Target i fs
    → Safe (AllLet i cs) (validate_all fs i cs)
unfolding validate_all
validate_all-Safe [] fs i h t = (tt, t)
validate_all-Safe (c ∷ cs) fs i h t =
    Safe-bind (Lets i c) (AllLet i (c ∷ cs)) (validate_targeting fs i c) _
      (validate_targeting-Safe c fs i h.0 t)
      λ fs' k.
        Safe-map (AllLet i cs) (AllLet i (c ∷ cs)) (validate_all fs' i cs)
          (λ _ l. ((k.0, l.0), l.1)) (validate_all-Safe cs fs' i h.1 k.1)

module _ {Event : Type 0} (w : World Event) (p : Parsers) (now : ℤ) where
  handle_all-Stores :
      (cs : List Command) (r : Handled Event)
      → All Always cs
      → After WellFormed r
      → Stores WellFormed (handle_all w p now cs r)
  unfolding handle_all
  handle_all-Stores [] (done h) a v = v
  handle_all-Stores [] (failed e h) a v = tt
  handle_all-Stores [] panicked a v = v
  handle_all-Stores (c ∷ cs) (done h) a v =
      handle_all-Stores cs (handle w p now c h) a.1
        (handle-WellFormed w p now c h (a.0 h.feature) v)
  handle_all-Stores (c ∷ cs) (failed e h) a v = tt
  handle_all-Stores (c ∷ cs) panicked a v = v

  run_checked-Stores :
      (cs : List Command) (r : Result ApiError Feature)
      → Safe (λ f. All Always cs × WellFormed f) r
      → Stores WellFormed (run_checked w p now cs r)
  run_checked-Stores cs (ok f) h =
      handle_all-Stores (Command.increment_feature_version ∷ cs)
        (done (record { feature = f; events = [] })) (λ g. tt, h.0) h.1
  run_checked-Stores cs (err e) h = tt
  run_checked-Stores cs panic h = h

  -- A request that changes the targeting of a consistent feature does not crash, and a feature that
  -- it stores is consistent, for commands whose messages are there and that neither name a clause
  -- nor add one nor change the default strategy.
  pub update_targeting-Stores :
      (fs : List Feature) (id : String) (i : ℕ) (f : Feature) (cs : List Command)
      → index_by feature_id id fs ≡ some i
      → get_elem? fs i ≡ some f
      → WellFormed f
      → All IsChecked cs
      → Stores WellFormed (update_targeting w p now fs id cs)
  unfolding update_targeting
  update_targeting-Stores fs id i f cs found at v h = rw found (
      run_checked-Stores cs (validate_all fs i cs >>= λ fs'. read fs' i) (
        Safe-bind (AllLet i cs) _ (validate_all fs i cs) _ (validate_all-Safe cs fs i h (f, at, v))
          λ fs' l. let (g, there, k) = l.1 in rw there (l.0, k)))
