-- ===== src/AutoOps/Extraction.antt =====
-- A new rule of pkg/autoops/domain/auto_ops_rule.go gives back its clauses, type by type.
use bucketeer.Prelude.{
  ℕ, suc, ◌+◌, ◌<◌, arith, ℤ, String, List, [], ◌∷◌, ◌++◌, true, not, Option, some, ◌≡◌, refl, sym,
  ap, subst, ◌∙◌, length, Result, ok, err, panic, Safe, Returns, Returns-bind,
}
use mathlib.Core.List.{append_assoc, append-nil}
use bucketeer.AutoOps.Model.{
  OpsType, OpsEventRateClause, DatetimeClause, WebhookClause, Clause, AutoOpsRule, Packing,
  Packings,
}
use bucketeer.AutoOps.Operations.{
  add_clause, add_packed, add_all, is_empty, new_auto_ops_rule, empty_rule,
}
use bucketeer.Segment.Fresh.{Distinct}
use bucketeer.AutoOps.Rates.{Keyed, own-Keyed, from-Apart, from-nothing, Drawn-Unique}
use bucketeer.AutoOps.RoundTrip.{
  Drawn, Inverse, Apart, Extracts, Marshalled, Appended, add_all-Appended, Extracts-own,
  Extracts-none, Extracts-Apart,
}

-- Messages of the three types are told apart and read back.
pub record PackingLaws {Any Float : Type 0} (p : Packings Any Float) : Type 0 where
  pub rate : Inverse p.rate
  pub datetime : Inverse p.datetime
  pub webhook : Inverse p.webhook
  pub rate_datetime : Apart p.rate p.datetime
  pub rate_webhook : Apart p.rate p.webhook
  pub datetime_rate : Apart p.datetime p.rate
  pub datetime_webhook : Apart p.datetime p.webhook
  pub webhook_rate : Apart p.webhook p.rate
  pub webhook_datetime : Apart p.webhook p.datetime

-- A function that always answers.
abbrev pub Answers : {A B : Type 0} → (A → Option B) → Type 0
Answers {A} {B} f = (x : A) → (y : B) × (f x ≡ some y)

-- The clauses of every type are read back: the rate clauses in a map with an entry for each under
-- an id of its own, the others in their order.
abbrev pub GivesBack :
    {Any Float : Type 0}
    → Packings Any Float
    → List (OpsEventRateClause Float)
    → List DatetimeClause
    → List WebhookClause
    → AutoOpsRule Any
    → Type 0
GivesBack p rs ds ws a =
    Keyed p.rate a.clauses rs × Extracts p.datetime a.clauses ds × Extracts p.webhook a.clauses ws

of_Safe :
    {E A : Type 0} (P : A → Type 0) (r : Result E A)
    → Safe P r
    → Returns (λ _. Unit {0}) r
    → Returns P r
of_Safe P (ok a) h k = h
of_Safe P (err e) h k = absurd k
of_Safe P panic h k = absurd k

length-Marshalled :
    {Any A : Type 0} (p : Packing Any A) (cs : List (Clause Any)) (xs : List A)
    → Marshalled p cs xs
    → length cs ≡ length xs
length-Marshalled p [] [] m = refl
length-Marshalled p [] (x ∷ xs) m = absurd m
length-Marshalled p (c ∷ cs) [] m = absurd m
length-Marshalled p (c ∷ cs) (x ∷ xs) (e, m) = omega (arith, length-Marshalled p cs xs m)

length-append : {A : Type 0} (xs ys : List A) → length (xs ++ ys) ≡ length xs + length ys
length-append [] ys = omega arith
length-append (x ∷ xs) ys = omega (arith, length-append xs ys)

module _ {Any A : Type 0} (p : Packing Any A) (new_uuid : ℕ → Option String) (now : ℤ)
    (marshals : Answers p.marshal) (draws : Answers new_uuid) where
  add_packed-Returns :
      (x : A) (n : ℕ) (a : AutoOpsRule Any)
      → Returns (λ _. Unit {0}) (add_packed p x (new_uuid n) now a)
  unfolding add_packed add_clause
  add_packed-Returns x n a = let (ac, e) = marshals x in let (id, f) = draws n in rw (e, f) tt

  add_all-Returns :
      (xs : List A) (n : ℕ) (a : AutoOpsRule Any)
      → Returns (λ _. Unit {0}) (add_all p xs new_uuid n now a)
  unfolding add_all
  add_all-Returns [] n a = tt
  add_all-Returns (x ∷ xs) n a =
      Returns-bind (λ _. Unit {0}) (λ _. Unit {0}) (add_packed p x (new_uuid n) now a) _
        (add_packed-Returns x n a) λ (c, b) _. add_all-Returns xs (suc n) b

  pub appended :
      (xs : List A) (n : ℕ) (a : AutoOpsRule Any)
      → Returns (Appended p new_uuid now n xs a) (add_all p xs new_uuid n now a)
  appended xs n a =
      of_Safe _ (add_all p xs new_uuid n now a) (add_all-Appended p new_uuid now xs n a)
        (add_all-Returns xs n a)

some_left : {A : Type 0} (xs : List A) → 0 < length xs → (x : A) × (ys : List A) × (xs ≡ x ∷ ys)
some_left [] h = absurd (omega (arith, h))
some_left (x ∷ xs) h = (x, xs, refl)

not_empty : {Any : Type 0} (cs : List (Clause Any)) → 0 < length cs → not (is_empty cs) ≡ true
not_empty [] h = absurd (omega (arith, h))
not_empty (c ∷ cs) h = refl

module _ {Any Float : Type 0} (p : Packings Any Float) (laws : PackingLaws p)
    (new_uuid : ℕ → Option String) (now : ℤ) (draws : Answers new_uuid)
    (distinct : Distinct new_uuid) (rates : Answers p.rate.marshal)
    (datetimes : Answers p.datetime.marshal) (webhooks : Answers p.webhook.marshal) where
  counted :
      (r d w : List (Clause Any)) (rs : List (OpsEventRateClause Float)) (ds : List DatetimeClause)
      (ws : List WebhookClause)
      → Marshalled p.rate r rs
      → Marshalled p.datetime d ds
      → Marshalled p.webhook w ws
      → length (r ++ (d ++ (w ++ []))) ≡ length rs + (length ds + length ws)
  counted r d w rs ds ws m n o = omega (
    arith,
    length-append r (d ++ (w ++ [])),
    length-append d (w ++ []),
    length-append w [],
    length-Marshalled p.rate r rs m,
    length-Marshalled p.datetime d ds n,
    length-Marshalled p.webhook w ws o,
  )

  gives_back :
      (rs : List (OpsEventRateClause Float)) (ds : List DatetimeClause) (ws : List WebhookClause)
      (r d w : List (Clause Any)) (a : AutoOpsRule Any)
      → a.clauses ≡ r ++ (d ++ (w ++ []))
      → Marshalled p.rate r rs
      → Marshalled p.datetime d ds
      → Marshalled p.webhook w ws
      → Drawn new_uuid 1 r
      → GivesBack p rs ds ws a
  gives_back rs ds ws r d w a e m n o drawn = (
    subst (λ cs. Keyed p.rate cs rs) (sym e)
        (own-Keyed p.rate r (d ++ (w ++ [])) rs laws.rate m
          (Drawn-Unique new_uuid 1 r distinct drawn)
          λ es.
            from-Apart p.rate p.datetime d ds (w ++ []) es laws.datetime_rate n
            ∙ from-Apart p.rate p.webhook w ws [] es laws.webhook_rate o
            ∙ from-nothing p.rate es),
    give p.datetime ds (
        Extracts-Apart p.datetime p.rate r rs (d ++ (w ++ [])) (ds ++ []) laws.rate_datetime m (
          Extracts-own p.datetime d ds (w ++ []) [] laws.datetime n (
            Extracts-Apart p.datetime p.webhook w ws [] [] laws.webhook_datetime o
              (Extracts-none p.datetime)))),
    give p.webhook ws (
        Extracts-Apart p.webhook p.rate r rs (d ++ (w ++ [])) (ws ++ []) laws.rate_webhook m (
          Extracts-Apart p.webhook p.datetime d ds (w ++ []) (ws ++ []) laws.datetime_webhook n
            (Extracts-own p.webhook w ws [] [] laws.webhook o (Extracts-none p.webhook)))),
  )
    where
      give :
          {A : Type 0} (q : Packing Any A) (xs : List A)
          → Extracts q (r ++ (d ++ (w ++ []))) (xs ++ [])
          → Extracts q a.clauses xs
      give q xs h =
          subst (λ cs. Extracts q cs xs) (sym e)
            (subst (Extracts q (r ++ (d ++ (w ++ [])))) (append-nil xs) h)

  -- Where the messages of the three types are marshalled, told apart and read back, and the source
  -- of ids answers and repeats none, a new rule with at least one clause is made, and extracting
  -- the clauses of each type gives those it was made with: the clauses of a time and of a webhook
  -- in their order, and the rate clauses in a map with one entry for each, under the id of the
  -- clause that holds it, and no other.
  pub new_auto_ops_rule-GivesBack :
      (feature_id : String) (ops_type : OpsType) (rs : List (OpsEventRateClause Float))
      (ds : List DatetimeClause) (ws : List WebhookClause)
      → 0 < length rs + length ds + length ws
      → Returns
          (GivesBack p rs ds ws)
          (new_auto_ops_rule p new_uuid feature_id ops_type rs ds ws now)
  unfolding new_auto_ops_rule
  new_auto_ops_rule-GivesBack feature_id ops_type rs ds ws h =
      let (id, drawn) = draws 0 in
      rw drawn (
        Returns-bind (Appended p.rate new_uuid now 1 rs (empty_rule id feature_id ops_type now)) _
          (add_all p.rate rs new_uuid 1 now (empty_rule id feature_id ops_type now)) _
          (appended p.rate new_uuid now rates draws rs 1 _)
          λ a (r, ea, m, is).
            Returns-bind (Appended p.datetime new_uuid now (1 + length rs) ds a) _
              (add_all p.datetime ds new_uuid (1 + length rs) now a) _
              (appended p.datetime new_uuid now datetimes draws ds _ a)
              λ b (d, eb, n, js).
                Returns-bind (Appended p.webhook new_uuid now (1 + length rs + length ds) ws b) _
                  (add_all p.webhook ws new_uuid (1 + length rs + length ds) now b) _
                  (appended p.webhook new_uuid now webhooks draws ws _ b)
                  λ c (w, ec, o, ks).
                    let joined : c.clauses ≡ r ++ (d ++ (w ++ [])) =
                      ec
                      ∙ ap (λ zs. zs ++ w) (eb ∙ ap (λ zs. zs ++ d) ea)
                      ∙ append_assoc r d w
                      ∙ ap (λ zs. r ++ (d ++ zs)) (sym (append-nil w)) in
                    let many : length c.clauses ≡ length rs + (length ds + length ws) =
                      ap length joined ∙ counted r d w rs ds ws m n o in
                    let full : not (is_empty c.clauses) ≡ true =
                      not_empty c.clauses (omega (arith, many, h)) in
                    rw full (gives_back rs ds ws r d w c joined m n o is))
