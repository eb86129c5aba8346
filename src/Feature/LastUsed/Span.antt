-- ===== src/Feature/LastUsed/Span.antt =====
-- The oldest and the latest client version of pkg/feature/domain/feature_last_used_info.go are the
-- least and the greatest of those seen.
use bucketeer.Prelude.{
  none-some, String, List, [], ◌∷◌, true, false, Bool-cases, inl, inr, ◌⊎◌, Option, none, some, ◌≡◌,
  refl, sym, subst, ap, ◌∙◌, if_ind, ◌==◌, eq_iff, ne-eq, All, All-map,
}
use bucketeer.Feature.Model.{FeatureLastUsedInfo}
use bucketeer.Feature.LastUsed.{
  Semver, Versioned, versioned, parse_failed, older_of, newer_of, set_oldest_of, set_latest_of,
  set_oldest_client_version, set_latest_client_version, and_latest, set_client_version,
}

-- What is printed is read back, the empty text is no version, and versions are ordered.
pub record SemverLaws {Version : Type 0} (sv : Semver Version) : Type 0 where
  pub parse_print : (v : Version) → sv.parse (sv.print v) ≡ some v
  pub parse_nothing : sv.parse "" ≡ none
  pub irreflexive : (v : Version) → sv.lt v v ≡ false
  pub transitive : (u v w : Version) → sv.lt u v ≡ true → sv.lt v w ≡ true → sv.lt u w ≡ true

false-true : ¬ (false ≡ true)
false-true e = cc

module _ {Version : Type 0} (sv : Semver Version) where
  abbrev pub Among : Version → List Version → Type 0
  Among v [] = ⊥
  Among v (w ∷ ws) = (v ≡ w) ⊎ Among v ws

  -- The text is the least version of the list, or empty where the list is.
  abbrev pub IsOldest : String → List Version → Type 0
  IsOldest text [] = text ≡ ""
  IsOldest text (v ∷ vs) =
      (a : Version) × (text ≡ sv.print a) × Among a (v ∷ vs) × All (λ w. sv.lt w a ≡ false) (v ∷ vs)

  abbrev pub IsLatest : String → List Version → Type 0
  IsLatest text [] = text ≡ ""
  IsLatest text (v ∷ vs) =
      (b : Version) × (text ≡ sv.print b) × Among b (v ∷ vs) × All (λ w. sv.lt b w ≡ false) (v ∷ vs)

  -- The info spans the versions seen.
  pub record Spans (f : FeatureLastUsedInfo) (seen : List Version) : Type 0 where
    pub oldest : IsOldest f.client_oldest_version seen
    pub latest : IsLatest f.client_latest_version seen

  -- The versions seen with one more text: a text that is no version adds none.
  abbrev pub seen_with : Option Version → List Version → List Version
  seen_with none vs = vs
  seen_with (some v) vs = v ∷ vs

  abbrev Succeeds : (FeatureLastUsedInfo → Type 0) → Versioned → Type 0
  Succeeds P (versioned f) = P f
  Succeeds P (parse_failed f) = ⊥

  module _ (laws : SemverLaws sv) where
    not_less : (u v w : Version) → sv.lt v w ≡ true → sv.lt u w ≡ false → sv.lt u v ≡ false
    not_less u v w h k = elim (Bool-cases (sv.lt u v)) [
      | inl e ↦ absurd (false-true (sym k ∙ laws.transitive u v w e h))
      | inr e ↦ e
    ]

    print-ne : (v : Version) → (sv.print v == "") ≡ false
    print-ne v =
        ne-eq (sv.print v) "" λ e.
          absurd (none-some (sym laws.parse_nothing ∙ ap sv.parse (sym e) ∙ laws.parse_print v))

    not_greater : (u v w : Version) → sv.lt u v ≡ true → sv.lt u w ≡ false → sv.lt v w ≡ false
    not_greater u v w h k = elim (Bool-cases (sv.lt v w)) [
      | inl e ↦ absurd (false-true (sym k ∙ laws.transitive u v w h e))
      | inr e ↦ e
    ]

    -- One end after one more client, with the other end untouched.
    abbrev OldestStep :
        FeatureLastUsedInfo → Option Version → List Version → FeatureLastUsedInfo → Type 0
    OldestStep f o vs f' =
        IsOldest f'.client_oldest_version (seen_with o vs)
        × (f'.client_latest_version ≡ f.client_latest_version)

    abbrev LatestStep :
        FeatureLastUsedInfo → Option Version → List Version → FeatureLastUsedInfo → Type 0
    LatestStep f o vs f' =
        IsLatest f'.client_latest_version (seen_with o vs)
        × (f'.client_oldest_version ≡ f.client_oldest_version)

    -- A stored version is not empty, and is parsed again.
    stored :
        (text : String) (a : Version)
        → text ≡ sv.print a
        → ((text == "") ≡ false) × (sv.parse text ≡ some a)
    stored text a e =
        (subst (λ t. (t == "") ≡ false) (sym e) (print-ne a), ap sv.parse e ∙ laws.parse_print a)

    set_oldest_of-step :
        (o : Option Version) (f : FeatureLastUsedInfo) (vs : List Version)
        → IsOldest f.client_oldest_version vs
        → Succeeds (OldestStep f o vs) (set_oldest_of sv o f)
    unfolding set_oldest_of older_of
    set_oldest_of-step none f vs h = (h, refl)
    set_oldest_of-step (some v) f [] h =
        rw ((eq_iff f.client_oldest_version "").1 h)
          ((v, refl, inl refl, (laws.irreflexive v, tt)), refl)
    set_oldest_of-step (some v) f (w ∷ ws) (a, e, among, least) =
        let (full, parsed) = stored f.client_oldest_version a e in
        rw (full, parsed)
          (if_ind (Succeeds (OldestStep f (some v) (w ∷ ws))) (sv.lt v a)
            (λ h. (
              (
                v,
                refl,
                inl refl,
                (
                  laws.irreflexive v,
                  All-map (λ u. sv.lt u a ≡ false) (λ u. sv.lt u v ≡ false) (w ∷ ws)
                      (λ u k. not_less u v a h k) least,
                ),
              ),
              refl,
            ))
            (λ h. ((a, e, inr among, (h, least)), refl)))

    set_latest_of-step :
        (o : Option Version) (f : FeatureLastUsedInfo) (vs : List Version)
        → IsLatest f.client_latest_version vs
        → Succeeds (LatestStep f o vs) (set_latest_of sv o f)
    unfolding set_latest_of newer_of
    set_latest_of-step none f vs h = (h, refl)
    set_latest_of-step (some v) f [] h =
        rw ((eq_iff f.client_latest_version "").1 h)
          ((v, refl, inl refl, (laws.irreflexive v, tt)), refl)
    set_latest_of-step (some v) f (w ∷ ws) (b, e, among, greatest) =
        let (full, parsed) = stored f.client_latest_version b e in
        rw (full, parsed)
          (if_ind (Succeeds (LatestStep f (some v) (w ∷ ws))) (sv.lt b v)
            (λ h. (
              (
                v,
                refl,
                inl refl,
                (
                  laws.irreflexive v,
                  All-map (λ u. sv.lt b u ≡ false) (λ u. sv.lt v u ≡ false) (w ∷ ws)
                      (λ u k. not_greater b v u h k) greatest,
                ),
              ),
              refl,
            ))
            (λ h. ((b, e, inr among, (h, greatest)), refl)))

    and_latest-Spans :
        (text : String) (f : FeatureLastUsedInfo) (vs : List Version) (r : Versioned)
        → IsLatest f.client_latest_version vs
        → Succeeds (OldestStep f (sv.parse text) vs) r
        → Succeeds (λ f'. Spans f' (seen_with (sv.parse text) vs)) (and_latest sv text r)
    unfolding and_latest set_latest_client_version
    and_latest-Spans text f vs (parse_failed g) h k = absurd k
    and_latest-Spans text f vs (versioned g) h (old, same) =
        by_end (set_latest_of sv (sv.parse text) g)
          (set_latest_of-step (sv.parse text) g vs (subst (λ t. IsLatest t vs) (sym same) h))
      where
        by_end :
            (r : Versioned)
            → Succeeds (LatestStep g (sv.parse text) vs) r
            → Succeeds (λ f'. Spans f' (seen_with (sv.parse text) vs)) r
        by_end (versioned f') (late, kept) = record {
          oldest = subst (λ t. IsOldest t (seen_with (sv.parse text) vs)) (sym kept) old;
          latest = late;
        }
        by_end (parse_failed f') k = absurd k

    -- An info that spans the versions seen takes one more text without an error, and then spans the
    -- versions with that text, where it is a version.
    pub set_client_version-Spans :
        (text : String) (f : FeatureLastUsedInfo) (seen : List Version)
        → Spans f seen
        → (f' : FeatureLastUsedInfo) × (set_client_version sv text f ≡ versioned f')
          × Spans f' (seen_with (sv.parse text) seen)
    unfolding set_client_version set_oldest_client_version
    set_client_version-Spans text f seen h =
        found (and_latest sv text (set_oldest_of sv (sv.parse text) f)) (
          and_latest-Spans text f seen (set_oldest_of sv (sv.parse text) f) h.latest
            (set_oldest_of-step (sv.parse text) f seen h.oldest))
      where
        found :
            (r : Versioned)
            → Succeeds (λ f'. Spans f' (seen_with (sv.parse text) seen)) r
            → (f' : FeatureLastUsedInfo) × (r ≡ versioned f')
              × Spans f' (seen_with (sv.parse text) seen)
        found (versioned f') k = (f', refl, k)
        found (parse_failed f') k = absurd k
