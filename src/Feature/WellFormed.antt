-- ===== src/Feature/WellFormed.antt =====
-- When a feature of pkg/feature/domain is consistent, and the facts about its searches.
pub mod Settings
pub mod Targets
pub mod Rules
pub mod Clauses
pub mod Variations
pub mod Rollouts
pub mod RoundTrip
pub mod Create
use bucketeer.Prelude.{
  deref, ℤ, pos, ℕ, String, Bool, true, false, List, [], ◌∷◌, ◌++◌, map, Option, none, some, ◌≡◌,
  refl, if_ind, Safe-map, zero, suc, ◌++◌, false, erase_at, contains-append, arith, ◌||◌,
  if◌then◌else◌, ltb_ℤ, contains, index_by, All, Result, ok, err, panic, Safe, get_elem?, read,
  or_err, guard, get_elem?-index_by, All-map, eq_iff, ◌==◌, arith,
}
use bucketeer.Feature.Model.{
  Error, variation_not_found, Variation, Target, Strategy, StrategyType, FixedStrategy,
  RolloutStrategy, RolloutVariation, Rule, Feature,
}
use bucketeer.Feature.Lookup.{variation_ids, target_variation, rule_id, find_variation}

-- No text occurs twice.
abbrev pub Unique : List String → Type 0
Unique [] = Unit
Unique (x ∷ xs) = (contains x xs ≡ false) × Unique xs

abbrev pub Known : List String → String → Type 0
Known ids v = contains v ids ≡ true

abbrev pub ServesFixed : List String → Option FixedStrategy → Type 0
ServesFixed ids none = ⊥
ServesFixed ids (some s) = Known ids s.variation

-- Only the entries with a positive weight count: the others are never chosen.
abbrev pub ServesEntry : List String → RolloutVariation → Type 0
ServesEntry ids v = ltb_ℤ (pos 0) v.weight ≡ true → Known ids v.variation

abbrev pub ServesRollout : List String → Option RolloutStrategy → Type 0
ServesRollout ids none = ⊥
ServesRollout ids (some s) = All (ServesEntry ids) s.variations

abbrev pub ServesType : List String → StrategyType → Strategy → Type 0
ServesType ids StrategyType.fixed s = ServesFixed ids s.fixed_strategy
ServesType ids StrategyType.rollout s = ServesRollout ids s.rollout_strategy
ServesType ids (StrategyType.unknown n) s = ⊥

-- The strategy is there, has a type with its part, and can choose known variations only.
abbrev pub Serves : List String → Option Strategy → Type 0
Serves ids none = ⊥
Serves ids (some s) = ServesType ids s.type s

abbrev pub RuleServes : List String → Rule → Type 0
RuleServes ids r = Serves ids r.strategy

abbrev pub UniqueUsers : Target → Type 0
UniqueUsers t = Unique t.users

pub record Consistent (targets : List Target) (variations : List Variation) (off : String)
    (default_strategy : Option Strategy) (rules : List Rule) : Type 0 where
  -- One target for each variation, in the same order.
  pub aligned : map target_variation targets ≡ variation_ids variations
  pub off_known : Known (variation_ids variations) off
  pub default_serves : Serves (variation_ids variations) default_strategy
  pub rules_serve : All (RuleServes (variation_ids variations)) rules
  pub rules_unique : Unique (map rule_id rules)
  pub users_unique : All UniqueUsers targets

abbrev pub WellFormed : Feature → Type 0
WellFormed f = Consistent f.targets f.variations f.off_variation f.default_strategy f.rules

pub Unique-append :
    (xs : List String) (y : String) → Unique xs → contains y xs ≡ false → Unique (xs ++ y ∷ [])
unfolding contains
Unique-append [] y u h = (refl, tt)
Unique-append (x ∷ xs) y u h = (
  ground (arith, contains-append x xs (y ∷ []), eq_iff x y, eq_iff y x),
  Unique-append xs y u.1 (ground arith),
)

contains-erase_at :
    (x : String) (xs : List String) (i : ℕ)
    → contains x xs ≡ false
    → contains x (erase_at xs i) ≡ false
unfolding contains erase_at
contains-erase_at x [] i h = refl
contains-erase_at x (y ∷ ys) zero h = ground arith
contains-erase_at x (y ∷ ys) (suc i) h = ground (arith, contains-erase_at x ys i)

pub Unique-erase_at : (xs : List String) (i : ℕ) → Unique xs → Unique (erase_at xs i)
unfolding erase_at
Unique-erase_at [] i u = tt
Unique-erase_at (x ∷ xs) zero u = u.1
Unique-erase_at (x ∷ xs) (suc i) u = (contains-erase_at x xs i u.0, Unique-erase_at xs i u.1)

pub read-Safe :
    {A : Type 0} (key : A → String) (k : String) (xs : List A) (i : ℕ)
    → index_by key k xs ≡ some i
    → Safe {E = Error} (λ x. (get_elem? xs i ≡ some x) × (key x ≡ k)) (read xs i)
read-Safe key k xs i h = let (x, at, named) = get_elem?-index_by key k xs i h in rw at (refl, named)

-- `find_variation` answers a variation of the list with the id sought.
pub find_variation-Safe :
    (v : String) (vs : List Variation)
    → Safe (λ x. (x.id ≡ v) × Known (variation_ids vs) v) (find_variation v vs)
unfolding find_variation contains
find_variation-Safe v [] = tt
find_variation-Safe v (x ∷ vs) =
    if_ind (Safe (λ y. (y.id ≡ v) × Known (variation_ids (x ∷ vs)) v)) (x.id == v)
      (λ e. ((eq_iff x.id v).0 e, rw e))
      (λ e. Safe-map _ _ (find_variation v vs) (λ y h. (h.0, rw e h.1)) (find_variation-Safe v vs))

-- A strategy stays served where every known variation stays known.
pub Serves-mono :
    (ids ids' : List String) (s : Option Strategy)
    → ((v : String) → Known ids v → Known ids' v)
    → Serves ids s
    → Serves ids' s
Serves-mono ids ids' none more h = h
Serves-mono ids ids' (some s) more h = by_type s.type s.fixed_strategy s.rollout_strategy h
  where
    by_type :
        (t : StrategyType) (f : Option FixedStrategy) (r : Option RolloutStrategy)
        → ServesType ids t (record { type = t; fixed_strategy = f; rollout_strategy = r })
        → ServesType ids' t (record { type = t; fixed_strategy = f; rollout_strategy = r })
    by_type StrategyType.fixed (some x) r h = more x.variation h
    by_type StrategyType.fixed none r h = h
    by_type StrategyType.rollout f (some x) h =
        All-map (ServesEntry ids) (ServesEntry ids') x.variations (λ v k e. more v.variation (k e))
          h
    by_type StrategyType.rollout f none h = h
    by_type (StrategyType.unknown n) f r h = h

-- A rule of a consistent feature has a strategy.
pub deref_strategy-Safe :
    (ids : List String) (o : Option Strategy)
    → Serves ids o
    → Safe {E = Error} (λ s. Serves ids (some s)) (deref o)
deref_strategy-Safe ids none h = h
deref_strategy-Safe ids (some s) h = h
