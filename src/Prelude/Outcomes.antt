-- ===== src/Prelude/Outcomes.antt =====
-- Outcomes of Go functions: a value, a returned error, or a run-time panic (an index out of
-- range or a nil pointer that is dereferenced).
use Prim.Native.Nat.{ℕ}
use mathlib.Core.Path.{◌≡◌, refl, subst}
use mathlib.Core.Logic.{◌≢◌}
use mathlib.Core.Bool.{Bool, true, false}
use mathlib.Core.Option.{Option, none, some}
use mathlib.Core.List.{List}
use bucketeer.Prelude.Tests.{is_some}
use bucketeer.Prelude.Lists.{get_elem?}

pub data Result (E A : Type 0) : Type 0 where
  ok : A → Result E A
  err : E → Result E A
  panic : Result E A

infixl 5 ◌>>=◌ ◌>>◌
abbrev pub ◌>>=◌ : {E A B : Type 0} → Result E A → (A → Result E B) → Result E B
ok a >>= f = f a
err e >>= f = err e
panic >>= f = panic

abbrev pub ◌>>◌ : {E B : Type 0} → Result E (Unit {0}) → Result E B → Result E B
m >> k = m >>= λ _. k

-- `if !b { return e }`.
abbrev pub guard : {E : Type 0} → Bool → E → Result E (Unit {0})
guard true e = ok tt
guard false e = err e

-- A pointer that is dereferenced.
abbrev pub deref : {E A : Type 0} → Option A → Result E A
deref none = panic
deref (some a) = ok a

-- `xs[i]`.
abbrev pub read : {E A : Type 0} → List A → ℕ → Result E A
read xs i = deref (get_elem? xs i)

-- The outcome where a search may fail with an error.
abbrev pub or_err : {E A : Type 0} → Option A → E → Result E A
or_err none e = err e
or_err (some a) e = ok a

-- No panic, and the value, if there is one, satisfies `P`.
abbrev pub Safe : {E A : Type 0} → (A → Type 0) → Result E A → Type 0
Safe P (ok a) = P a
Safe P (err e) = Unit
Safe P panic = ⊥

-- The value, if there is one, satisfies `P`.
abbrev pub Holds : {E A : Type 0} → (A → Type 0) → Result E A → Type 0
Holds P (ok a) = P a
Holds P (err e) = Unit
Holds P panic = Unit

pub Safe-ok : {E A : Type 0} (P : A → Type 0) (r : Result E A) (a : A) → Safe P r → r ≡ ok a → P a
Safe-ok P (ok b) a h e = subst P (cc) h
Safe-ok P (err x) a h e = cc
Safe-ok P panic a h e = cc

pub Safe-Holds : {E A : Type 0} (P : A → Type 0) (r : Result E A) → Safe P r → Holds P r
Safe-Holds P (ok b) h = h
Safe-Holds P (err x) h = tt
Safe-Holds P panic h = tt

pub Safe-bind :
    {E A B : Type 0} (P : A → Type 0) (Q : B → Type 0) (m : Result E A) (f : A → Result E B)
    → Safe P m
    → ((a : A) → P a → Safe Q (f a))
    → Safe Q (m >>= f)
Safe-bind P Q (ok a) f h k = k a h
Safe-bind P Q (err e) f h k = tt
Safe-bind P Q panic f h k = h

pub Holds-bind :
    {E A B : Type 0} (P : A → Type 0) (Q : B → Type 0) (m : Result E A) (f : A → Result E B)
    → Holds P m
    → ((a : A) → P a → Holds Q (f a))
    → Holds Q (m >>= f)
Holds-bind P Q (ok a) f h k = k a h
Holds-bind P Q (err e) f h k = tt
Holds-bind P Q panic f h k = tt

pub Holds-ok : {E A : Type 0} (P : A → Type 0) (r : Result E A) (a : A) → Holds P r → r ≡ ok a → P a
Holds-ok P (ok b) a h e = subst P (cc) h
Holds-ok P (err x) a h e = cc
Holds-ok P panic a h e = cc

pub Safe-map :
    {E A : Type 0} (P Q : A → Type 0) (r : Result E A) → ((a : A) → P a → Q a) → Safe P r → Safe Q r
Safe-map P Q (ok a) f h = f a h
Safe-map P Q (err e) f h = tt
Safe-map P Q panic f h = h

pub or_err-Safe : {E A : Type 0} (o : Option A) (e : E) → Safe (λ a. o ≡ some a) (or_err o e)
or_err-Safe none e = tt
or_err-Safe (some a) e = refl

pub guard-Safe : {E : Type 0} (b : Bool) (e : E) → Safe (λ _. b ≡ true) (guard b e)
guard-Safe true e = refl
guard-Safe false e = tt

-- `if _, err := …; err != nil { return e }`.
abbrev pub fail_as : {E A : Type 0} → Result E A → E → Result E (Unit {0})
fail_as (ok a) e = ok tt
fail_as (err x) e = err e
fail_as panic e = panic

pub fail_as-Safe :
    {E A : Type 0} (P : A → Type 0) (Q : Type 0) (r : Result E A) (e : E)
    → ((a : A) → P a → Q)
    → Safe P r
    → Safe (λ _. Q) (fail_as r e)
fail_as-Safe P Q (ok a) e f h = f a h
fail_as-Safe P Q (err x) e f h = tt
fail_as-Safe P Q panic e f h = h

pub Holds-trivial : {E A : Type 0} (r : Result E A) → Holds (λ _. Unit {0}) r
Holds-trivial (ok a) = tt
Holds-trivial (err x) = tt
Holds-trivial panic = tt

pub guard_trivial : {E : Type 0} (b : Bool) (e : E) → Safe (λ _. Unit {0}) (guard b e)
guard_trivial true e = tt
guard_trivial false e = tt

pub Holds-map :
    {E A : Type 0} (P Q : A → Type 0) (r : Result E A)
    → ((a : A) → P a → Q a)
    → Holds P r
    → Holds Q r
Holds-map P Q (ok a) f h = f a h
Holds-map P Q (err e) f h = tt
Holds-map P Q panic f h = tt

-- There is a value, and it satisfies `P`.
abbrev pub Returns : {E A : Type 0} → (A → Type 0) → Result E A → Type 0
Returns P (ok a) = P a
Returns P (err e) = ⊥
Returns P panic = ⊥

pub Returns-bind :
    {E A B : Type 0} (P : A → Type 0) (Q : B → Type 0) (m : Result E A) (f : A → Result E B)
    → Returns P m
    → ((a : A) → P a → Returns Q (f a))
    → Returns Q (m >>= f)
Returns-bind P Q (ok a) f h k = k a h
Returns-bind P Q (err e) f h k = h
Returns-bind P Q panic f h k = h

pub Returns-ok :
    {E A : Type 0} (P : A → Type 0) (r : Result E A) → Returns P r → (a : A) × (r ≡ ok a) × P a
Returns-ok P (ok a) h = (a, refl, h)
Returns-ok P (err e) h = absurd h
Returns-ok P panic h = absurd h

pub Returns-map :
    {E A : Type 0} (P Q : A → Type 0) (r : Result E A)
    → ((a : A) → P a → Q a)
    → Returns P r
    → Returns Q r
Returns-map P Q (ok a) f h = f a h
Returns-map P Q (err e) f h = h
Returns-map P Q panic f h = h

pub deref-Safe :
    (E : Type 0) {A : Type 0} (o : Option A)
    → is_some o ≡ true
    → Safe {E = E} (λ a. o ≡ some a) (deref o)
deref-Safe E none e = cc
deref-Safe E (some a) e = refl

-- The same start with another rest, where that rest succeeds with the same value.
pub bind_swap :
    {E A B : Type 0} (m : Result E A) (f g : A → Result E B) (b : B)
    → ((a : A) → f a ≡ ok b → g a ≡ ok b)
    → (m >>= f) ≡ ok b
    → (m >>= g) ≡ ok b
bind_swap (ok a) f g b k e = k a e
bind_swap (err x) f g b k e = cc
bind_swap panic f g b k e = cc

-- What follows a guard holds under its test.
pub guard_then :
    {E A : Type 0} (P : A → Type 0) (b : Bool) (e : E) (r : Result E A)
    → (b ≡ true → Safe P r)
    → Safe P (guard b e >> r)
guard_then P true e r f = f refl
guard_then P false e r f = tt

-- What follows a search holds of what it found.
pub found_then :
    {E A B : Type 0} (P : B → Type 0) (o : Option A) (e : E) (k : A → Result E B)
    → ((a : A) → o ≡ some a → Safe P (k a))
    → Safe P (or_err o e >>= k)
found_then P none e k f = tt
found_then P (some a) e k f = f a refl

pub none-some : {A : Type 0} {x : A} → none ≢ some x
none-some e = cc
