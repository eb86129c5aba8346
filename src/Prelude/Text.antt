-- ===== src/Prelude/Text.antt =====
-- Equality of texts, shut, with the lemmas that stand for it in proofs. Go's `==` on strings.
use Prim.Native.String.{String}
use mathlib.Core.Path.{◌≡◌, refl}
use mathlib.Core.Logic.{◌↔◌, ◌≢◌, inl, inr}
use mathlib.Core.Bool.{Bool, true, false}
use text.Mathlib.Text.{◌==◌ as str_eq}
use text.Mathlib.TextEquality.{eq_iff as str_eq_iff}
use bucketeer.Prelude.Tests.{Bool-cases}

infix 50 ◌==◌
unfoldable pub ◌==◌ : String → String → Bool
s == t = str_eq s t

pub eq_iff : (s t : String) → ((s == t) ≡ true) ↔ (s ≡ t)
unfolding ◌==◌
eq_iff s t = str_eq_iff s t

pub eq_refl : (s : String) → (s == s) ≡ true
eq_refl s = (eq_iff s s).1 refl

pub eq-false : (s t : String) → (s == t) ≡ false → s ≢ t
eq-false s t h e = cc ((eq_iff s t).1 e)

pub ne-eq : (s t : String) → s ≢ t → (s == t) ≡ false
ne-eq s t h = elim (Bool-cases (s == t)) [ inl e ↦ absurd (h ((eq_iff s t).0 e)) | inr e ↦ e ]
