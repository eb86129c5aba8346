-- ===== src/Prelude/Int.antt =====
-- Signed integers over the native numbers: Go's int32 and int64 values.
use Prim.Native.Nat.{ℕ, suc, ◌+◌, ◌-◌}
use mathlib.Core.Bool.{Bool}
use bucketeer.Prelude.Tests.{eqb, ltb, leb, if◌then◌else◌}

-- `negsuc n` is -(n + 1).
pub data ℤ : Type 0 where
  pos : ℕ → ℤ
  negsuc : ℕ → ℤ

abbrev pub pos_part : ℤ → ℕ
pos_part (pos n) = n
pos_part (negsuc n) = 0

abbrev pub neg_part : ℤ → ℕ
neg_part (pos n) = 0
neg_part (negsuc n) = suc n

-- a - b, as an integer.
abbrev pub sub_ℕ : ℕ → ℕ → ℤ
sub_ℕ a b = if leb b a then pos (a - b) else negsuc (b - a - 1)

infixl 65 ◌+ℤ◌ ◌-ℤ◌
unfoldable pub ◌+ℤ◌ : ℤ → ℤ → ℤ
a +ℤ b = sub_ℕ (pos_part a + pos_part b) (neg_part a + neg_part b)

unfoldable pub ◌-ℤ◌ : ℤ → ℤ → ℤ
a -ℤ b = sub_ℕ (pos_part a + neg_part b) (neg_part a + pos_part b)

abbrev pub ltb_ℤ : ℤ → ℤ → Bool
ltb_ℤ a b = ltb (pos_part a + neg_part b) (pos_part b + neg_part a)

abbrev pub leb_ℤ : ℤ → ℤ → Bool
leb_ℤ a b = leb (pos_part a + neg_part b) (pos_part b + neg_part a)

abbrev pub eqb_ℤ : ℤ → ℤ → Bool
eqb_ℤ a b = eqb (pos_part a + neg_part b) (pos_part b + neg_part a)

-- `v++` on an int32 wraps at its largest value.
unfoldable pub next_int32 : ℤ → ℤ
next_int32 v = if eqb_ℤ v (pos 2147483647) then negsuc 2147483647 else v +ℤ pos 1

-- `a - b` on int64 values: the difference leaves the range by less than its width.
unfoldable pub sub_int64 : ℤ → ℤ → ℤ
sub_int64 a b =
    let d = a -ℤ b in
    if ltb_ℤ (pos 9223372036854775807) d
    then d -ℤ pos 18446744073709551616
    else if ltb_ℤ d (negsuc 9223372036854775807)
    then d +ℤ pos 18446744073709551616
    else d

-- `a + b` on int64 values.
unfoldable pub add_int64 : ℤ → ℤ → ℤ
add_int64 a b =
    let d = a +ℤ b in
    if ltb_ℤ (pos 9223372036854775807) d
    then d -ℤ pos 18446744073709551616
    else if ltb_ℤ d (negsuc 9223372036854775807)
    then d +ℤ pos 18446744073709551616
    else d
