-- ===== src/Prelude/Int.antt =====
-- Go's `int` and `int64` as integers over the native numbers, with their wrap-around.
use Prim.Native.Nat.{ℕ, suc, ◌+◌, ◌-◌, ◌%◌, ◌^◌, ◌≤◌, ◌<◌}
use mathlib.Core.Path.{◌≡◌, refl}
use mathlib.Core.Bool.{Bool}
use native.Mathlib.Omega.{arith}
use spectral_cloud.Prelude.Tests.{ltb, leb, eqb, if◌then◌else◌}

-- `negsuc n` is -(n + 1).
pub data ℤ : Type 0 where
  pos : ℕ → ℤ
  negsuc : ℕ → ℤ

abbrev pub pos_part : ℤ → ℕ
pos_part (pos n) = n
pos_part (negsuc n) = 0

abbrev pub neg_part : ℤ → ℕ
neg_part (pos n) = 0
neg_part (negsuc n) = suc n

-- a - b, as an integer.
abbrev pub sub_ℕ : ℕ → ℕ → ℤ
sub_ℕ a b = if leb b a then pos (a - b) else negsuc (b - a - 1)

infixl 65 ◌+ℤ◌ ◌-ℤ◌
infix 50 ◌≤ℤ◌ ◌<ℤ◌
abbrev pub ◌+ℤ◌ : ℤ → ℤ → ℤ
a +ℤ b = sub_ℕ (pos_part a + pos_part b) (neg_part a + neg_part b)

abbrev pub ◌-ℤ◌ : ℤ → ℤ → ℤ
a -ℤ b = sub_ℕ (pos_part a + neg_part b) (neg_part a + pos_part b)

abbrev pub ◌≤ℤ◌ : ℤ → ℤ → Type 0
a ≤ℤ b = pos_part a + neg_part b ≤ pos_part b + neg_part a

abbrev pub ◌<ℤ◌ : ℤ → ℤ → Type 0
a <ℤ b = pos_part a + neg_part b < pos_part b + neg_part a

abbrev pub ltb_ℤ : ℤ → ℤ → Bool
ltb_ℤ a b = ltb (pos_part a + neg_part b) (pos_part b + neg_part a)

abbrev pub leb_ℤ : ℤ → ℤ → Bool
leb_ℤ a b = leb (pos_part a + neg_part b) (pos_part b + neg_part a)

abbrev pub eqb_ℤ : ℤ → ℤ → Bool
eqb_ℤ a b = eqb (pos_part a + neg_part b) (pos_part b + neg_part a)

abbrev pub word : ℕ
word = 2 ^ 64

abbrev pub half_word : ℕ
half_word = 2 ^ 63

-- The residue modulo 2^64, then read as a two's complement number.
abbrev pub residue : ℤ → ℕ
residue (pos n) = n % word
residue (negsuc n) = word - 1 - n % word

abbrev pub signed : ℕ → ℤ
signed u = if ltb u half_word then pos u else negsuc (word - 1 - u)

-- What an `int64` holds after a computation with the exact result `z`.
unfoldable pub wrap : ℤ → ℤ
wrap z = signed (residue z)

pub wrap_in_range : (n : ℕ) → n < half_word → wrap (pos n) ≡ pos n
unfolding wrap
wrap_in_range n h = ground arith

-- `x++` on an `int`
unfoldable pub incr : ℤ → ℤ
unfolding wrap
incr z = wrap (z +ℤ pos 1)

pub incr_in_range : (n : ℕ) → n + 1 < half_word → incr (pos n) ≡ pos (n + 1)
unfolding incr
incr_in_range n h = ground arith

wrap_examples : (wrap (pos half_word) ≡ negsuc (half_word - 1)) × (incr (negsuc 0) ≡ pos 0)
unfolding incr
wrap_examples = (refl, refl)
