-- ===== src/Prelude/Bytes.antt =====
-- The bytes of a text, and the comparison of two signatures in constant time: the same loop stands
-- in pkg/blockchain (`VerifySignature`) and in pkg/mesh (`secureEquals`).
use Prim.Native.Nat.{ℕ, ◌+◌, ◌/◌, ◌%◌, bit_or, bit_xor}
use Prim.Native.Char.{code}
use Prim.Native.String.{String}
use mathlib.Core.Path.{◌≡◌, refl}
use mathlib.Core.Logic.{◌↔◌}
use mathlib.Core.Bool.{Bool, true, false}
use mathlib.Core.List.{List, [], ◌∷◌, ◌++◌}
use native.Mathlib.Omega.{arith}
use spectral_cloud.Prelude.Tests.{ltb, eqb, if◌then◌else◌}
use spectral_cloud.Prelude.Lists.{length}
use spectral_cloud.Prelude.Bits.{bit_xor-zero, bit_xor_self, bit_or-zero}

-- UTF-8
unfoldable pub utf8 : ℕ → List ℕ
utf8 c =
    if ltb c 0x80
    then c ∷ []
    else if ltb c 0x800
    then (0xc0 + c / 64) ∷ (0x80 + c % 64) ∷ []
    else if ltb c 0x10000
    then (0xe0 + c / 4096) ∷ (0x80 + c / 64 % 64) ∷ (0x80 + c % 64) ∷ []
    else (0xf0 + c / 262144) ∷ (0x80 + c / 4096 % 64) ∷ (0x80 + c / 64 % 64) ∷ (0x80 + c % 64) ∷ []

unfoldable pub bytes : String → List ℕ
unfolding utf8
bytes String.[] = []
bytes (String.◌∷◌ c s) = utf8 (code c) ++ bytes s

-- for i := range a { diff |= a[i] ^ b[i] }
unfoldable pub diff_from : ℕ → List ℕ → List ℕ → ℕ
diff_from diff [] ys = diff
diff_from diff (x ∷ xs) [] = diff
diff_from diff (x ∷ xs) (y ∷ ys) = diff_from (bit_or diff (bit_xor x y)) xs ys

unfoldable pub same_bytes : List ℕ → List ℕ → Bool
unfolding diff_from
same_bytes a b = if eqb (length a) (length b) then eqb (diff_from 0 a b) 0 else false

diff_from-zero :
    (d : ℕ) (a b : List ℕ) → length a ≡ length b → diff_from d a b ≡ 0 → (d ≡ 0) × (a ≡ b)
unfolding diff_from
diff_from-zero d [] [] h e = (e, refl)
diff_from-zero d [] (y ∷ b) h e = absurd (omega arith)
diff_from-zero d (x ∷ a) [] h e = absurd (omega arith)
diff_from-zero d (x ∷ a) (y ∷ b) h e =
    let (here, rest) = diff_from-zero (bit_or d (bit_xor x y)) a b (omega arith) e in
    let (d0, xy0) = bit_or-zero d (bit_xor x y) here in (d0, cc (rest, bit_xor-zero x y xy0))

diff_from_self : (a : List ℕ) → diff_from 0 a a ≡ 0
unfolding diff_from
diff_from_self [] = refl
diff_from_self (x ∷ a) = rw (bit_xor_self x) (diff_from_self a)

-- The loop decides equality.
pub same_bytes_iff : (a b : List ℕ) → (same_bytes a b ≡ true) ↔ (a ≡ b)
unfolding same_bytes
same_bytes_iff a b = (
  λ h. (diff_from-zero 0 a b (ground arith) (ground arith)).1,
  λ e. rw (← e) (ground (arith, diff_from_self a)),
)

-- a < b on strings, byte by byte
unfoldable pub bytes_less : List ℕ → List ℕ → Bool
bytes_less xs [] = false
bytes_less [] (y ∷ ys) = true
bytes_less (x ∷ xs) (y ∷ ys) =
    let rest = bytes_less xs ys in if ltb x y then true else if ltb y x then false else rest

unfoldable pub text_less : String → String → Bool
unfolding bytes_less
text_less a b = bytes_less (bytes a) (bytes b)
