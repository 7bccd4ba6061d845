-- ===== src/Prelude/Decimal.antt =====
-- `%d` of fmt.Sprintf on integers, and of fmt.Sscanf on an unsigned 64-bit number.
use Prim.Native.Nat.{ℕ, zero, suc, ◌+◌, ◌-◌, ◌*◌, ◌/◌, ◌%◌, ◌<◌}
use Prim.Native.Char.{Char, code}
use Prim.Native.String.{String, ◌++◌}
use mathlib.Core.Path.{◌≡◌, refl, ◌∙◌, ap, sym}
use mathlib.Core.Logic.{inl, inr}
use mathlib.Core.Bool.{Bool, true, false, ◌&&◌, ◌||◌}
use mathlib.Core.Option.{Option, none, some}
use native.Mathlib.Omega.{arith}
use text.Mathlib.TextLemmas.{cons-append, nil-append}
use spectral_cloud.Prelude.Tests.{ltb, ltb→lt, leb, eqb, if◌then◌else◌, Bool-cases}
use spectral_cloud.Prelude.Int.{ℤ, pos, negsuc, word}

digit : ℕ → Char
digit zero = "0"
digit (suc zero) = "1"
digit (suc (suc zero)) = "2"
digit (suc (suc (suc zero))) = "3"
digit (suc (suc (suc (suc zero)))) = "4"
digit (suc (suc (suc (suc (suc zero))))) = "5"
digit (suc (suc (suc (suc (suc (suc zero)))))) = "6"
digit (suc (suc (suc (suc (suc (suc (suc zero))))))) = "7"
digit (suc (suc (suc (suc (suc (suc (suc (suc zero)))))))) = "8"
digit _ = "9"

code-digit : (d : ℕ) → d < 10 → code (digit d) ≡ 48 + d
unfolding digit
code-digit zero h = refl
code-digit (suc zero) h = refl
code-digit (suc (suc zero)) h = refl
code-digit (suc (suc (suc zero))) h = refl
code-digit (suc (suc (suc (suc zero)))) h = refl
code-digit (suc (suc (suc (suc (suc zero))))) h = refl
code-digit (suc (suc (suc (suc (suc (suc zero)))))) h = refl
code-digit (suc (suc (suc (suc (suc (suc (suc zero))))))) h = refl
code-digit (suc (suc (suc (suc (suc (suc (suc (suc zero)))))))) h = refl
code-digit (suc (suc (suc (suc (suc (suc (suc (suc (suc zero))))))))) h = refl
code-digit (suc (suc (suc (suc (suc (suc (suc (suc (suc (suc d)))))))))) h = absurd (omega arith)

show_onto : ℕ → ℕ → String → String
show_onto zero n tail = tail
show_onto (suc fuel) n tail =
    let longer = show_onto fuel (n / 10) (String.◌∷◌ (digit (n % 10)) tail) in
    if ltb n 10 then String.◌∷◌ (digit n) tail else longer

-- %d of an unsigned number; `n` has fewer digits than `n + 1`.
unfoldable pub show : ℕ → String
unfolding show_onto digit
show n = show_onto (suc n) n ""

-- %d of an `int`
unfoldable pub show_int : ℤ → String
unfolding show
show_int (pos n) = show n
show_int (negsuc n) = "-" ++ show (suc n)

abbrev is_digit : ℕ → Bool
is_digit c = leb 48 c && leb c 57

read_digits : ℕ → String → ℕ
read_digits n String.[] = n
read_digits n (String.◌∷◌ c s) =
    let more = read_digits (n * 10 + (code c - 48)) s in if is_digit (code c) then more else n

-- White space that a scan skips; a line break ends it.
is_blank : ℕ → Bool
is_blank c =
    eqb c 9
    || eqb c 11
    || eqb c 12
    || eqb c 13
    || eqb c 32
    || eqb c 0x85
    || eqb c 0xa0
    || eqb c 0x1680
    || (leb 0x2000 c && leb c 0x200a)
    || eqb c 0x2028
    || eqb c 0x2029
    || eqb c 0x202f
    || eqb c 0x205f
    || eqb c 0x3000

skip_blanks : String → String
skip_blanks String.[] = ""
skip_blanks (String.◌∷◌ c s) =
    let rest = skip_blanks s in if is_blank (code c) then rest else String.◌∷◌ c s

-- What the variable holds after the scan: 0 where the scan fails or the number does not fit.
unfoldable pub scan : String → ℕ
unfolding skip_blanks is_blank read_digits
scan s = let n = read_digits 0 (skip_blanks s) in if ltb n word then n else 0

-- s[len(p):], if strings.HasPrefix(s, p)
unfoldable pub strip_prefix : String → String → Option String
strip_prefix String.[] s = some s
strip_prefix (String.◌∷◌ c p) String.[] = none
strip_prefix (String.◌∷◌ c p) (String.◌∷◌ d s) =
    let rest = strip_prefix p s in if eqb (code c) (code d) then rest else none

pub strip_prefix-append : (p s : String) → strip_prefix p (p ++ s) ≡ some s
unfolding strip_prefix
strip_prefix-append String.[] s = rw nil-append
strip_prefix-append (String.◌∷◌ c p) s = rw cons-append (ground (arith, strip_prefix-append p s))

read_digits-digit :
    (m d : ℕ) (tail : String)
    → d < 10
    → read_digits m (String.◌∷◌ (digit d) tail) ≡ read_digits (m * 10 + d) tail
unfolding read_digits
read_digits-digit m d tail h =
    let c = code-digit d h in
    let v : code (digit d) - 48 ≡ d = omega arith in
    rw c (rw (in_digits d h) (ap (λ k. read_digits (m * 10 + k) tail) (omega arith)))
  where
    in_digits : (d : ℕ) → d < 10 → is_digit (48 + d) ≡ true
    in_digits d h = ground arith

read_digits-show_onto :
    (fuel n : ℕ) (tail : String)
    → n < fuel
    → read_digits 0 (show_onto fuel n tail) ≡ read_digits n tail
unfolding show_onto
read_digits-show_onto zero n tail h = absurd (omega arith)
read_digits-show_onto (suc fuel) n tail h = elim (Bool-cases (ltb n 10)) [
  | inl e ↦
      rw e (read_digits-digit 0 n tail (ltb→lt n 10 e) ∙ ap (λ k. read_digits k tail) (omega arith))
  | inr e ↦ rw e (
      read_digits-show_onto fuel (n / 10) (String.◌∷◌ (digit (n % 10)) tail) (ground arith)
      ∙ read_digits-digit (n / 10) (n % 10) tail (omega arith)
      ∙ ap (λ k. read_digits k tail) (omega arith))
]

skip_blanks-digit :
    (d : ℕ) (tail : String)
    → d < 10
    → skip_blanks (String.◌∷◌ (digit d) tail) ≡ String.◌∷◌ (digit d) tail
unfolding skip_blanks is_blank
skip_blanks-digit d tail h = let c = code-digit d h in rw c (rw (not_blank d h))
  where
    not_blank : (d : ℕ) → d < 10 → is_blank (48 + d) ≡ false
    not_blank d h = ground arith

skip_blanks-show_onto :
    (fuel n : ℕ) (tail : String)
    → n < fuel
    → skip_blanks (show_onto fuel n tail) ≡ show_onto fuel n tail
unfolding show_onto
skip_blanks-show_onto zero n tail h = absurd (omega arith)
skip_blanks-show_onto (suc fuel) n tail h = elim (Bool-cases (ltb n 10)) [
  | inl e ↦ rw e (skip_blanks-digit n tail (ltb→lt n 10 e))
  | inr e ↦ rw e (skip_blanks-show_onto fuel (n / 10) _ (ground arith))
]

digits-show : (n : ℕ) → read_digits 0 (skip_blanks (show n)) ≡ n
digits-show n =
    ap (λ t. read_digits 0 (skip_blanks t)) (show_lem n)
    ∙ ap (read_digits 0) (skip_blanks-show_onto (suc n) n "" (omega arith))
    ∙ read_digits-show_onto (suc n) n "" (omega arith)
    ∙ read_digits-nil n
  where
    show_lem : (n : ℕ) → show n ≡ show_onto (suc n) n ""
    show_lem n = unfold show in refl

    read_digits-nil : (n : ℕ) → read_digits n "" ≡ n
    read_digits-nil n = unfold read_digits in refl

scan_of_digits : (s : String) (n : ℕ) → read_digits 0 (skip_blanks s) ≡ n → n < word → scan s ≡ n
unfolding scan
scan_of_digits s n e h = ground arith

-- A 64-bit number is read back from what it is printed as.
pub scan-show : (n : ℕ) → n < word → scan (show n) ≡ n
scan-show n h = scan_of_digits (show n) n (digits-show n) h

pub show-injective : (m n : ℕ) → show m ≡ show n → m ≡ n
show-injective m n e =
    sym (digits-show m) ∙ ap (λ t. read_digits 0 (skip_blanks t)) e ∙ digits-show n

scan_examples : (scan " 12x" ≡ 12) × (scan "x" ≡ 0) × (scan "18446744073709551616" ≡ 0)
unfolding scan
scan_examples = (refl, refl, refl)
