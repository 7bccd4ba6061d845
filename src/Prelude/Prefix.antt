-- ===== src/Prelude/Prefix.antt =====
-- What a text with a prefix is.
use Prim.Native.Nat.{ℕ}
use Prim.Native.Char.{code}
use Prim.Native.String.{String, ◌++◌}
use mathlib.Core.Path.{◌≡◌, sym, ap, ◌∙◌}
use mathlib.Core.Option.{some, some-injective}
use mathlib.Core.Bool.{true}
use mathlib.Core.Logic.{inl, inr}
use native.Mathlib.Omega.{arith}
use text.Mathlib.TextLemmas.{cons-append, nil-append}
use text.Mathlib.TextEquality.{Char-path}
use spectral_cloud.Prelude.Tests.{eqb, Bool-cases}
use spectral_cloud.Prelude.Decimal.{strip_prefix}

eqb_eq : (m n : ℕ) → eqb m n ≡ true → m ≡ n
eqb_eq m n e = ground (arith, e)

pub append-strip_prefix : (p s r : String) → strip_prefix p s ≡ some r → s ≡ p ++ r
unfolding strip_prefix
append-strip_prefix String.[] s r h = some-injective s r h ∙ sym (nil-append r)
append-strip_prefix (String.◌∷◌ c p) String.[] r h = absurd (ground (arith, h))
append-strip_prefix (String.◌∷◌ c p) (String.◌∷◌ d s) r h =
    elim (Bool-cases (eqb (code c) (code d))) [
      | inl e ↦
          let same : c ≡ d = Char-path c d (eqb_eq (code c) (code d) e) in
          let rest : strip_prefix p s ≡ some r = ground (arith, h, e) in
          ap (λ x. String.◌∷◌ x s) (sym same)
          ∙ ap (String.◌∷◌ c) (append-strip_prefix p s r rest)
          ∙ sym (cons-append c p r)
      | inr e ↦ absurd (ground (arith, h, e))
    ]
