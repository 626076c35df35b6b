-- ===== src/Stream/Nonzas/Tests.antt =====
-- Numbers in unary, which meet the laws that the elements of stream management use.
use qxmpp.Common.{ℕ, zero, suc, ◌≡◌, refl, arith, [], ◌∷◌, Text, length}
use qxmpp.Stream.Nonzas.{Numbers}

abbrev strokes : ℕ → Text
strokes zero = []
strokes (suc n) = 49 ∷ strokes n

length-strokes : (n : ℕ) → length (strokes n) ≡ n
length-strokes zero = refl
length-strokes (suc n) = omega (arith, length-strokes n)

abbrev unary : Numbers
unary = record {
  number = strokes;
  to_uint = length;
  to_u_long_long = length;
  to_uint-number = λ n fits. length-strokes n;
  to_u_long_long-number = λ n fits. length-strokes n;
  to_u_long_long-empty = refl;
}
