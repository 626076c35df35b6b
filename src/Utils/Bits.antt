-- ===== src/Utils/Bits.antt =====
-- Laws of exclusive or on numbers, from its binary digits.
use Prim.Native.Nat.{bit_xor, bit_xor-bitwise, digits, differ}
use qxmpp.Common.{ℕ, zero, suc, ◌+◌, ◌*◌, ◌/◌, ◌%◌, ◌^◌, ◌≤◌, ◌<◌, ◌≡◌, refl, ap, arith}

abbrev xor_digits : ℕ → ℕ → ℕ → ℕ
xor_digits n a b = digits (λ b. b) differ n a b

xor_digits_fuel : (n m a b : ℕ) → a ≤ n → a ≤ m → xor_digits n a b ≡ xor_digits m a b
xor_digits_fuel zero zero a b p q = refl
xor_digits_fuel zero (suc m) zero b p q = refl
xor_digits_fuel zero (suc m) (suc a) b p q = absurd (omega arith)
xor_digits_fuel (suc n) zero zero b p q = refl
xor_digits_fuel (suc n) zero (suc a) b p q = absurd (omega arith)
xor_digits_fuel (suc n) (suc m) zero b p q = refl
xor_digits_fuel (suc n) (suc m) (suc a) b p q =
    omega (arith, xor_digits_fuel n m (suc a / 2) (b / 2) (omega arith) (omega arith))

zero-bit_xor : (b : ℕ) → bit_xor 0 b ≡ b
zero-bit_xor b = bit_xor-bitwise 0 b

-- The lowest digits differ or not.
abbrev low : ℕ → ℕ → ℕ
low a b = (a % 2 + b % 2) % 2

differ_small : (x y : ℕ) → x < 2 → y < 2 → differ x y ≡ (x + y) % 2
differ_small zero y p q = omega arith
differ_small (suc x) zero p q = omega arith
differ_small (suc zero) (suc y) p q = omega arith
differ_small (suc (suc x)) (suc y) p q = absurd (omega arith)

differ_lem : (a b : ℕ) → differ (a % 2) (b % 2) ≡ low a b
differ_lem a b = differ_small (a % 2) (b % 2) (omega arith) (omega arith)

pub bit_xor_step : (a b : ℕ) → bit_xor a b ≡ bit_xor (a / 2) (b / 2) * 2 + low a b
bit_xor_step zero b = omega (arith, zero-bit_xor b, zero-bit_xor (b / 2))
bit_xor_step (suc a) b = omega (
  arith,
  bit_xor-bitwise (suc a) b,
  bit_xor-bitwise (suc a / 2) (b / 2),
  differ_lem (suc a) b,
  xor_digits_fuel a (suc a / 2) (suc a / 2) (b / 2) (omega arith) (omega arith),
)

pub bit_xor-lt : (k a b : ℕ) → a < 2 ^ k → b < 2 ^ k → bit_xor a b < 2 ^ k
bit_xor-lt zero a b p q = rw a_zero (rw (zero-bit_xor b) q)
  where
    a_zero : a ≡ 0
    a_zero = omega arith
bit_xor-lt (suc k) a b p q =
    omega (arith, bit_xor_step a b, bit_xor-lt k (a / 2) (b / 2) (omega arith) (omega arith))

bit_xor_self_fuel : (n b : ℕ) → b ≤ n → bit_xor b b ≡ 0
bit_xor_self_fuel zero b h = let e : b ≡ 0 = omega arith in rw e
bit_xor_self_fuel (suc n) b h =
    omega (arith, bit_xor_step b b, bit_xor_self_fuel n (b / 2) (omega arith))

bit_xor_self : (b : ℕ) → bit_xor b b ≡ 0
bit_xor_self b = bit_xor_self_fuel b b (omega arith)

pub half-bit_xor : (a b : ℕ) → bit_xor a b / 2 ≡ bit_xor (a / 2) (b / 2)
half-bit_xor a b = omega (arith, bit_xor_step a b)

xor_twice_fuel : (n a b : ℕ) → a ≤ n → bit_xor (bit_xor a b) b ≡ a
xor_twice_fuel zero a b h = rw a_zero (rw (zero-bit_xor b) (bit_xor_self b))
  where
    a_zero : a ≡ 0
    a_zero = omega arith
xor_twice_fuel (suc n) a b h = omega (
  arith,
  bit_xor_step a b,
  bit_xor_step (bit_xor a b) b,
  ap (λ (t : ℕ). bit_xor t (b / 2)) (half-bit_xor a b),
  xor_twice_fuel n (a / 2) (b / 2) (omega arith),
)

-- To mask twice is to do nothing.
pub bit_xor_twice : (a b : ℕ) → bit_xor (bit_xor a b) b ≡ a
bit_xor_twice a b = xor_twice_fuel a a b (omega arith)

xor_comm_fuel : (n a b : ℕ) → a ≤ n → b ≤ n → bit_xor a b ≡ bit_xor b a
xor_comm_fuel zero a b p q =
    let ea : a ≡ 0 = omega arith in let eb : b ≡ 0 = omega arith in rw (ea, eb)
xor_comm_fuel (suc n) a b p q = omega (
  arith,
  bit_xor_step a b,
  bit_xor_step b a,
  xor_comm_fuel n (a / 2) (b / 2) (omega arith) (omega arith),
)

pub bit_xor_comm : (a b : ℕ) → bit_xor a b ≡ bit_xor b a
bit_xor_comm a b = xor_comm_fuel (a + b) a b (omega arith) (omega arith)

xor_assoc_fuel : (n a b c : ℕ) → a ≤ n → bit_xor (bit_xor a b) c ≡ bit_xor a (bit_xor b c)
xor_assoc_fuel zero a b c p =
    let e : a ≡ 0 = omega arith in rw (e, zero-bit_xor b, zero-bit_xor (bit_xor b c))
xor_assoc_fuel (suc n) a b c p = omega (
  arith,
  bit_xor_step a b,
  bit_xor_step b c,
  bit_xor_step (bit_xor a b) c,
  bit_xor_step a (bit_xor b c),
  ap (λ (t : ℕ). bit_xor t (c / 2)) (half-bit_xor a b),
  ap (λ (t : ℕ). bit_xor (a / 2) t) (half-bit_xor b c),
  xor_assoc_fuel n (a / 2) (b / 2) (c / 2) (omega arith),
)

pub bit_xor_assoc : (a b c : ℕ) → bit_xor (bit_xor a b) c ≡ bit_xor a (bit_xor b c)
bit_xor_assoc a b c = xor_assoc_fuel a a b c (omega arith)

-- A mask on both sides cancels, and one on a side moves out.
pub bit_xor_cancel : (a b m : ℕ) → bit_xor (bit_xor a m) (bit_xor b m) ≡ bit_xor a b
bit_xor_cancel a b m =
    rw (bit_xor_assoc a m (bit_xor b m), bit_xor_comm m (bit_xor b m), bit_xor_twice b m)

pub bit_xor_right_comm : (a b m : ℕ) → bit_xor (bit_xor a m) b ≡ bit_xor (bit_xor a b) m
bit_xor_right_comm a b m = rw (bit_xor_assoc a m b, bit_xor_comm m b, bit_xor_assoc a b m)

-- Numbers with no digit in common: a multiple of 2 ^ k, and one below it.
pub bit_xor_join : (k h l : ℕ) → l < 2 ^ k → bit_xor (h * 2 ^ k) l ≡ h * 2 ^ k + l
bit_xor_join zero h l p =
    let e : l ≡ 0 = omega arith in
    rw (e, bit_xor_comm (h * 2 ^ 0) 0, zero-bit_xor (h * 2 ^ 0)) (omega arith)
bit_xor_join (suc k) h l p =
    let double : h * 2 ^ suc k ≡ h * 2 ^ k * 2 =
      let pow : 2 ^ suc k ≡ 2 * 2 ^ k = omega arith in omega (arith, ap (λ (t : ℕ). h * t) pow) in
    let halved : h * 2 ^ suc k / 2 ≡ h * 2 ^ k = omega (arith, double) in
    omega (
      arith,
      double,
      bit_xor_step (h * 2 ^ suc k) l,
      ap (λ (t : ℕ). bit_xor t (l / 2)) halved,
      bit_xor_join k h (l / 2) (omega arith),
    )
