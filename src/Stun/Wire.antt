-- ===== src/Stun/Wire.antt =====
-- Reading and writing numbers and raw bytes as QDataStream does, big endian. Past the end of the
-- data a number reads as 0, and what is left is gone.
use mathlib.Core.List.{append-nil}
use qxmpp.Common.{
  ℕ, ◌+◌, ◌-◌, ◌*◌, ◌/◌, ◌%◌, ◌<◌, ◌≡◌, [], ◌∷◌, ◌++◌, Bytes, length, take, drop, arith,
  take-append, drop-append, ◌==◌, if◌then◌else◌,
}
use qxmpp.Utils.Hmac.{replicate, length-replicate}

abbrev pub u16 : ℕ → Bytes
u16 n = n / 256 % 256 ∷ n % 256 ∷ []

abbrev pub u32 : ℕ → Bytes
u32 n = n / 16777216 % 256 ∷ n / 65536 % 256 ∷ n / 256 % 256 ∷ n % 256 ∷ []

unfoldable pub read8 : Bytes → ℕ × Bytes
read8 (a ∷ s) = (a, s)
read8 _ = (0, [])

unfoldable pub read16 : Bytes → ℕ × Bytes
read16 (a ∷ b ∷ s) = (a * 256 + b, s)
read16 _ = (0, [])

unfoldable pub read32 : Bytes → ℕ × Bytes
read32 (a ∷ b ∷ c ∷ d ∷ s) = (((a * 256 + b) * 256 + c) * 256 + d, s)
read32 _ = (0, [])

-- readRawData into a buffer of `n` bytes; `fill` is what its end holds where bytes are missing.
unfoldable pub read_raw : (ℕ → Bytes) → ℕ → Bytes → Bytes × Bytes
read_raw fill n s = (take n s ++ fill (n - length (take n s)), drop n s)

abbrev pub zeros : ℕ → Bytes
zeros n = replicate n 0

-- The bytes up to the next multiple of four, by the decoder and by the encoder.
abbrev pub pad_length : ℕ → ℕ
pad_length n = 4 * ((n + 3) / 4) - n

unfoldable pub padding : ℕ → Bytes
padding n = if n % 4 == 0 then [] else zeros (4 - n % 4)

pub length-padding : (n : ℕ) → length (padding n) ≡ pad_length n
unfolding padding
length-padding n = ground (arith, length-replicate (4 - n % 4) 0)

pub read16-u16 : (n : ℕ) (s : Bytes) → n < 65536 → read16 (u16 n ++ s) ≡ (n, s)
unfolding read16
read16-u16 n s h = let e : n / 256 % 256 * 256 + n % 256 ≡ n = omega (arith, h) in rw e

pub read32-u32 : (n : ℕ) (s : Bytes) → n < 4294967296 → read32 (u32 n ++ s) ≡ (n, s)
unfolding read32
read32-u32 n s h =
    let e : ((n / 16777216 % 256 * 256 + n / 65536 % 256) * 256 + n / 256 % 256) * 256 + n % 256
        ≡ n =
      omega (arith, h) in
    rw e

pub read_raw-append :
    (fill : ℕ → Bytes) (p s : Bytes) → fill 0 ≡ [] → read_raw fill (length p) (p ++ s) ≡ (p, s)
unfolding read_raw
read_raw-append fill p s empty =
    let z : length p - length p ≡ 0 = omega arith in
    rw (take-append p s, drop-append p s, z, empty, append-nil p)
