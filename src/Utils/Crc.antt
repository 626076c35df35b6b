-- ===== src/Utils/Crc.antt =====
-- QXmppUtils::generateCrc32 of base/QXmppUtils.cpp, against the checksum that divides by the
-- polynomial bit by bit.
use Prim.Native.Nat.{bit_xor}
use qxmpp.Common.{
  ◌+◌, ◌^◌, ltb, ℕ, zero, suc, ◌/◌, ◌%◌, ◌<◌, ◌≡◌, refl, ap, sym, ◌∙◌, ◌*◌, Bool-cases, inl, inr,
  Bool, true, false, ◌&&◌, List, [], ◌∷◌, Bytes, All, ◌==◌, if◌then◌else◌, arith,
}
use qxmpp.Utils.Bits.{
  bit_xor-lt, bit_xor_step, half-bit_xor, bit_xor_assoc, bit_xor_cancel, bit_xor_right_comm,
  bit_xor_join,
}

-- An index past the table reads 0; the code has none.
unfoldable pub entry : List ℕ → ℕ → ℕ
entry [] i = 0
entry (x ∷ xs) zero = x
entry (x ∷ xs) (suc i) = entry xs i

unfoldable pub crc_table : List ℕ
crc_table =
    0x00000000 ∷ 0x77073096 ∷ 0xee0e612c ∷ 0x990951ba ∷ 0x076dc419 ∷ 0x706af48f ∷ 0xe963a535
    ∷ 0x9e6495a3 ∷ 0x0edb8832 ∷ 0x79dcb8a4 ∷ 0xe0d5e91e ∷ 0x97d2d988 ∷ 0x09b64c2b ∷ 0x7eb17cbd
    ∷ 0xe7b82d07 ∷ 0x90bf1d91 ∷ 0x1db71064 ∷ 0x6ab020f2 ∷ 0xf3b97148 ∷ 0x84be41de ∷ 0x1adad47d
    ∷ 0x6ddde4eb ∷ 0xf4d4b551 ∷ 0x83d385c7 ∷ 0x136c9856 ∷ 0x646ba8c0 ∷ 0xfd62f97a ∷ 0x8a65c9ec
    ∷ 0x14015c4f ∷ 0x63066cd9 ∷ 0xfa0f3d63 ∷ 0x8d080df5 ∷ 0x3b6e20c8 ∷ 0x4c69105e ∷ 0xd56041e4
    ∷ 0xa2677172 ∷ 0x3c03e4d1 ∷ 0x4b04d447 ∷ 0xd20d85fd ∷ 0xa50ab56b ∷ 0x35b5a8fa ∷ 0x42b2986c
    ∷ 0xdbbbc9d6 ∷ 0xacbcf940 ∷ 0x32d86ce3 ∷ 0x45df5c75 ∷ 0xdcd60dcf ∷ 0xabd13d59 ∷ 0x26d930ac
    ∷ 0x51de003a ∷ 0xc8d75180 ∷ 0xbfd06116 ∷ 0x21b4f4b5 ∷ 0x56b3c423 ∷ 0xcfba9599 ∷ 0xb8bda50f
    ∷ 0x2802b89e ∷ 0x5f058808 ∷ 0xc60cd9b2 ∷ 0xb10be924 ∷ 0x2f6f7c87 ∷ 0x58684c11 ∷ 0xc1611dab
    ∷ 0xb6662d3d ∷ 0x76dc4190 ∷ 0x01db7106 ∷ 0x98d220bc ∷ 0xefd5102a ∷ 0x71b18589 ∷ 0x06b6b51f
    ∷ 0x9fbfe4a5 ∷ 0xe8b8d433 ∷ 0x7807c9a2 ∷ 0x0f00f934 ∷ 0x9609a88e ∷ 0xe10e9818 ∷ 0x7f6a0dbb
    ∷ 0x086d3d2d ∷ 0x91646c97 ∷ 0xe6635c01 ∷ 0x6b6b51f4 ∷ 0x1c6c6162 ∷ 0x856530d8 ∷ 0xf262004e
    ∷ 0x6c0695ed ∷ 0x1b01a57b ∷ 0x8208f4c1 ∷ 0xf50fc457 ∷ 0x65b0d9c6 ∷ 0x12b7e950 ∷ 0x8bbeb8ea
    ∷ 0xfcb9887c ∷ 0x62dd1ddf ∷ 0x15da2d49 ∷ 0x8cd37cf3 ∷ 0xfbd44c65 ∷ 0x4db26158 ∷ 0x3ab551ce
    ∷ 0xa3bc0074 ∷ 0xd4bb30e2 ∷ 0x4adfa541 ∷ 0x3dd895d7 ∷ 0xa4d1c46d ∷ 0xd3d6f4fb ∷ 0x4369e96a
    ∷ 0x346ed9fc ∷ 0xad678846 ∷ 0xda60b8d0 ∷ 0x44042d73 ∷ 0x33031de5 ∷ 0xaa0a4c5f ∷ 0xdd0d7cc9
    ∷ 0x5005713c ∷ 0x270241aa ∷ 0xbe0b1010 ∷ 0xc90c2086 ∷ 0x5768b525 ∷ 0x206f85b3 ∷ 0xb966d409
    ∷ 0xce61e49f ∷ 0x5edef90e ∷ 0x29d9c998 ∷ 0xb0d09822 ∷ 0xc7d7a8b4 ∷ 0x59b33d17 ∷ 0x2eb40d81
    ∷ 0xb7bd5c3b ∷ 0xc0ba6cad ∷ 0xedb88320 ∷ 0x9abfb3b6 ∷ 0x03b6e20c ∷ 0x74b1d29a ∷ 0xead54739
    ∷ 0x9dd277af ∷ 0x04db2615 ∷ 0x73dc1683 ∷ 0xe3630b12 ∷ 0x94643b84 ∷ 0x0d6d6a3e ∷ 0x7a6a5aa8
    ∷ 0xe40ecf0b ∷ 0x9309ff9d ∷ 0x0a00ae27 ∷ 0x7d079eb1 ∷ 0xf00f9344 ∷ 0x8708a3d2 ∷ 0x1e01f268
    ∷ 0x6906c2fe ∷ 0xf762575d ∷ 0x806567cb ∷ 0x196c3671 ∷ 0x6e6b06e7 ∷ 0xfed41b76 ∷ 0x89d32be0
    ∷ 0x10da7a5a ∷ 0x67dd4acc ∷ 0xf9b9df6f ∷ 0x8ebeeff9 ∷ 0x17b7be43 ∷ 0x60b08ed5 ∷ 0xd6d6a3e8
    ∷ 0xa1d1937e ∷ 0x38d8c2c4 ∷ 0x4fdff252 ∷ 0xd1bb67f1 ∷ 0xa6bc5767 ∷ 0x3fb506dd ∷ 0x48b2364b
    ∷ 0xd80d2bda ∷ 0xaf0a1b4c ∷ 0x36034af6 ∷ 0x41047a60 ∷ 0xdf60efc3 ∷ 0xa867df55 ∷ 0x316e8eef
    ∷ 0x4669be79 ∷ 0xcb61b38c ∷ 0xbc66831a ∷ 0x256fd2a0 ∷ 0x5268e236 ∷ 0xcc0c7795 ∷ 0xbb0b4703
    ∷ 0x220216b9 ∷ 0x5505262f ∷ 0xc5ba3bbe ∷ 0xb2bd0b28 ∷ 0x2bb45a92 ∷ 0x5cb36a04 ∷ 0xc2d7ffa7
    ∷ 0xb5d0cf31 ∷ 0x2cd99e8b ∷ 0x5bdeae1d ∷ 0x9b64c2b0 ∷ 0xec63f226 ∷ 0x756aa39c ∷ 0x026d930a
    ∷ 0x9c0906a9 ∷ 0xeb0e363f ∷ 0x72076785 ∷ 0x05005713 ∷ 0x95bf4a82 ∷ 0xe2b87a14 ∷ 0x7bb12bae
    ∷ 0x0cb61b38 ∷ 0x92d28e9b ∷ 0xe5d5be0d ∷ 0x7cdcefb7 ∷ 0x0bdbdf21 ∷ 0x86d3d2d4 ∷ 0xf1d4e242
    ∷ 0x68ddb3f8 ∷ 0x1fda836e ∷ 0x81be16cd ∷ 0xf6b9265b ∷ 0x6fb077e1 ∷ 0x18b74777 ∷ 0x88085ae6
    ∷ 0xff0f6a70 ∷ 0x66063bca ∷ 0x11010b5c ∷ 0x8f659eff ∷ 0xf862ae69 ∷ 0x616bffd3 ∷ 0x166ccf45
    ∷ 0xa00ae278 ∷ 0xd70dd2ee ∷ 0x4e048354 ∷ 0x3903b3c2 ∷ 0xa7672661 ∷ 0xd06016f7 ∷ 0x4969474d
    ∷ 0x3e6e77db ∷ 0xaed16a4a ∷ 0xd9d65adc ∷ 0x40df0b66 ∷ 0x37d83bf0 ∷ 0xa9bcae53 ∷ 0xdebb9ec5
    ∷ 0x47b2cf7f ∷ 0x30b5ffe9 ∷ 0xbdbdf21c ∷ 0xcabac28a ∷ 0x53b39330 ∷ 0x24b4a3a6 ∷ 0xbad03605
    ∷ 0xcdd70693 ∷ 0x54de5729 ∷ 0x23d967bf ∷ 0xb3667a2e ∷ 0xc4614ab8 ∷ 0x5d681b02 ∷ 0x2a6f2b94
    ∷ 0xb40bbe37 ∷ 0xc30c8ea1 ∷ 0x5a05df1b ∷ 0x2d02ef8d ∷ []

-- One round of the loop: `(result >> 8) ^ crctable[(result & 0xff) ^ n]`; a mask of ones is a remainder.
unfoldable pub crc_round : ℕ → ℕ → ℕ
crc_round result n = bit_xor (result / 256) (entry crc_table (bit_xor (result % 256) n))

unfoldable pub crc_loop : ℕ → Bytes → ℕ
crc_loop result [] = result
crc_loop result (n ∷ ns) = crc_loop (crc_round result n) ns

unfoldable pub generate_crc32 : Bytes → ℕ
generate_crc32 input = bit_xor (crc_loop 0xffffffff input) 0xffffffff

-- One bit of the division: a shift, with the polynomial where a 1 falls out.
unfoldable pub crc_bit : ℕ → ℕ
crc_bit r = if r % 2 == 1 then bit_xor (r / 2) 0xedb88320 else r / 2

unfoldable pub crc_bits : ℕ → ℕ → ℕ
crc_bits zero r = r
crc_bits (suc k) r = crc_bits k (crc_bit r)

-- The checksum bit by bit.
unfoldable pub bitwise_loop : ℕ → Bytes → ℕ
bitwise_loop r [] = r
bitwise_loop r (n ∷ ns) = bitwise_loop (crc_bits 8 (bit_xor r n)) ns

unfoldable pub bitwise_crc32 : Bytes → ℕ
bitwise_crc32 input = bit_xor (bitwise_loop 0xffffffff input) 0xffffffff

-- The table as it is computed, from the entry of `k` on.
row : ℕ → ℕ → List ℕ
row k zero = []
row k (suc n) = crc_bits 8 k ∷ row (k + 1) n

crc_table-row : crc_table ≡ row 0 256
unfolding crc_table row crc_bits crc_bit
crc_table-row = refl

entry-row : (n k x : ℕ) → x < n → entry (row k n) x ≡ crc_bits 8 (k + x)
unfolding entry row
entry-row zero k x lt = absurd (omega arith)
entry-row (suc n) k zero lt = let same : k + 0 ≡ k = omega arith in rw same
entry-row (suc n) k (suc x) lt =
    let same : k + suc x ≡ k + 1 + x = omega arith in rw same (entry-row n (k + 1) x (omega arith))

entry-crc_table : (x : ℕ) → x < 256 → entry crc_table x ≡ crc_bits 8 x
entry-crc_table x h =
    let plain : 0 + x ≡ x = omega arith in
    rw crc_table-row (entry-row 256 0 x h ∙ ap (crc_bits 8) plain)

crc_bit-bit_xor : (a b : ℕ) → crc_bit (bit_xor a b) ≡ bit_xor (crc_bit a) (crc_bit b)
unfolding crc_bit
crc_bit-bit_xor a b = elim (Bool-cases (a % 2 == 1)) [
  | inl x ↦ elim (Bool-cases (b % 2 == 1)) [
    | inl y ↦
        let even : (bit_xor a b % 2 == 1) ≡ false = ground (arith, bit_xor_step a b) in
        rw (x, y, even, half-bit_xor a b, bit_xor_cancel (a / 2) (b / 2) 0xedb88320)
    | inr y ↦
        let odd : (bit_xor a b % 2 == 1) ≡ true = ground (arith, bit_xor_step a b) in
        rw (x, y, odd, half-bit_xor a b, bit_xor_right_comm (a / 2) (b / 2) 0xedb88320)
  ]
  | inr x ↦ elim (Bool-cases (b % 2 == 1)) [
    | inl y ↦
        let odd : (bit_xor a b % 2 == 1) ≡ true = ground (arith, bit_xor_step a b) in
        rw (x, y, odd, half-bit_xor a b, bit_xor_assoc (a / 2) (b / 2) 0xedb88320)
    | inr y ↦
        let even : (bit_xor a b % 2 == 1) ≡ false = ground (arith, bit_xor_step a b) in
        rw (x, y, even, half-bit_xor a b)
  ]
]

crc_bits-bit_xor : (k a b : ℕ) → crc_bits k (bit_xor a b) ≡ bit_xor (crc_bits k a) (crc_bits k b)
unfolding crc_bits
crc_bits-bit_xor zero a b = refl
crc_bits-bit_xor (suc k) a b = rw (crc_bit-bit_xor a b) (crc_bits-bit_xor k (crc_bit a) (crc_bit b))

crc_bit_shift : (h r : ℕ) → r ≡ h * 2 → crc_bit r ≡ h
unfolding crc_bit
crc_bit_shift h r e = ground arith

-- A byte of zeros is shifted out.
crc_bits_shift : (h : ℕ) → crc_bits 8 (h * 256) ≡ h
unfolding crc_bits
crc_bits_shift h = rw (
  crc_bit_shift (h * 128) (h * 256) (omega arith),
  crc_bit_shift (h * 64) (h * 128) (omega arith),
  crc_bit_shift (h * 32) (h * 64) (omega arith),
  crc_bit_shift (h * 16) (h * 32) (omega arith),
  crc_bit_shift (h * 8) (h * 16) (omega arith),
  crc_bit_shift (h * 4) (h * 8) (omega arith),
  crc_bit_shift (h * 2) (h * 4) (omega arith),
  crc_bit_shift h (h * 2) (omega arith),
)

crc_round_lem : (r n : ℕ) → n < 256 → crc_round r n ≡ crc_bits 8 (bit_xor r n)
unfolding crc_round
crc_round_lem r n h =
    let split : bit_xor (r / 256 * 256) (r % 256) ≡ r =
      bit_xor_join 8 (r / 256) (r % 256) (omega arith) ∙ omega arith in
    let parts : crc_bits 8 r ≡ bit_xor (r / 256) (crc_bits 8 (r % 256)) =
      ap (crc_bits 8) (sym split)
      ∙ crc_bits-bit_xor 8 (r / 256 * 256) (r % 256)
      ∙ ap (λ (t : ℕ). bit_xor t (crc_bits 8 (r % 256))) (crc_bits_shift (r / 256)) in
    rw (
      entry-crc_table (bit_xor (r % 256) n) (bit_xor-lt 8 (r % 256) n (omega arith) h),
      crc_bits-bit_xor 8 (r % 256) n,
      crc_bits-bit_xor 8 r n,
      parts,
      bit_xor_assoc (r / 256) (crc_bits 8 (r % 256)) (crc_bits 8 n),
    )

crc_loop_lem : (r : ℕ) (ns : Bytes) → All (λ n. n < 256) ns → crc_loop r ns ≡ bitwise_loop r ns
unfolding crc_loop bitwise_loop
crc_loop_lem r [] h = refl
crc_loop_lem r (n ∷ ns) h =
    rw (crc_round_lem r n h.0) (crc_loop_lem (crc_bits 8 (bit_xor r n)) ns h.1)

-- On every input the checksum by the table is the one that divides by the polynomial bit by bit.
pub generate_crc32-bitwise :
    (input : Bytes) → All (λ n. n < 256) input → generate_crc32 input ≡ bitwise_crc32 input
unfolding generate_crc32 bitwise_crc32
generate_crc32-bitwise input h = rw (crc_loop_lem 0xffffffff input h)

all_small : List ℕ → Bool
all_small [] = true
all_small (x ∷ xs) = ltb x 4294967296 && all_small xs

all_small-crc_table : all_small crc_table ≡ true
unfolding all_small crc_table
all_small-crc_table = refl

entry-lt : (xs : List ℕ) (i : ℕ) → all_small xs ≡ true → entry xs i < 2 ^ 32
unfolding entry all_small
entry-lt [] i h = omega arith
entry-lt (x ∷ xs) zero h = ground arith
entry-lt (x ∷ xs) (suc i) h = entry-lt xs i (ground arith)

crc_loop-lt : (r : ℕ) (ns : Bytes) → r < 2 ^ 32 → crc_loop r ns < 2 ^ 32
unfolding crc_loop crc_round
crc_loop-lt r [] h = h
crc_loop-lt r (n ∷ ns) h = crc_loop-lt (crc_round r n) ns (
    bit_xor-lt 32 (r / 256) (entry crc_table (bit_xor (r % 256) n)) (omega arith)
      (entry-lt crc_table (bit_xor (r % 256) n) all_small-crc_table))

-- The checksum is a number of 32 bits.
pub generate_crc32-lt : (input : Bytes) → generate_crc32 input < 2 ^ 32
unfolding generate_crc32
generate_crc32-lt input =
    bit_xor-lt 32 (crc_loop 0xffffffff input) 0xffffffff
      (crc_loop-lt 0xffffffff input (omega arith)) (omega arith)
