-- ===== src/Utils/Hmac.antt =====
-- generateHmac of base/QXmppUtils.cpp. The hash is a parameter, Qt's QCryptographicHash.
use Prim.Native.Nat.{bit_xor}
use qxmpp.Common.{
  ℕ, zero, suc, ◌-◌, ◌≡◌, refl, ap, [], ◌∷◌, ◌++◌, map, Bytes, length, take, leb, if◌then◌else◌,
  true, arith,
}

unfoldable pub replicate : ℕ → ℕ → Bytes
replicate zero x = []
replicate (suc n) x = x ∷ replicate n x

abbrev pub block_size : ℕ
block_size = 64

-- `key + QByteArray(B - key.size(), 0)`: a negative size makes no bytes.
unfoldable pub padded_key : Bytes → Bytes
padded_key key = key ++ replicate (block_size - length key) 0

-- The loop over the first B bytes.
unfoldable pub masked : ℕ → Bytes → Bytes
masked mask kpad = map (λ b. bit_xor b mask) (take block_size kpad)

module _ (hash : Bytes → Bytes) where
  unfoldable pub generate_hmac : Bytes → Bytes → Bytes
  generate_hmac key text =
      let kpad = padded_key key in hash (masked 0x5c kpad ++ hash (masked 0x36 kpad ++ text))

  -- RFC 2104, with blocks of 64 bytes: a key that is longer than a block is hashed first.
  unfoldable pub block_key : Bytes → Bytes
  block_key key = if leb (length key) block_size then key else hash key

  unfoldable pub rfc_hmac : Bytes → Bytes → Bytes
  rfc_hmac key text =
      let block = block_key key ++ replicate (block_size - length (block_key key)) 0 in
      hash (map (λ b. bit_xor b 0x5c) block ++ hash (map (λ b. bit_xor b 0x36) block ++ text))

pub length-replicate : (n x : ℕ) → length (replicate n x) ≡ n
unfolding replicate
length-replicate zero x = refl
length-replicate (suc n) x = omega (arith, length-replicate n x)

take-replicate : (n x : ℕ) → take n (replicate n x) ≡ replicate n x
unfolding replicate
take-replicate zero x = refl
take-replicate (suc n) x = rw (take-replicate n x)

-- What is cut off behind the block is the same before and after the padding.
take-padded :
    (n : ℕ) (xs : Bytes)
    → take n (xs ++ replicate (n - length xs) 0) ≡ take n xs ++ replicate (n - length (take n xs)) 0
unfolding replicate
take-padded zero xs = refl
take-padded (suc n) [] =
    let whole : suc n - 0 ≡ suc n = omega arith in rw (whole, take-replicate (suc n) 0)
take-padded (suc n) (x ∷ xs) =
    let shorter : suc n - suc (length xs) ≡ n - length xs = omega arith in
    let same : suc n - suc (length (take n xs)) ≡ n - length (take n xs) = omega arith in
    rw (shorter, same) (ap (λ ys. x ∷ ys) (take-padded n xs))

take_short : (n : ℕ) (xs : Bytes) → leb (length (take n xs)) n ≡ true
take_short zero xs = refl
take_short (suc n) [] = ground arith
take_short (suc n) (x ∷ xs) = ground (arith, take_short n xs)

-- For every key the code computes the HMAC of RFC 2104 under the first 64 bytes of the key. So it is
-- that of the key itself where the key has 64 bytes at most; a longer one is cut, not hashed.
pub generate_hmac-rfc :
    (hash : Bytes → Bytes) (key text : Bytes)
    → generate_hmac hash key text ≡ rfc_hmac hash (take block_size key) text
unfolding generate_hmac rfc_hmac block_key masked padded_key
generate_hmac-rfc hash key text = rw (take_short block_size key, take-padded block_size key)
