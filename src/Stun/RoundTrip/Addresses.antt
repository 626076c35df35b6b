-- ===== src/Stun/RoundTrip/Addresses.antt =====
-- Addresses with and without the mask, written and read.
use qxmpp.Common.{
  ℕ, suc, ◌<◌, ◌≡◌, refl, sym, ap, ◌∙◌, false, [], ◌∷◌, ◌++◌, some, Bytes, ◌==◌, length, arith,
}
use qxmpp.Utils.Bits.{bit_xor_twice, bit_xor-lt}
use qxmpp.Stun.Wire.{u16, u32, read8, read_raw, read16-u16, read32-u32, read_raw-append, pad_length}
use qxmpp.Stun.Message.{
  stun_magic, HostAddress, null, ipv4, ipv6, Endpoint, no_endpoint, StunMessage,
}
use qxmpp.Stun.AttributeType
use qxmpp.Stun.Encode.{
  Platform, xor_bytes, xor_pad, stun_ipv4, stun_ipv6, mask_number, mask_bytes, port_mask,
  encode_address, add_address,
}
use qxmpp.Stun.Decode.{store_endpoint, decode_host, decode_address, decode_attribute}
use qxmpp.Stun.RoundTrip.Blocks.{Reads, Reads-nil, Reads-attribute}

-- An address that is written: a port from 1 to 65535, and a host of either family. One that is not
-- has neither.
abbrev pub IsHost : HostAddress → ℕ → Type 0
IsHost null port = port ≡ 0
IsHost (ipv4 a) port = (0 < port) × (port < 65536) × (a < 4294967296)
IsHost (ipv6 s) port = (0 < port) × (port < 65536) × (length s ≡ 16)

xor_bytes_twice : (s p : Bytes) → xor_bytes (xor_bytes s p) p ≡ s
unfolding xor_bytes
xor_bytes_twice [] p = refl
xor_bytes_twice (a ∷ s) [] = refl
xor_bytes_twice (a ∷ s) (b ∷ p) = rw (bit_xor_twice a b, xor_bytes_twice s p)

length-xor_bytes : (s p : Bytes) → length (xor_bytes s p) ≡ length s
unfolding xor_bytes
length-xor_bytes [] p = refl
length-xor_bytes (a ∷ s) [] = refl
length-xor_bytes (a ∷ s) (b ∷ p) = ap suc (length-xor_bytes s p)

mask_number_twice : (x : Bytes) (k n : ℕ) → mask_number x k (mask_number x k n) ≡ n
mask_number_twice [] k n = refl
mask_number_twice (c ∷ cs) k n = bit_xor_twice n k

mask_bytes_twice : (x s : Bytes) → mask_bytes x (mask_bytes x s) ≡ s
mask_bytes_twice [] s = refl
mask_bytes_twice (c ∷ cs) s = xor_bytes_twice s (xor_pad (c ∷ cs))

length-mask_bytes : (x s : Bytes) → length (mask_bytes x s) ≡ length s
length-mask_bytes [] s = refl
length-mask_bytes (c ∷ cs) s = length-xor_bytes s (xor_pad (c ∷ cs))

masked_port : (x : Bytes) (n : ℕ) → n < 65536 → mask_number x port_mask n < 65536
masked_port [] n h = h
masked_port (c ∷ cs) n h = bit_xor-lt 16 n port_mask h (omega arith)

masked_host : (x : Bytes) (n : ℕ) → n < 4294967296 → mask_number x stun_magic n < 4294967296
masked_host [] n h = h
masked_host (c ∷ cs) n h = bit_xor-lt 32 n stun_magic h (omega arith)

module _ (pf : Platform) (x s : Bytes) (port : ℕ) (fits : port < 65536) where
  decode_address_ipv4 :
      (a : ℕ)
      → a < 4294967296
      → decode_address pf 8 x (
          0 ∷ stun_ipv4 ∷ u16 (mask_number x port_mask port)
          ++ u32 (mask_number x stun_magic a)
          ++ s)
        ≡ some (record { host = ipv4 a; port = port }, s)
  unfolding decode_address decode_host read8
  decode_address_ipv4 a h =
      let sent = mask_number x port_mask port in
      let address = mask_number x stun_magic a in
      rw (
        read16-u16 sent (u32 address ++ s) (masked_port x port fits),
        read32-u32 address s (masked_host x a h),
        mask_number_twice x port_mask port,
        mask_number_twice x stun_magic a,
      )

  decode_address_ipv6 :
      (b : Bytes)
      → length b ≡ 16
      → decode_address pf 20 x
          (0 ∷ stun_ipv6 ∷ u16 (mask_number x port_mask port) ++ mask_bytes x b ++ s)
        ≡ some (record { host = ipv6 b; port = port }, s)
  unfolding decode_address decode_host read8
  decode_address_ipv6 b h =
      let sent = mask_number x port_mask port in
      let masked = mask_bytes x b in
      let raw : read_raw pf.uninitialised 16 (masked ++ s) ≡ (masked, s) =
        ap (λ k. read_raw pf.uninitialised k (masked ++ s)) (sym (length-mask_bytes x b ∙ h))
        ∙ read_raw-append pf.uninitialised masked s pf.uninitialised-zero in
      rw (
        read16-u16 sent (masked ++ s) (masked_port x port fits),
        raw,
        mask_number_twice x port_mask port,
        mask_bytes_twice x b,
      )

module _ (pf : Platform) (key buffer : Bytes) (total t : ℕ) (x : Bytes)
    (set : Endpoint → StunMessage) (ht : t < 65536)
    (ni : (t == AttributeType.message_integrity) ≡ false)
    (nf : (t == AttributeType.fingerprint) ≡ false)
    (stores : (n : ℕ) (s : Bytes)
      → decode_attribute pf t n s (set no_endpoint)
        ≡ store_endpoint set (decode_address pf n x s)) where
  Reads-host :
      (h : HostAddress) (port : ℕ)
      → IsHost h port
      → let e : Endpoint = record { host = h; port = port } in
        Reads pf key buffer total (add_address t e x) (set no_endpoint) (set e)
  unfolding add_address encode_address
  Reads-host null port absent = rw absent (Reads-nil pf key buffer total (set no_endpoint))
  Reads-host (ipv4 a) port (pos, fits, small) =
      let present : (port == 0) ≡ false = ground arith in
      let v =
        0 ∷ stun_ipv4 ∷ u16 (mask_number x port_mask port) ++ u32 (mask_number x stun_magic a) in
      rw present (
        Reads-attribute pf key buffer total t v (set no_endpoint)
          (set (record { host = ipv4 a; port = port })) ht ni nf (omega arith)
          (λ s. rw (stores 8 (v ++ s), decode_address_ipv4 pf x s port fits a small)) refl)
  Reads-host (ipv6 b) port (pos, fits, size) =
      let present : (port == 0) ≡ false = ground arith in
      let v = 0 ∷ stun_ipv6 ∷ u16 (mask_number x port_mask port) ++ mask_bytes x b in
      let long : length v ≡ 20 = omega (arith, length-mask_bytes x b) in
      rw present (
        Reads-attribute pf key buffer total t v (set no_endpoint)
          (set (record { host = ipv6 b; port = port })) ht ni nf (omega (arith, long))
          (λ s.
            stores (length v) (v ++ s)
            ∙ ap (λ k. store_endpoint set (decode_address pf k x (v ++ s))) long
            ∙ ap (store_endpoint set) (decode_address_ipv6 pf x s port fits b size))
          (ap pad_length long))

  -- An address that is written is read back, and none is written where there is none.
  pub Reads-add_address :
      (e : Endpoint)
      → IsHost e.host e.port
      → Reads pf key buffer total (add_address t e x) (set no_endpoint) (set e)
  Reads-add_address e h = Reads-host e.host e.port h
