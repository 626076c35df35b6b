-- ===== src/Stun/RoundTrip/Frames.antt =====
-- The bytes that encode writes as a whole: a header that names the length of what is behind it, the
-- attributes, and the two that protect them.
use mathlib.Core.List.{append-nil, append_assoc}
use qxmpp.Common.{
  ℕ, ◌+◌, ◌-◌, ◌≡◌, refl, ap, Bool, true, false, [], ◌∷◌, ◌++◌, Bytes, length, length-append, take,
  take-append, arith, if◌then◌else◌,
}
use qxmpp.Utils.Hmac.{generate_hmac}
use qxmpp.Stun.Wire.{u16, u32}
use qxmpp.Stun.Message.{stun_header, stun_id_size, StunMessage}
use qxmpp.Stun.AttributeType
use qxmpp.Stun.Encode.{
  Platform, attribute, set_body_length, header, encode_attributes, integrity_of, add_integrity,
  fingerprint_of, add_fingerprint, encode,
}

pub length-attribute : (t : ℕ) (v : Bytes) → length (attribute t v) ≡ 4 + length v
unfolding attribute
length-attribute t v = omega arith

pub length-integrity_of :
    (pf : Platform) (key buffer : Bytes) → length (integrity_of pf key buffer) ≡ 20
unfolding integrity_of generate_hmac
length-integrity_of pf key buffer = pf.length-sha1 _

-- A header that names the length `n`.
unfoldable pub frame : StunMessage → ℕ → Bytes
frame m n = u16 m.message_type ++ (u16 n ++ (u32 m.cookie ++ m.id))

module _ (m : StunMessage) (size : length m.id ≡ stun_id_size) where
  pub length-frame : (n : ℕ) → length (frame m n) ≡ stun_header
  unfolding frame
  length-frame n = omega (arith, size)

  pub set_body_length-frame :
      (a n : ℕ) (x : Bytes) → set_body_length (frame m a ++ x) n ≡ frame m n ++ x
  unfolding set_body_length frame
  set_body_length-frame a n x = refl

  pub body_length : (a : ℕ) (x : Bytes) → length (frame m a ++ x) - stun_header ≡ length x
  body_length a x = omega (arith, length-append (frame m a) x, length-frame a)

  pub take-frame :
      (a : ℕ) (x y : Bytes) → take (stun_header + length x) (frame m a ++ (x ++ y)) ≡ frame m a ++ x
  take-frame a x y =
      let size' : stun_header + length x ≡ length (frame m a ++ x) =
        omega (arith, length-append (frame m a) x, length-frame a) in
      rw (size', ← append_assoc (frame m a) x y) (take-append (frame m a ++ x) y)

  -- MESSAGE-INTEGRITY behind the attributes `a`, and FINGERPRINT behind all else.
  unfoldable pub signature : Platform → Bytes → Bytes → Bytes
  signature pf [] a = []
  signature pf (k ∷ ks) a =
      attribute AttributeType.message_integrity
        (integrity_of pf (k ∷ ks) (frame m (length a + 24) ++ a))

  unfoldable pub seal : Bool → Bytes → Bytes
  seal false c = []
  seal true c =
      attribute AttributeType.fingerprint (u32 (fingerprint_of (frame m (length c + 8) ++ c)))

  unfoldable pub body : Platform → Bytes → Bool → Bytes
  body pf key fp =
      let a = encode_attributes pf m in let s = signature pf key a in a ++ (s ++ seal fp (a ++ s))

  -- An attribute put behind a body whose length is first set to count it.
  extend-frame :
      (a : Bytes) (k t : ℕ) (v : Bytes → Bytes)
      → length (v (frame m (length a + k) ++ a)) + 4 ≡ k
      → (set_body_length
            (frame m (length a) ++ a)
            (length (frame m (length a) ++ a) - stun_header + k)
          ++ attribute t (
              v (
                set_body_length
                  (frame m (length a) ++ a)
                  (length (frame m (length a) ++ a) - stun_header + k))))
        ≡ frame m (length (a ++ attribute t (v (frame m (length a + k) ++ a))))
          ++ (a ++ attribute t (v (frame m (length a + k) ++ a)))
  extend-frame a k t v h =
      let x = attribute t (v (frame m (length a + k) ++ a)) in
      let total : length (a ++ x) ≡ length a + k =
        omega (arith, length-append a x, h, length-attribute t (v (frame m (length a + k) ++ a))) in
      rw (
        body_length (length a) a,
        set_body_length-frame (length a) (length a + k) a,
        total,
        append_assoc (frame m (length a + k)) a x,
      )

  add_integrity-frame :
      (pf : Platform) (key a : Bytes)
      → add_integrity pf key (frame m (length a) ++ a)
        ≡ frame m (length (a ++ signature pf key a)) ++ (a ++ signature pf key a)
  unfolding add_integrity signature
  add_integrity-frame pf [] a = rw (append-nil a)
  add_integrity-frame pf (k ∷ ks) a =
      extend-frame a 24 AttributeType.message_integrity (integrity_of pf (k ∷ ks))
        (ap (λ n. n + 4) (length-integrity_of pf (k ∷ ks) (frame m (length a + 24) ++ a)))

  add_fingerprint-frame :
      (fp : Bool) (c : Bytes)
      → (if fp then add_fingerprint (frame m (length c) ++ c) else frame m (length c) ++ c)
        ≡ frame m (length (c ++ seal fp c)) ++ (c ++ seal fp c)
  unfolding add_fingerprint seal
  add_fingerprint-frame false c = rw (append-nil c)
  add_fingerprint-frame true c =
      extend-frame c 8 AttributeType.fingerprint (λ b. u32 (fingerprint_of b)) refl

  header-frame : header m ≡ frame m 0
  unfolding header frame
  header-frame = refl

  pub encode-frame :
      (pf : Platform) (key : Bytes) (fp : Bool)
      → encode pf key fp m ≡ frame m (length (body pf key fp)) ++ body pf key fp
  unfolding encode body
  encode-frame pf key fp =
      let a = encode_attributes pf m in
      let s = signature pf key a in
      rw
        (
          header-frame,
          body_length 0 a,
          set_body_length-frame 0 (length a) a,
          add_integrity-frame pf key a,
          ← append_assoc a s (seal fp (a ++ s)),
        )
        (add_fingerprint-frame fp (a ++ s))
