-- ===== src/Stun/RoundTrip/Whole.antt =====
-- A whole message: the header, and what is behind it.
use qxmpp.Common.{
  ℕ, suc, ◌+◌, ◌-◌, ◌<◌, ◌≢◌, ◌≤◌, ◌⊎◌, ◌≡◌, refl, sym, ap, ◌∙◌, Bool, true, false, [], ◌∷◌, ◌++◌,
  Bytes, length, length-append, arith, ◌==◌, ltb,
}
use qxmpp.Utils.Hmac.{replicate}
use qxmpp.Stun.Wire.{u16, u32, read16, read16-u16, read32-u32, read_raw, read_raw-append, zeros}
use qxmpp.Stun.Message.{stun_header, stun_id_size, StunMessage, new_message}
use qxmpp.Stun.AttributeType
use qxmpp.Stun.Encode.{Platform, attribute, encode_attributes, integrity_of, fingerprint_of, encode}
use qxmpp.Stun.Decode.{Decoded, accepted, rejected, is_authentic, decode, decode_loop}
use qxmpp.Stun.RoundTrip.Rounds.{Runs}
use qxmpp.Stun.RoundTrip.Body.{IsMessage, started, Reads-encode_attributes}
use qxmpp.Stun.RoundTrip.Frames.{
  frame, length-frame, length-attribute, length-integrity_of, signature, seal, body, encode-frame,
}
use qxmpp.Stun.RoundTrip.Tail.{Runs-signature, Runs-forged, is_authentic-forged}

no_zeros : zeros 0 ≡ []
unfolding replicate
no_zeros = refl

read16-frame :
    (m : StunMessage) (n : ℕ) (x : Bytes)
    → m.message_type < 65536
    → read16 (frame m n ++ x) ≡ (m.message_type, u16 n ++ (u32 m.cookie ++ (m.id ++ x)))
unfolding frame
read16-frame m n x h = read16-u16 m.message_type (u16 n ++ (u32 m.cookie ++ (m.id ++ x))) h

module _ (m : StunMessage) (size : length m.id ≡ stun_id_size) where
  length-signature-le : (pf : Platform) (key a : Bytes) → length (signature m size pf key a) ≤ 24
  unfolding signature
  length-signature-le pf [] a = omega arith
  length-signature-le pf (k ∷ ks) a =
      let v = integrity_of pf (k ∷ ks) (frame m (length a + 24) ++ a) in
      omega (
        arith,
        length-attribute AttributeType.message_integrity v,
        length-integrity_of pf (k ∷ ks) (frame m (length a + 24) ++ a),
      )

  signature-given :
      (pf : Platform) (key a : Bytes)
      → key ≢ []
      → signature m size pf key a
        ≡ attribute AttributeType.message_integrity
            (integrity_of pf key (frame m (length a + 24) ++ a))
  unfolding signature
  signature-given pf [] a given = absurd (given refl)
  signature-given pf (k ∷ ks) a given = refl

  length-seal-le : (fp : Bool) (c : Bytes) → length (seal m size fp c) ≤ 8
  unfolding seal
  length-seal-le false c = omega arith
  length-seal-le true c = omega (
    arith,
    length-attribute AttributeType.fingerprint (u32 (fingerprint_of (frame m (length c + 8) ++ c))),
  )

-- What MESSAGE-INTEGRITY covers: the header, with the length that counts it, and the attributes.
abbrev pub signed_part : Platform → StunMessage → Bytes
signed_part pf m = frame m (length (encode_attributes pf m) + 24) ++ encode_attributes pf m

-- Behind a header, decode is its loop.
module _ (pf : Platform) (key' : Bytes) (m : StunMessage) (size : length m.id ≡ stun_id_size)
    (type_fits : m.message_type < 65536) (cookie_fits : m.cookie < 4294967296) where
  decode-frame :
      (p : StunMessage) (x : Bytes)
      → length x < 65536
      → decode pf key' (frame m (length x) ++ x) p
        ≡ decode_loop pf
            (suc (length x))
            key'
            (frame m (length x) ++ x)
            (length x)
            0
            false
            x
            (record p { message_type = m.message_type; cookie = m.cookie; id = m.id })
  unfolding decode
  decode-frame p x room =
      let buffer = frame m (length x) ++ x in
      let long : length buffer ≡ 20 + length x =
        omega (arith, length-append (frame m (length x)) x, length-frame m size (length x)) in
      let enough : ltb (length buffer) stun_header ≡ false = ground arith in
      let named : (length x == length buffer - stun_header) ≡ true = ground arith in
      let id_read : read_raw zeros stun_id_size (m.id ++ x) ≡ (m.id, x) =
        ap (λ k. read_raw zeros k (m.id ++ x)) (sym size) ∙ read_raw-append zeros m.id x no_zeros in
      rw (
        read16-frame m (length x) x type_fits,
        read16-u16 (length x) (u32 m.cookie ++ (m.id ++ x)) room,
        read32-u32 m.cookie (m.id ++ x) cookie_fits,
        id_read,
        enough,
        named,
      )

module _ (pf : Platform) (key key' : Bytes) (fp : Bool) (m : StunMessage) (h : IsMessage pf m) where
  abbrev size : length m.id ≡ stun_id_size
  size = h.id_size

  abbrev whole : Bytes
  whole = body m size pf key fp

  Runs-attributes :
      (n : ℕ) (d : Decoded)
      → Runs pf key'
          (frame m n ++ whole)
          (length whole)
          (signature m size pf key (encode_attributes pf m)
            ++ seal m size fp
                (encode_attributes pf m ++ signature m size pf key (encode_attributes pf m)))
          (length (encode_attributes pf m))
          false
          m
          d
      → Runs pf key' (frame m n ++ whole) (length whole) whole 0 false (started m) d
  unfolding body
  Runs-attributes n d r =
      let reads = Reads-encode_attributes pf key' (frame m n ++ whole) (length whole) m h in
      reads.run _ 0 (length (encode_attributes pf m)) d (omega arith) r

  Runs-body :
      (n : ℕ)
      → (key' ≡ []) ⊎ (key ≡ []) ⊎ (key' ≡ key)
      → Runs pf key' (frame m n ++ whole) (length whole) whole 0 false (started m) (accepted m)
  unfolding body
  Runs-body n agree =
      Runs-attributes n (accepted m)
        (Runs-signature m size pf key' (length whole) key (encode_attributes pf m) fp n agree)

  length-whole-lt : length whole < 65536
  unfolding body
  length-whole-lt =
      let a = encode_attributes pf m in
      let s = signature m size pf key a in
      omega (
        arith,
        h.room,
        length-signature-le m size pf key a,
        length-seal-le m size fp (a ++ s),
        length-append a (s ++ seal m size fp (a ++ s)),
        length-append s (seal m size fp (a ++ s)),
      )

  -- A message whose values fit their attributes is read back from what encode writes, with all its
  -- fields, with a fingerprint and without. The two keys are the same, or one of them is empty: a
  -- decoder with a key takes a message without MESSAGE-INTEGRITY too.
  pub decode-encode :
      (key' ≡ []) ⊎ (key ≡ []) ⊎ (key' ≡ key)
      → decode pf key' (encode pf key fp m) new_message ≡ accepted m
  decode-encode agree = rw (encode-frame m size pf key fp) (
      decode-frame pf key' m size h.type_fits h.cookie_fits new_message whole length-whole-lt
      ∙ Runs-body (length whole) agree (omega arith) (suc (length whole)) (omega arith))

  forged :
      key ≢ []
      → key' ≢ []
      → integrity_of pf key' (signed_part pf m) ≢ integrity_of pf key (signed_part pf m)
      → is_authentic pf key'
          (frame m (length whole) ++ whole)
          (length (encode_attributes pf m))
          (integrity_of pf key (signed_part pf m))
        ≡ false
  unfolding body
  forged signed given differ =
      is_authentic-forged m size pf key' (length whole) key (encode_attributes pf m) _
        (length whole) given differ

  -- What is signed with one key is rejected under another, if the two keys give different codes for
  -- what was signed.
  pub decode-wrong_key :
      key ≢ []
      → key' ≢ []
      → integrity_of pf key' (signed_part pf m) ≢ integrity_of pf key (signed_part pf m)
      → decode pf key' (encode pf key fp m) new_message ≡ rejected
  decode-wrong_key signed given differ =
      let a = encode_attributes pf m in
      let v = integrity_of pf key (signed_part pf m) in
      let end = seal m size fp (a ++ attribute AttributeType.message_integrity v) in
      let s_is = signature-given m size pf key a signed in
      rw (encode-frame m size pf key fp) (
        decode-frame pf key' m size h.type_fits h.cookie_fits new_message whole length-whole-lt
        ∙ Runs-attributes (length whole) rejected
            (rw s_is (
              Runs-forged m size pf key' (length whole) _ v end (length a)
                (length-integrity_of pf key (signed_part pf m)) (forged signed given differ)))
            (omega arith) (suc (length whole)) (omega arith))
