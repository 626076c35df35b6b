-- ===== src/Stun/RoundTrip/Tail.antt =====
-- The two attributes at the end of a message: MESSAGE-INTEGRITY and FINGERPRINT.
use mathlib.Core.Path.{subst}
use mathlib.Core.List.{append-nil, append_assoc}
use qxmpp.Common.{
  ℕ, ◌+◌, ◌*◌, ◌/◌, ◌%◌, ◌<◌, ◌⊎◌, inl, inr, ◌≡◌, refl, sym, ap, ◌∙◌, Bool, true, false, ◌&&◌, ◌||◌,
  [], ◌∷◌, ◌++◌, Bytes, length, length-append, take, arith, ◌==◌, text_eq, text_eq_refl,
  text_eq_iff, ◌≢◌, is_empty, ==_refl,
}
use qxmpp.Utils.Bits.{bit_xor-lt}
use qxmpp.Utils.Crc.{generate_crc32, generate_crc32-lt}
use qxmpp.Utils.Hmac.{replicate}
use qxmpp.Stun.Wire.{u32, read16, read32, read32-u32, read_raw, read_raw-append, zeros}
use qxmpp.Stun.Message.{stun_header, stun_id_size, StunMessage}
use qxmpp.Stun.AttributeType
use qxmpp.Stun.Encode.{
  Platform, attribute, set_body_length, integrity_of, fingerprint_of, fingerprint_mask,
}
use qxmpp.Stun.Decode.{
  accepted, rejected, stop, next, after_value, is_authentic, check_integrity, check_fingerprint,
  decode_value, decode_step,
}
use qxmpp.Stun.RoundTrip.Rounds.{Runs, Runs_end, Runs_next, Runs_stop}
use qxmpp.Stun.RoundTrip.Frames.{
  frame, take-frame, set_body_length-frame, length-attribute, length-integrity_of, signature, seal,
}

fingerprint_of-lt : (b : Bytes) → fingerprint_of b < 4294967296
unfolding fingerprint_of
fingerprint_of-lt b =
    bit_xor-lt 32 (generate_crc32 b) fingerprint_mask (generate_crc32-lt b) (omega arith)

and_false : (b : Bool) → (b && false) ≡ false
and_false true = refl
and_false false = refl

or_true : (b : Bool) → (b || true) ≡ true
or_true true = refl
or_true false = refl

-- The length of MESSAGE-INTEGRITY and its value, as the decoder reads them.
integrity_number : (v : Bytes) → length v ≡ 20 → length v / 256 % 256 * 256 + length v % 256 ≡ 20
integrity_number v len = omega (arith, len)

integrity_value : (v rest : Bytes) → length v ≡ 20 → read_raw zeros 20 (v ++ rest) ≡ (v, rest)
unfolding replicate
integrity_value v rest len =
    ap (λ k. read_raw zeros k (v ++ rest)) (sym len) ∙ read_raw-append zeros v rest refl

is_empty-false : (s : Bytes) → s ≢ [] → is_empty s ≡ false
is_empty-false [] some_given = absurd (some_given refl)
is_empty-false (c ∷ s) some_given = refl

-- What the decoder checks against, cut out of the buffer behind a body `c`.
module _ (m : StunMessage) (size : length m.id ≡ stun_id_size) where
  cut-frame :
      (n k : ℕ) (c x : Bytes)
      → set_body_length (take (stun_header + length c) (frame m n ++ (c ++ x))) k ≡ frame m k ++ c
  cut-frame n k c x = rw (take-frame m size n c x) (set_body_length-frame m size n k c)

  module _ (pf : Platform) (key' : Bytes) (total : ℕ) where
    decode_step-seal :
        (c : Bytes) (signed : Bool) (n f : ℕ)
        → f ≡ fingerprint_of (frame m (length c + 8) ++ c)
        → decode_step pf key'
            (frame m n ++ (c ++ seal m size true c))
            (length c)
            signed
            (attribute AttributeType.fingerprint (u32 f))
            m
          ≡ stop (accepted m)
    unfolding decode_step decode_value check_fingerprint attribute read16
    decode_step-seal c signed n f e =
        let number : read32 (u32 f) ≡ (f, []) = read32-u32 f [] (rw e (fingerprint_of-lt _)) in
        let same : (f == fingerprint_of (frame m (length c + 8) ++ c)) ≡ true =
          rw (← e) (==_refl f) in
        rw (number, cut-frame n (length c + 8) c (seal m size true c), same, and_false signed)

    pub Runs-seal :
        (fp : Bool) (c : Bytes) (signed : Bool) (n : ℕ)
        → Runs pf key'
            (frame m n ++ (c ++ seal m size fp c))
            total
            (seal m size fp c)
            (length c)
            signed
            m
            (accepted m)
    unfolding seal
    Runs-seal false c signed n = Runs_end pf key' _ total (length c) signed m
    Runs-seal true c signed n =
        Runs_stop pf key' _ total _ (length c) signed m (accepted m)
          (decode_step-seal c signed n _ refl)
          (omega (
            arith,
            length-attribute AttributeType.fingerprint
                (u32 (fingerprint_of (frame m (length c + 8) ++ c))),
          ))

    is_authentic-frame :
        (key a x : Bytes) (n : ℕ)
        → (key' ≡ []) ⊎ (key' ≡ key)
        → is_authentic pf key'
            (frame m n ++ (a ++ x))
            (length a)
            (integrity_of pf key (frame m (length a + 24) ++ a))
          ≡ true
    unfolding is_authentic
    is_authentic-frame key a x n (inl none_given) = rw none_given
    is_authentic-frame key a x n (inr same) = rw (
      same,
      cut-frame n (length a + 24) a x,
      text_eq_refl (integrity_of pf key (frame m (length a + 24) ++ a)),
      or_true (is_empty key),
    )

    decode_step-integrity :
        (b v rest : Bytes) (done : ℕ)
        → length v ≡ 20
        → is_authentic pf key' b done v ≡ true
        → decode_step pf key' b done false (attribute AttributeType.message_integrity v ++ rest) m
          ≡ next m true rest 24
    unfolding decode_step decode_value check_integrity after_value attribute read16
    decode_step-integrity b v rest done len authentic =
        rw (integrity_number v len, integrity_value v rest len, authentic)

    Runs-integrity :
        (key a : Bytes) (fp : Bool) (n : ℕ)
        → (key' ≡ []) ⊎ (key' ≡ key)
        → let s =
            attribute AttributeType.message_integrity
              (integrity_of pf key (frame m (length a + 24) ++ a)) in
          Runs pf key'
            (frame m n ++ (a ++ (s ++ seal m size fp (a ++ s))))
            total
            (s ++ seal m size fp (a ++ s))
            (length a)
            false
            m
            (accepted m)
    Runs-integrity key a fp n agree =
        let v = integrity_of pf key (frame m (length a + 24) ++ a) in
        let s = attribute AttributeType.message_integrity v in
        let rest = seal m size fp (a ++ s) in
        let buffer = frame m n ++ (a ++ (s ++ rest)) in
        let len : length v ≡ 20 = length-integrity_of pf key (frame m (length a + 24) ++ a) in
        let long : length s ≡ 24 =
          omega (arith, len, length-attribute AttributeType.message_integrity v) in
        let counted : length (a ++ s) ≡ length a + 24 = omega (arith, length-append a s, long) in
        let sealed : Runs pf key' (frame m n ++ ((a ++ s) ++ rest)) total rest (length (a ++ s))
            true m (accepted m) =
          Runs-seal fp (a ++ s) true n in
        let joined : (a ++ s) ++ rest ≡ a ++ (s ++ rest) = append_assoc a s rest in
        Runs_next pf key' buffer total (s ++ rest) rest (length a) 24 false true m m (accepted m)
          (decode_step-integrity buffer v rest (length a) len
            (is_authentic-frame key a (s ++ rest) n agree))
          (omega (arith, length-append s rest, long)) (omega arith)
          (subst (λ b. Runs pf key' (frame m n ++ b) total rest (length a + 24) true m (accepted m))
            joined
            (subst
              (λ d. Runs pf key' (frame m n ++ ((a ++ s) ++ rest)) total rest d true m (accepted m))
              counted sealed))

    decode_step-forged :
        (b v rest : Bytes) (done : ℕ)
        → length v ≡ 20
        → is_authentic pf key' b done v ≡ false
        → decode_step pf key' b done false (attribute AttributeType.message_integrity v ++ rest) m
          ≡ stop rejected
    unfolding decode_step decode_value check_integrity attribute read16
    decode_step-forged b v rest done len forged =
        rw (integrity_number v len, integrity_value v rest len, forged)

    -- Behind the attributes, what protects them is read to the end and the message is accepted.
    pub Runs-signature :
        (key a : Bytes) (fp : Bool) (n : ℕ)
        → (key' ≡ []) ⊎ (key ≡ []) ⊎ (key' ≡ key)
        → Runs pf key'
            (frame m n
              ++ (a
                  ++ (signature m size pf key a
                      ++ seal m size fp (a ++ signature m size pf key a))))
            total
            (signature m size pf key a ++ seal m size fp (a ++ signature m size pf key a))
            (length a)
            false
            m
            (accepted m)
    unfolding signature
    Runs-signature [] a fp n agree = rw (append-nil a) (Runs-seal fp a false n)
    Runs-signature (k ∷ ks) a fp n agree = elim agree [
      | inl any ↦ Runs-integrity (k ∷ ks) a fp n (inl any)
      | inr (inl none_used) ↦ absurd cc
      | inr (inr same) ↦ Runs-integrity (k ∷ ks) a fp n (inr same)
    ]

    -- A wrong MESSAGE-INTEGRITY ends the loop, whatever is behind it.
    pub Runs-forged :
        (b v rest : Bytes) (done : ℕ)
        → length v ≡ 20
        → is_authentic pf key' b done v ≡ false
        → Runs pf key' b total
            (attribute AttributeType.message_integrity v ++ rest)
            done
            false
            m
            rejected
    Runs-forged b v rest done len forged =
        Runs_stop pf key' b total _ done false m rejected
          (decode_step-forged b v rest done len forged)
          (omega (
            arith,
            length-append (attribute AttributeType.message_integrity v) rest,
            length-attribute AttributeType.message_integrity v,
          ))

    pub is_authentic-forged :
        (key a x : Bytes) (n : ℕ)
        → key' ≢ []
        → integrity_of pf key' (frame m (length a + 24) ++ a)
          ≢ integrity_of pf key (frame m (length a + 24) ++ a)
        → is_authentic pf key'
            (frame m n ++ (a ++ x))
            (length a)
            (integrity_of pf key (frame m (length a + 24) ++ a))
          ≡ false
    unfolding is_authentic
    is_authentic-forged key a x n given differ =
        let i = integrity_of pf key (frame m (length a + 24) ++ a) in
        let i' = integrity_of pf key' (frame m (length a + 24) ++ a) in
        let nonempty : is_empty key' ≡ false = is_empty-false key' given in
        let different : text_eq i i' ≡ false = ground (arith, text_eq_iff i i') in
        rw (nonempty, cut-frame n (length a + 24) a x, different)
