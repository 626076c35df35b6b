-- ===== src/Stun/Total.antt =====
-- Rounds of the decoder on any bytes.
use qxmpp.Common.{
  ℕ, zero, suc, ◌+◌, ◌-◌, ◌<◌, ◌≤◌, ◌≢◌, Bool, true, false, not, ◌&&◌, Bytes, length, take, ltb,
  ◌==◌, if◌then◌else◌, arith, none, some, Bool-cases, inl, inr,
}
use qxmpp.Stun.Wire.{zeros, pad_length, read16, read32, read_raw}
use qxmpp.Stun.Message.{stun_header, StunMessage}
use qxmpp.Stun.AttributeType
use qxmpp.Stun.Encode.{Platform, set_body_length, fingerprint_of}
use qxmpp.Stun.Decode.{
  Decoded, accepted, rejected, exhausted, Step, stop, next, Read, after_value, is_authentic,
  check_integrity, check_fingerprint, decode_value, decode_step, follow, decode_loop, decode,
}

-- A round ends the loop with an answer, or counts four bytes or more.
data Grows : Step → Type 0 where
  ends : (d : Decoded) → d ≢ exhausted → Grows (stop d)
  counts : (m : StunMessage) (signed : Bool) (s : Bytes) (n : ℕ) → 4 ≤ n → Grows (next m signed s n)

accepted_ends : (m : StunMessage) → accepted m ≢ exhausted
accepted_ends m e = absurd cc

rejected_ends : rejected ≢ exhausted
rejected_ends e = absurd cc

four-le : (n p : ℕ) → 4 ≤ 4 + n + p
four-le n p = omega arith

if-Grows : (b : Bool) (x y : Step) → Grows x → Grows y → Grows (if b then x else y)
if-Grows true x y p q = p
if-Grows false x y p q = q

if-ends :
    (b : Bool) (x y : Decoded) → x ≢ exhausted → y ≢ exhausted → (if b then x else y) ≢ exhausted
if-ends true x y p q = p
if-ends false x y p q = q

module _ (pf : Platform) (key buffer : Bytes) where
  after_value-Grows : (n : ℕ) (signed : Bool) (r : Read) → Grows (after_value pf n signed r)
  unfolding after_value
  after_value-Grows n signed none = ends rejected rejected_ends
  after_value-Grows n signed (some (m, s)) = counts m signed _ _ (omega arith)

  refused : Grows (stop rejected)
  refused = ends rejected rejected_ends

  check_integrity-Grows :
      (done n : ℕ) (s : Bytes) (m : StunMessage) → Grows (check_integrity pf key buffer done n s m)
  unfolding check_integrity
  check_integrity-Grows done n s m =
      if-Grows (n == 20) _ _
        (if-Grows (is_authentic pf key buffer done (read_raw zeros 20 s).0) _ _
          (after_value-Grows n true _) refused)
        refused

  check_fingerprint-Grows :
      (done n : ℕ) (s : Bytes) (m : StunMessage) → Grows (check_fingerprint pf buffer done n s m)
  unfolding check_fingerprint
  check_fingerprint-Grows done n s m =
      if-Grows (n == 4) _ _
        (if-Grows
          ((read32 s).0
            == fingerprint_of (set_body_length (take (stun_header + done) buffer) (done + 8)))
          _ _ (ends (accepted m) (accepted_ends m)) refused)
        refused

  decode_value-Grows :
      (done : ℕ) (signed : Bool) (t n : ℕ) (s : Bytes) (m : StunMessage)
      → Grows (decode_value pf key buffer done signed t n s m)
  unfolding decode_value
  decode_value-Grows done signed t n s m =
      if-Grows (signed && not (t == AttributeType.fingerprint)) _ _
        (counts m signed _ _ (four-le n (pad_length n)))
        (if-Grows (t == AttributeType.message_integrity) _ _ (check_integrity-Grows done n s m) (
          if-Grows (t == AttributeType.fingerprint) _ _ (check_fingerprint-Grows done n s m)
            (after_value-Grows n signed _)))

  decode_step-Grows :
      (done : ℕ) (signed : Bool) (s : Bytes) (m : StunMessage)
      → Grows (decode_step pf key buffer done signed s m)
  unfolding decode_step
  decode_step-Grows done signed s m = decode_value-Grows done signed _ _ _ m

  follow-ends :
      (f total done : ℕ) (step : Step)
      → Grows step
      → ((signed : Bool) (s : Bytes) (m : StunMessage) (n : ℕ)
          → 4 ≤ n
          → decode_loop pf f key buffer total (done + n) signed s m ≢ exhausted)
      → follow pf (decode_loop pf f key buffer total) done step ≢ exhausted
  unfolding follow
  follow-ends f total done (stop d) (ends _ p) rest = p
  follow-ends f total done (next m signed s n) (counts _ _ _ _ p) rest = rest signed s m n p

  decode_loop-ends :
      (f total done : ℕ) (signed : Bool) (s : Bytes) (m : StunMessage)
      → 0 < f
      → total < done + f
      → decode_loop pf f key buffer total done signed s m ≢ exhausted
  unfolding decode_loop
  decode_loop-ends zero total done signed s m pos h = absurd (omega arith)
  decode_loop-ends (suc f) total done signed s m pos h =
      let step = decode_step pf key buffer done signed s m in
      elim (Bool-cases (ltb done total)) [
        | inl under ↦
            (let left : done < total = ground arith in
              rw under (
                follow-ends f total done step (decode_step-Grows done signed s m)
                  (λ signed' s' m' n grown.
                    decode_loop-ends f total (done + n) signed' s' m' (omega arith) (omega arith))))
        | inr over ↦ rw over (accepted_ends m)
      ]

  -- On any bytes, under any key and into any object, decode accepts or rejects: the loop never runs
  -- out of rounds.
  pub decode-ends : (m : StunMessage) → decode pf key buffer m ≢ exhausted
  unfolding decode
  decode-ends m =
      let n = (read16 (read16 buffer).1).0 in
      if-ends (ltb (length buffer) stun_header) _ _ rejected_ends (
        if-ends (n == length buffer - stun_header) _ _
          (decode_loop-ends (suc n) n 0 false _ _ (omega arith) (omega arith)) rejected_ends)
