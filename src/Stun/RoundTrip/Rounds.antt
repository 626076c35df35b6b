-- ===== src/Stun/RoundTrip/Rounds.antt =====
-- Runs of the decoder's loop over bytes that end where the header says, round by round.
use mathlib.Core.List.{append-nil, append_assoc}
use qxmpp.Common.{
  ℕ, ◌%◌, zero, suc, ◌+◌, ◌<◌, ◌≡◌, sym, ap, Bool, true, false, [], ◌++◌, some, Bytes, ◌==◌, ltb,
  length, length-append, drop, drop-append, arith,
}
use qxmpp.Stun.Wire.{u16, read16-u16, padding, pad_length, length-padding}
use qxmpp.Stun.Message.{StunMessage}
use qxmpp.Stun.AttributeType
use qxmpp.Stun.Encode.{Platform, attribute, padded_attribute}
use qxmpp.Stun.Decode.{
  Decoded, accepted, stop, next, decode_attribute, after_value, decode_value, decode_step, follow,
  decode_loop,
}

pub length-padded_attribute :
    (t : ℕ) (v : Bytes) → length (padded_attribute t v) ≡ 4 + length v + pad_length (length v)
unfolding padded_attribute
length-padded_attribute t v =
    omega (arith, length-append v (padding (length v)), length-padding (length v))

module _ (pf : Platform) (key buffer : Bytes) (total : ℕ) where
  -- From these bytes on, where `done` are counted, the loop gives this answer with any fuel above
  -- their number.
  abbrev pub Runs : Bytes → ℕ → Bool → StunMessage → Decoded → Type 0
  Runs s done signed m d =
      done + length s ≡ total
      → (f : ℕ) → length s < f
      → decode_loop pf f key buffer total done signed s m ≡ d

  pub Runs_end : (done : ℕ) (signed : Bool) (m : StunMessage) → Runs [] done signed m (accepted m)
  unfolding decode_loop
  Runs_end done signed m h zero lt = absurd (omega arith)
  Runs_end done signed m h (suc f) lt = let over : ltb done total ≡ false = ground arith in rw over

  pub Runs_next :
      (s rest : Bytes) (done n : ℕ) (signed signed' : Bool) (m m' : StunMessage) (d : Decoded)
      → decode_step pf key buffer done signed s m ≡ next m' signed' rest n
      → n + length rest ≡ length s
      → 0 < n
      → Runs rest (done + n) signed' m' d
      → Runs s done signed m d
  unfolding decode_loop follow
  Runs_next s rest done n signed signed' m m' d e size pos r h zero lt = absurd (omega arith)
  Runs_next s rest done n signed signed' m m' d e size pos r h (suc f) lt =
      let under : ltb done total ≡ true = ground arith in
      rw (under, e) (r (omega arith) f (omega arith))

  pub Runs_stop :
      (s : Bytes) (done : ℕ) (signed : Bool) (m : StunMessage) (d : Decoded)
      → decode_step pf key buffer done signed s m ≡ stop d
      → 0 < length s
      → Runs s done signed m d
  unfolding decode_loop follow
  Runs_stop s done signed m d e pos h zero lt = absurd (omega arith)
  Runs_stop s done signed m d e pos h (suc f) lt =
      let under : ltb done total ≡ true = ground arith in rw (under, e)

  module _ (t : ℕ) (v rest : Bytes) (done : ℕ) (m m' : StunMessage) (ht : t < 65536)
      (hv : length v < 65536) (ni : (t == AttributeType.message_integrity) ≡ false)
      (nf : (t == AttributeType.fingerprint) ≡ false)
      (reads : (s : Bytes) → decode_attribute pf t (length v) (v ++ s) m ≡ some (m', s)) where
    decode_step-padded_attribute :
        decode_step pf key buffer done false (padded_attribute t v ++ rest) m
        ≡ next m' false rest (length (padded_attribute t v))
    unfolding decode_step decode_value after_value
    decode_step-padded_attribute =
        let behind = padding (length v) ++ rest in
        let bytes : padded_attribute t v ++ rest ≡ u16 t ++ (u16 (length v) ++ (v ++ behind)) =
          unfold padded_attribute in
          ap (λ z. u16 t ++ (u16 (length v) ++ z)) (append_assoc v (padding (length v)) rest) in
        let skipped : drop (pad_length (length v)) behind ≡ rest =
          rw (← length-padding (length v)) (drop-append (padding (length v)) rest) in
        rw (
          bytes,
          read16-u16 t (u16 (length v) ++ (v ++ behind)) ht,
          read16-u16 (length v) (v ++ behind) hv,
          ni,
          nf,
          reads behind,
          skipped,
          length-padded_attribute t v,
        )

    -- A padded attribute whose value is read to `m'`.
    pub Runs_attribute :
        (d : Decoded)
        → Runs rest (done + length (padded_attribute t v)) false m' d
        → Runs (padded_attribute t v ++ rest) done false m d
    Runs_attribute d r =
        Runs_next (padded_attribute t v ++ rest) rest done (length (padded_attribute t v)) false
          false m m' d decode_step-padded_attribute
          (sym (length-append (padded_attribute t v) rest))
          (omega (arith, length-padded_attribute t v)) r

-- An attribute whose value fills whole words needs no padding.
pub attribute-padded :
    (t : ℕ) (v : Bytes) → pad_length (length v) ≡ 0 → attribute t v ≡ padded_attribute t v
unfolding attribute padded_attribute padding
attribute-padded t v h =
    let whole : (length v % 4 == 0) ≡ true = ground arith in rw (whole, append-nil v)
