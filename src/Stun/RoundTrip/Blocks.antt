-- ===== src/Stun/RoundTrip/Blocks.antt =====
-- Blocks of attributes by what reading them does to the message.
use mathlib.Core.List.{append_assoc}
use qxmpp.Common.{
  ℕ, ◌+◌, ◌<◌, ◌≡◌, refl, false, [], ◌++◌, some, Bytes, ◌==◌, length, length-append, arith,
}
use qxmpp.Stun.Wire.{pad_length}
use qxmpp.Stun.Message.{StunMessage}
use qxmpp.Stun.AttributeType
use qxmpp.Stun.Encode.{Platform, attribute, padded_attribute}
use qxmpp.Stun.Decode.{Decoded, decode_attribute}
use qxmpp.Stun.RoundTrip.Rounds.{Runs, Runs_attribute, attribute-padded}

module _ (pf : Platform) (key buffer : Bytes) (total : ℕ) where
  -- Reading the block `b` turns the message `m` into `m'`.
  pub record Reads (b : Bytes) (m m' : StunMessage) : Type 0 where
    pub run :
        (rest : Bytes) (done done' : ℕ) (d : Decoded)
        → done' ≡ done + length b
        → Runs pf key buffer total rest done' false m' d
        → Runs pf key buffer total (b ++ rest) done false m d

  pub Reads-nil : (m : StunMessage) → Reads [] m m
  Reads-nil m = record {
    run = λ rest done done' d e r. let same : done' ≡ done = omega arith in rw (← same) r;
  }

  pub Reads-append :
      {b c : Bytes} {m n p : StunMessage} → Reads b m n → Reads c n p → Reads (b ++ c) m p
  Reads-append {b} {c} first second = record {
    run = λ rest done done' d e r. rw (append_assoc b c rest) (
        first.run (c ++ rest) done (done + length b) d refl
          (second.run rest (done + length b) done' d (omega (arith, length-append b c)) r));
  }

  -- Both kinds of attributes, of a type that has no meaning of its own for the loop.
  module _ (t : ℕ) (v : Bytes) (m m' : StunMessage) (ht : t < 65536)
      (ni : (t == AttributeType.message_integrity) ≡ false)
      (nf : (t == AttributeType.fingerprint) ≡ false) (hv : length v < 65536)
      (reads : (s : Bytes) → decode_attribute pf t (length v) (v ++ s) m ≡ some (m', s)) where
    pub Reads-padded_attribute : Reads (padded_attribute t v) m m'
    Reads-padded_attribute = record {
      run = λ rest done done' d e r.
          Runs_attribute pf key buffer total t v rest done m m' ht hv ni nf reads d (rw (← e) r);
    }

    pub Reads-attribute : pad_length (length v) ≡ 0 → Reads (attribute t v) m m'
    Reads-attribute whole = rw (attribute-padded t v whole) Reads-padded_attribute
