-- ===== src/Sasl/DigestMd5/Sorted.antt =====
-- Messages with fixed keys: a test decides that the keys are sorted and well formed.
use qxmpp.Common.{
  ◌≡◌, ◌≢◌, Bool, true, false, not, ◌&&◌, [], ◌∷◌, Bytes, All, arith, text_eq, text_eq_iff,
}
use qxmpp.Sasl.Message.{QMap, bytes_less, trimmed, contains_byte, serialize_message}
use qxmpp.Sasl.Message.Map.{IsSorted}
use qxmpp.Sasl.Message.Values.{last_or}
use qxmpp.Sasl.Message.RoundTrip.{IsEntry, parse_message-serialize_message}
use qxmpp.Sasl.DigestMd5.{parsed}

abbrev pub NoBackslash : Bytes → Type 0
NoBackslash v = last_or b'"' v ≢ b'\\'

unfoldable pub is_below : Bytes → QMap → Bool
is_below k [] = true
is_below k ((j, v) ∷ m) = bytes_less k j && is_below k m

unfoldable pub is_key : Bytes → Bool
is_key k = not (contains_byte k b'=') && text_eq (trimmed k) k

unfoldable pub are_keys : QMap → Bool
unfolding is_below is_key
are_keys [] = true
are_keys ((k, v) ∷ m) = is_key k && (is_below k m && are_keys m)

is_below-All :
    (k : Bytes) (m : QMap)
    → is_below k m ≡ true
    → All (λ (e : Bytes × Bytes). bytes_less k e.0 ≡ true) m
unfolding is_below
is_below-All k [] h = tt
is_below-All k ((j, v) ∷ m) h = (ground arith, is_below-All k m (ground arith))

are_keys-IsSorted : (m : QMap) → are_keys m ≡ true → IsSorted m
unfolding are_keys
are_keys-IsSorted [] h = tt
are_keys-IsSorted ((k, v) ∷ m) h =
    (is_below-All k m (ground arith), are_keys-IsSorted m (ground arith))

is_key_lem : (k : Bytes) → is_key k ≡ true → (contains_byte k b'=' ≡ false) × (trimmed k ≡ k)
unfolding is_key
is_key_lem k h = ground (arith, text_eq_iff (trimmed k) k)

are_keys-IsEntry :
    (m : QMap) → are_keys m ≡ true → All (λ (e : Bytes × Bytes). NoBackslash e.1) m → All IsEntry m
unfolding are_keys
are_keys-IsEntry [] h ok = tt
are_keys-IsEntry ((k, v) ∷ m) h (value, ok) =
    let (equals, space) = is_key_lem k (ground arith) in
    (
      record { no_equals = equals; no_space = space; no_backslash = value },
      are_keys-IsEntry m (ground arith) ok,
    )

-- A message with good keys and values is read as it was written.
pub parsed-serialize_message :
    (m : QMap)
    → are_keys m ≡ true
    → All (λ (e : Bytes × Bytes). NoBackslash e.1) m
    → parsed (serialize_message m) ≡ m
unfolding parsed
parsed-serialize_message m keys ok = rw (
  parsed,
  parse_message-serialize_message m (are_keys-IsSorted m keys) (are_keys-IsEntry m keys ok),
)
