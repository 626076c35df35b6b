-- ===== src/Sasl/Message/Backslash.antt =====
-- Values that end in a backslash, between quotes.
use mathlib.Core.List.{append-nil}
use qxmpp.Common.{
  ℕ, ◌<◌, ◌≡◌, ◌≢◌, refl, ap, ◌∙◌, true, false, Option, none, some, [], ◌∷◌, ◌++◌, Bytes, arith,
  length, zero, suc, All, length-append,
}
use qxmpp.Sasl.Message.{
  QMap, find_quote, parse_value, parse_quoted, parse_loop, parse_message, trimmed, contains_byte,
  contains_any, separators, serialize_value, serialize_message, insert,
}
use qxmpp.Sasl.Message.Map.{IsSorted, insert_all, insert_all-nil}
use qxmpp.Sasl.Message.Values.{
  last_or, escaped, escape-escape, following, parse_value-serialize_value,
}
use qxmpp.Sasl.Message.RoundTrip.{
  IsEntry, entries, parse_loop_step, serialize_message-entries, length-entries,
}

find_quote-backslash :
    (v : Bytes) (prev : ℕ)
    → last_or prev v ≡ b'\\'
    → find_quote prev (escaped v ++ (b'"' ∷ [])) ≡ none
unfolding find_quote escaped
find_quote-backslash [] prev h = ground arith
find_quote-backslash (c ∷ v) prev h = ground (arith, find_quote-backslash v c)

holds_backslash :
    (v : Bytes) (prev : ℕ) → last_or prev v ≡ b'\\' → prev ≢ b'\\' → contains_byte v b'\\' ≡ true
unfolding contains_byte
holds_backslash [] prev h n = absurd (n h)
holds_backslash (c ∷ v) prev h n = ground (arith, holds_backslash v c)

holds_any :
    (v seps : Bytes) (c : ℕ)
    → contains_byte v c ≡ true
    → contains_byte seps c ≡ true
    → contains_any v seps ≡ true
unfolding contains_any contains_byte
holds_any v [] c h e = absurd (cc)
holds_any v (a ∷ seps) c h e = ground (arith, holds_any v seps c)

separates_backslash : contains_byte separators b'\\' ≡ true
unfolding contains_byte
separates_backslash = refl

quoted :
    (v : Bytes)
    → contains_any v separators ≡ true
    → serialize_value v ≡ b'"' ∷ (escaped v ++ (b'"' ∷ []))
unfolding serialize_value
quoted v h = rw (h, escape-escape v)

unfinished :
    (next : Bytes → QMap → Option QMap) (k v : Bytes) (m : QMap)
    → last_or b'"' v ≡ b'\\'
    → parse_value next k (b'"' ∷ (escaped v ++ (b'"' ∷ []))) m ≡ some m
unfolding parse_value parse_quoted
unfinished next k v m h = rw (parse_quoted, find_quote-backslash v b'"' h)

-- The rest of a message whose last value ends in a backslash: its other entries are read.
parse_loop-backslash :
    (fuel : ℕ) (m acc : QMap) (k v : Bytes)
    → length m < fuel
    → All IsEntry m
    → contains_byte k b'=' ≡ false
    → trimmed k ≡ k
    → last_or b'"' v ≡ b'\\'
    → parse_loop fuel (following (entries (m ++ ((k, v) ∷ [])))) acc ≡ some (insert_all m acc)
unfolding entries insert_all
parse_loop-backslash zero m acc k v few ok equals space h = absurd (omega arith)
parse_loop-backslash (suc fuel) [] acc k v few ok equals space h =
    let written : serialize_value v ++ [] ≡ b'"' ∷ (escaped v ++ (b'"' ∷ [])) =
      append-nil (serialize_value v)
      ∙ quoted v (
          holds_any v separators b'\\' (holds_backslash v b'"' h (omega arith))
            separates_backslash) in
    parse_loop_step fuel k (serialize_value v ++ []) acc equals space
    ∙ ap (λ (s : Bytes). parse_value (parse_loop fuel) k s acc) written
    ∙ unfinished (parse_loop fuel) k v acc h
parse_loop-backslash (suc fuel) ((j, w) ∷ m) acc k v few (entry, ok) equals space h =
    parse_loop_step fuel j _ acc entry.no_equals entry.no_space
    ∙ parse_value-serialize_value (parse_loop fuel) j w (entries (m ++ ((k, v) ∷ []))) acc
        entry.no_backslash
    ∙ parse_loop-backslash fuel m (insert j w acc) k v (omega arith) ok equals space h

-- Let the last value of a message end in a backslash, and the entries before it be sorted, with no other
-- such value; and let no key have an equals sign or white space around it. Then of what the
-- serialiser writes the parser reads the entries before the last one, and that one is lost.
pub parse_message-backslash :
    (m : QMap) (k v : Bytes)
    → IsSorted m
    → All IsEntry m
    → contains_byte k b'=' ≡ false
    → trimmed k ≡ k
    → last_or b'"' v ≡ b'\\'
    → parse_message (serialize_message (m ++ ((k, v) ∷ []))) ≡ some m
unfolding parse_message
parse_message-backslash m k v sorted ok equals space h =
    let longer = length-append m ((k, v) ∷ []) in
    rw (serialize_message-entries) (
      parse_loop-backslash (suc (length (following (entries (m ++ ((k, v) ∷ [])))))) m [] k v
        (omega (arith, longer, length-entries (m ++ ((k, v) ∷ [])))) ok equals space h
      ∙ ap some (insert_all-nil m sorted))
