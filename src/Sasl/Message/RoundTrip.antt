-- ===== src/Sasl/Message/RoundTrip.antt =====
-- Messages that are written and read.
use mathlib.Core.List.{append-nil, append_assoc}
use qxmpp.Common.{
  ℕ, zero, suc, ◌<◌, ◌≤◌, ◌≡◌, ◌≢◌, refl, ap, sym, ◌∙◌, false, Option, none, some, [], ◌∷◌, ◌++◌,
  Bytes, length, arith, All, length-append,
}
use qxmpp.Sasl.Message.{
  QMap, split_at, parse_value, parse_loop, parse_message, trimmed, insert, contains_byte,
  serialize_value, serialize_from, serialize_message,
}
use qxmpp.Sasl.Message.Map.{IsSorted, insert_all, insert_all-nil}
use qxmpp.Sasl.Message.Values.{
  last_or, behind, following, split_at-append, parse_value-serialize_value,
}

-- A key without an equals sign and without white space around it; a value that does not end in a
-- backslash.
pub record IsEntry (e : Bytes × Bytes) : Type 0 where
  pub no_equals : contains_byte e.0 b'=' ≡ false
  pub no_space : trimmed e.0 ≡ e.0
  pub no_backslash : last_or b'"' e.1 ≢ b'\\'

-- The text of the entries, with commas between them.
unfoldable pub entries : QMap → Option Bytes
entries [] = none
entries ((k, v) ∷ m) = some (k ++ (b'=' ∷ (serialize_value v ++ behind (entries m))))

serialize_from_lem :
    (m : QMap) (c : ℕ) (ba : Bytes) → serialize_from (c ∷ ba) m ≡ (c ∷ ba) ++ behind (entries m)
unfolding serialize_from entries
serialize_from_lem [] c ba = sym (append-nil (c ∷ ba))
serialize_from_lem ((k, v) ∷ m) c ba = serialize_from_lem m c _ ∙ simp append_assoc

-- The first entry.
serialize_first :
    (k s : Bytes) (m : QMap)
    → serialize_from (k ++ (b'=' ∷ s)) m ≡ (k ++ (b'=' ∷ s)) ++ behind (entries m)
serialize_first [] s m = serialize_from_lem m b'=' s
serialize_first (c ∷ k) s m = serialize_from_lem m c _

pub serialize_message-entries : (m : QMap) → serialize_message m ≡ following (entries m)
unfolding serialize_message serialize_from entries
serialize_message-entries [] = refl
serialize_message-entries ((k, v) ∷ m) = serialize_first k (serialize_value v) m ∙ rw append_assoc

pub parse_loop_step :
    (fuel : ℕ) (k s : Bytes) (acc : QMap)
    → contains_byte k b'=' ≡ false
    → trimmed k ≡ k
    → parse_loop (suc fuel) (k ++ (b'=' ∷ s)) acc ≡ parse_value (parse_loop fuel) k s acc
unfolding parse_loop
parse_loop_step fuel k s acc h e = rw (parse_loop, split_at-append b'=' k s h, e)

parse_loop-entries :
    (fuel : ℕ) (m acc : QMap)
    → length m < fuel
    → All IsEntry m
    → parse_loop fuel (following (entries m)) acc ≡ some (insert_all m acc)
unfolding entries insert_all
parse_loop-entries zero m acc h ok = absurd (omega arith)
parse_loop-entries (suc fuel) [] acc h ok = unfold parse_loop split_at in refl
parse_loop-entries (suc fuel) ((k, v) ∷ m) acc h (entry, ok) =
    parse_loop_step fuel k _ acc entry.no_equals entry.no_space
    ∙ parse_value-serialize_value (parse_loop fuel) k v (entries m) acc entry.no_backslash
    ∙ parse_loop-entries fuel m (insert k v acc) (omega arith) ok

length-behind : (o : Option Bytes) → length (following o) ≤ length (behind o)
length-behind none = omega arith
length-behind (some s) = omega arith

pub length-entries : (m : QMap) → length m ≤ length (following (entries m))
unfolding entries
length-entries [] = omega arith
length-entries ((k, v) ∷ m) = omega (
  arith,
  length-append {0} k (b'=' ∷ (serialize_value v ++ behind (entries m))),
  length-append {0} (serialize_value v) (behind (entries m)),
  length-behind (entries m),
  length-entries m,
)

-- The parser reads back every sorted map that the serialiser writes, whatever else the values hold,
-- if no key has an equals sign or white space around it and no value ends in a backslash.
pub parse_message-serialize_message :
    (m : QMap) → IsSorted m → All IsEntry m → parse_message (serialize_message m) ≡ some m
unfolding parse_message
parse_message-serialize_message m sorted ok = rw serialize_message-entries (
    parse_loop-entries (suc (length (following (entries m)))) m [] (omega (arith, length-entries m))
      ok
    ∙ ap some (insert_all-nil m sorted))
