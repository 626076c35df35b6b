-- ===== src/Sasl/Message.antt =====
-- The messages of DIGEST-MD5: QXmppSaslDigestMd5::parseMessage and serializeMessage of
-- base/QXmppSasl.cpp. A position in the text is the text behind it. A QMap is the list of its
-- entries, sorted by key.
use qxmpp.Common.{
  ℕ, zero, suc, Bool, true, false, not, ◌&&◌, ◌||◌, List, [], ◌∷◌, ◌++◌, Option, none, some, Bytes,
  codes, text_eq, is_empty, length, drop, ltb, ◌==◌, if◌then◌else◌,
}
pub mod Map
pub mod Values
pub mod RoundTrip
pub mod Total
pub mod Backslash

abbrev pub QMap : Type 0
QMap = List (Bytes × Bytes)

-- The first position of a byte: what stands before and behind it.
unfoldable pub split_at : ℕ → Bytes → Option (Bytes × Bytes)
split_at c [] = none
split_at c (a ∷ s) =
    if a == c
    then some ([], s)
    else elim (split_at c s) [ none ↦ none | some (before, after) ↦ some (a ∷ before, after) ]

-- `<` of QByteArray.
unfoldable pub bytes_less : Bytes → Bytes → Bool
bytes_less s [] = false
bytes_less [] (b ∷ t) = true
bytes_less (a ∷ s) (b ∷ t) = if a == b then bytes_less s t else ltb a b

-- `map[key] = value`.
unfoldable pub insert : Bytes → Bytes → QMap → QMap
unfolding bytes_less
insert key value [] = (key, value) ∷ []
insert key value ((k, v) ∷ m) =
    let later = insert key value m in
    if text_eq key k
    then (key, value) ∷ m
    else if bytes_less key k
    then (key, value) ∷ (k, v) ∷ m
    else (k, v) ∷ later

-- QMap::value, with what it gives for a missing key.
unfoldable pub value_or : Bytes → Bytes → QMap → Bytes
value_or default key [] = default
value_or default key ((k, v) ∷ m) = if text_eq key k then v else value_or default key m

unfoldable pub contains_key : Bytes → QMap → Bool
contains_key key [] = false
contains_key key ((k, v) ∷ m) = text_eq key k || contains_key key m

-- QByteArray::trimmed.
unfoldable pub is_space : ℕ → Bool
is_space c = c == b' ' || (ltb 8 c && ltb c 14)

unfoldable pub trim_front : Bytes → Bytes
unfolding is_space
trim_front [] = []
trim_front (c ∷ s) = let front = trim_front s in if is_space c then front else c ∷ s

unfoldable pub trim_back : Bytes → Bytes
unfolding is_space
trim_back [] = []
trim_back (c ∷ s) = let back = trim_back s in if is_empty back && is_space c then [] else c ∷ back

unfoldable pub trimmed : Bytes → Bytes
unfolding trim_front trim_back
trimmed s = trim_back (trim_front s)

-- The search for the closing quote, with the byte before the position.
unfoldable pub find_quote : ℕ → Bytes → Option (Bytes × Bytes)
find_quote prev [] = none
find_quote prev (c ∷ s) =
    if c == b'"' && not (prev == b'\\')
    then some ([], s)
    else elim (find_quote c s) [ none ↦ none | some (before, after) ↦ some (c ∷ before, after) ]

-- `value.replace` of two bytes by one.
unfoldable pub replace_pair : ℕ → ℕ → ℕ → Bytes → Bytes
replace_pair a b c [] = []
replace_pair a b c (x ∷ []) = x ∷ []
replace_pair a b c (x ∷ y ∷ s) = elim (x == a && y == b) [
  | true ↦ c ∷ replace_pair a b c s
  | false ↦ x ∷ replace_pair a b c (y ∷ s)
]

unfoldable pub unquote : Bytes → Bytes
unfolding replace_pair
unquote value = replace_pair b'\\' b'\\' b'\\' (replace_pair b'\\' b'"' b'"' value)

-- The text behind the opening quote. With no closing quote the map is what was read before.
unfoldable pub parse_quoted : (Bytes → QMap → Option QMap) → Bytes → Bytes → QMap → Option QMap
unfolding find_quote unquote insert
parse_quoted next key s m = elim (find_quote b'"' s) [
  | none ↦ some m
  | some (quoted, after) ↦ next (drop 1 after) (insert key (unquote quoted) m)
]

unfoldable pub parse_plain : (Bytes → QMap → Option QMap) → Bytes → Bytes → QMap → Option QMap
unfolding split_at insert
parse_plain next key s m = elim (split_at b',' s) [
  | none ↦ next [] (insert key s m)
  | some (plain, after) ↦ next after (insert key plain m)
]

-- The text behind the equals sign.
unfoldable pub parse_value : (Bytes → QMap → Option QMap) → Bytes → Bytes → QMap → Option QMap
unfolding insert parse_quoted parse_plain
parse_value next key [] m = next [] (insert key [] m)
parse_value next key (c ∷ s) m =
    if c == b'"' then parse_quoted next key s m else parse_plain next key (c ∷ s) m

-- The loop, with fuel for its rounds; `none` means that it ran out.
unfoldable pub parse_loop : ℕ → Bytes → QMap → Option QMap
unfolding split_at trimmed parse_value
parse_loop zero s m = none
parse_loop (suc fuel) s m = elim (split_at b'=' s) [
  | none ↦ some m
  | some (key, after) ↦ parse_value (parse_loop fuel) (trimmed key) after m
]

unfoldable pub parse_message : Bytes → Option QMap
unfolding parse_loop
parse_message ba = parse_loop (suc (length ba)) ba []

-- Serializing.
abbrev pub separators : Bytes
separators = codes "()<>@,;:\\\"/[]?={} \t"

unfoldable pub contains_byte : Bytes → ℕ → Bool
contains_byte [] c = false
contains_byte (a ∷ s) c = a == c || contains_byte s c

unfoldable pub contains_any : Bytes → Bytes → Bool
unfolding contains_byte
contains_any s [] = false
contains_any s (c ∷ more) = contains_byte s c || contains_any s more

-- `value.replace` of a byte by a backslash and the byte.
unfoldable pub escape : ℕ → Bytes → Bytes
escape c [] = []
escape c (a ∷ s) = if a == c then b'\\' ∷ a ∷ escape c s else a ∷ escape c s

unfoldable pub serialize_value : Bytes → Bytes
unfolding contains_any escape
serialize_value value =
    if contains_any value separators
    then b'"' ∷ (escape b'"' (escape b'\\' value) ++ (b'"' ∷ []))
    else value

unfoldable pub serialize_from : Bytes → QMap → Bytes
unfolding serialize_value
serialize_from ba [] = ba
serialize_from ba ((k, v) ∷ m) =
    serialize_from
      ((if is_empty ba then ba else ba ++ (b',' ∷ [])) ++ (k ++ (b'=' ∷ serialize_value v))) m

unfoldable pub serialize_message : QMap → Bytes
unfolding serialize_from
serialize_message m = serialize_from [] m
