-- ===== src/Sasl/Message/Values.antt =====
-- A value that is written between quotes, or as it is, and read.
use qxmpp.Common.{
  ℕ, ◌≡◌, ◌≢◌, inl, inr, refl, true, false, ◌||◌, [], ◌∷◌, ◌++◌, Option, none, some, Bytes, arith,
  ◌==◌, Bool-cases, if◌then◌else◌,
}
use mathlib.Core.List.{append-nil, append_assoc}
use qxmpp.Sasl.Message.{
  QMap, split_at, find_quote, replace_pair, unquote, contains_byte, contains_any, escape,
  serialize_value, parse_value, parse_quoted, parse_plain, insert, separators,
}

abbrev pub last_or : ℕ → Bytes → ℕ
last_or c [] = c
last_or c (a ∷ s) = last_or a s

-- Both replacements of the serialiser in one.
unfoldable pub escaped : Bytes → Bytes
escaped [] = []
escaped (c ∷ s) = if c == b'"' || c == b'\\' then b'\\' ∷ c ∷ escaped s else c ∷ escaped s

pub escape-escape : (v : Bytes) → escape b'"' (escape b'\\' v) ≡ escaped v
unfolding escape escaped
escape-escape [] = refl
escape-escape (c ∷ s) = ground (arith, escape-escape s)

-- Only the quote is undone.
doubled : Bytes → Bytes
doubled [] = []
doubled (c ∷ s) = if c == b'\\' then b'\\' ∷ b'\\' ∷ doubled s else c ∷ doubled s

pub find_quote-escaped :
    (v rest : Bytes) (prev : ℕ)
    → last_or prev v ≢ b'\\'
    → find_quote prev (escaped v ++ (b'"' ∷ rest)) ≡ some (escaped v, rest)
unfolding find_quote escaped
find_quote-escaped [] rest prev h = ground arith
find_quote-escaped (c ∷ v) rest prev h = ground (arith, find_quote-escaped v rest c)

-- A backslash that no quote follows stays.
skip_backslash :
    (v : Bytes)
    → replace_pair b'\\' b'"' b'"' (b'\\' ∷ escaped v)
      ≡ b'\\' ∷ replace_pair b'\\' b'"' b'"' (escaped v)
unfolding replace_pair escaped
skip_backslash [] = refl
skip_backslash (c ∷ v) = ground arith

escaped_two :
    (v : Bytes)
    → replace_pair b'\\' b'"' b'"' (b'\\' ∷ b'\\' ∷ escaped v)
      ≡ b'\\' ∷ replace_pair b'\\' b'"' b'"' (b'\\' ∷ escaped v)
unfolding replace_pair
escaped_two v = refl

skip_other :
    (c : ℕ) (s : Bytes)
    → c ≢ b'\\'
    → replace_pair b'\\' b'"' b'"' (c ∷ s) ≡ c ∷ replace_pair b'\\' b'"' b'"' s
unfolding replace_pair
skip_other c [] h = refl
skip_other c (b ∷ s) h = ground arith

replace_one :
    (c : ℕ) (s : Bytes) → replace_pair b'\\' c c (b'\\' ∷ c ∷ s) ≡ c ∷ replace_pair b'\\' c c s
unfolding replace_pair
replace_one c s = ground arith

replace_quotes : (v : Bytes) → replace_pair b'\\' b'"' b'"' (escaped v) ≡ doubled v
unfolding escaped doubled
replace_quotes [] = unfold replace_pair in refl
replace_quotes (c ∷ v) = ground (
  arith,
  replace_quotes v,
  replace_one b'"' (escaped v),
  escaped_two v,
  skip_backslash v,
  skip_other c (escaped v),
)

keep_other :
    (c : ℕ) (s : Bytes)
    → c ≢ b'\\'
    → replace_pair b'\\' b'\\' b'\\' (c ∷ s) ≡ c ∷ replace_pair b'\\' b'\\' b'\\' s
unfolding replace_pair
keep_other c [] h = refl
keep_other c (b ∷ s) h = ground arith

replace_backslashes : (v : Bytes) → replace_pair b'\\' b'\\' b'\\' (doubled v) ≡ v
unfolding doubled
replace_backslashes [] = unfold replace_pair in refl
replace_backslashes (c ∷ v) =
    ground (arith, replace_backslashes v, replace_one b'\\' (doubled v), keep_other c (doubled v))

unquote-escaped : (v : Bytes) → unquote (escaped v) ≡ v
unfolding unquote
unquote-escaped v = rw replace_quotes (replace_backslashes v)

-- The bytes of a value that is not quoted.
no_separator :
    (v seps : Bytes) (c : ℕ)
    → contains_any v seps ≡ false
    → contains_byte seps c ≡ true
    → contains_byte v c ≡ false
unfolding contains_any contains_byte
no_separator v [] c h e = absurd (cc)
no_separator v (a ∷ seps) c h e = ground (arith, no_separator v seps c)

pub split_at-append :
    (c : ℕ) (s rest : Bytes)
    → contains_byte s c ≡ false
    → split_at c (s ++ (c ∷ rest)) ≡ some (s, rest)
unfolding split_at contains_byte
split_at-append c [] rest h = ground arith
split_at-append c (a ∷ s) rest h = ground (arith, split_at-append c s rest)

split_at-none : (c : ℕ) (s : Bytes) → contains_byte s c ≡ false → split_at c s ≡ none
unfolding split_at contains_byte
split_at-none c [] h = refl
split_at-none c (a ∷ s) h = ground (arith, split_at-none c s)

-- What stands behind a value: nothing, or a comma and the next entry.
abbrev pub behind : Option Bytes → Bytes
behind none = []
behind (some s) = b',' ∷ s

abbrev pub following : Option Bytes → Bytes
following none = []
following (some s) = s

parse_quoted-escaped :
    (next : Bytes → QMap → Option QMap) (key v : Bytes) (after : Option Bytes) (m : QMap)
    → last_or b'"' v ≢ b'\\'
    → parse_quoted next key (escaped v ++ (b'"' ∷ behind after)) m
      ≡ next (following after) (insert key v m)
unfolding parse_quoted
parse_quoted-escaped next key v none m h =
    rw (parse_quoted, find_quote-escaped v [] b'"' h, unquote-escaped v)
parse_quoted-escaped next key v (some s) m h =
    rw (parse_quoted, find_quote-escaped v (b',' ∷ s) b'"' h, unquote-escaped v)

parse_plain_lem :
    (next : Bytes → QMap → Option QMap) (key v : Bytes) (after : Option Bytes) (m : QMap)
    → contains_byte v b',' ≡ false
    → parse_plain next key (v ++ behind after) m ≡ next (following after) (insert key v m)
unfolding parse_plain
parse_plain_lem next key v none m h =
    rw append-nil (unfold parse_plain in rw (parse_plain, split_at-none b',' v h))
parse_plain_lem next key v (some s) m h = rw (parse_plain, split_at-append b',' v s h)

-- A value whose first byte is no quote is read as it is, also if it is empty.
separates_comma : contains_byte separators b',' ≡ true
unfolding contains_byte
separates_comma = refl

separates_quote : contains_byte separators b'"' ≡ true
unfolding contains_byte
separates_quote = refl

parse_value_plain :
    (next : Bytes → QMap → Option QMap) (key v : Bytes) (after : Option Bytes) (m : QMap)
    → contains_byte v b',' ≡ false
    → contains_byte v b'"' ≡ false
    → parse_value next key (v ++ behind after) m ≡ next (following after) (insert key v m)
unfolding parse_value contains_byte
parse_value_plain next key [] none m p q = refl
parse_value_plain next key [] (some s) m p q = parse_plain_lem next key [] (some s) m p
parse_value_plain next key (c ∷ v) after m p q =
    ground (arith, parse_plain_lem next key (c ∷ v) after m p)

pub parse_value-serialize_value :
    (next : Bytes → QMap → Option QMap) (key v : Bytes) (after : Option Bytes) (m : QMap)
    → last_or b'"' v ≢ b'\\'
    → parse_value next key (serialize_value v ++ behind after) m
      ≡ next (following after) (insert key v m)
unfolding serialize_value
parse_value-serialize_value next key v after m h = elim (Bool-cases (contains_any v separators)) [
  | inl quoted ↦
      rw (quoted, escape-escape v, append_assoc)
        (unfold parse_value in parse_quoted-escaped next key v after m h)
  | inr bare ↦ rw bare (
      parse_value_plain next key v after m (no_separator v separators b',' bare separates_comma)
        (no_separator v separators b'"' bare separates_quote))
]
