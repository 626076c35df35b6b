-- ===== src/Sasl/Message/Total.antt =====
-- The loop of parseMessage ends: each round takes an equals sign off the text.
use qxmpp.Common.{
  ℕ, zero, suc, ◌<◌, ◌≤◌, ◌≡◌, Option, some, [], ◌∷◌, Bytes, length, arith, Bool-cases, ◌==◌, inl,
  inr, Option-cases, drop,
}
use qxmpp.Sasl.Message.{
  QMap, split_at, find_quote, parse_quoted, parse_plain, parse_value, parse_loop, parse_message,
  trimmed, insert, unquote,
}

split_at-lt :
    (c : ℕ) (s before after : Bytes) → split_at c s ≡ some (before, after) → length after < length s
unfolding split_at
split_at-lt c [] before after h = absurd (cc)
split_at-lt c (a ∷ s) before after h = elim (Option-cases (split_at c s)) [
  | inl missing ↦ ground (arith, missing)
  | inr ((b, r), e) ↦ ground (arith, split_at-lt c s b r e)
]

find_quote-lt :
    (prev : ℕ) (s before after : Bytes)
    → find_quote prev s ≡ some (before, after)
    → length after < length s
unfolding find_quote
find_quote-lt prev [] before after h = absurd (cc)
find_quote-lt prev (c ∷ s) before after h = elim (Option-cases (find_quote c s)) [
  | inl missing ↦ ground (arith, missing)
  | inr ((b, r), e) ↦ ground (arith, find_quote-lt c s b r e)
]

length-drop_one : (s : Bytes) → length (drop 1 s) ≤ length s
length-drop_one [] = omega arith
length-drop_one (c ∷ s) = omega arith

-- A continuation that answers for every text of at most `n` bytes.
abbrev Answers : ℕ → (Bytes → QMap → Option QMap) → Type 0
Answers n next = (s : Bytes) (m : QMap) → length s ≤ n → (r : QMap) × (next s m ≡ some r)

parse_quoted-Answers :
    (next : Bytes → QMap → Option QMap) (key s : Bytes) (m : QMap)
    → Answers (length s) next
    → (r : QMap) × (parse_quoted next key s m ≡ some r)
unfolding parse_quoted
parse_quoted-Answers next key s m h = elim (Option-cases (find_quote b'"' s)) [
  | inl unclosed ↦ (m, rw (parse_quoted, unclosed))
  | inr ((quoted, after), e) ↦
      let shorter = find_quote-lt b'"' s quoted after e in
      let (r, p) =
        h (drop 1 after) (insert key (unquote quoted) m) (omega (arith, length-drop_one after)) in
      (r, rw (parse_quoted, e) p)
]

parse_plain-Answers :
    (next : Bytes → QMap → Option QMap) (key s : Bytes) (m : QMap)
    → Answers (length s) next
    → (r : QMap) × (parse_plain next key s m ≡ some r)
unfolding parse_plain
parse_plain-Answers next key s m h = elim (Option-cases (split_at b',' s)) [
  | inl end ↦ let (r, p) = h [] (insert key s m) (omega arith) in (r, rw (parse_plain, end) p)
  | inr ((plain, after), e) ↦
      let shorter = split_at-lt b',' s plain after e in
      let (r, p) = h after (insert key plain m) (omega arith) in (r, rw (parse_plain, e) p)
]

parse_value-Answers :
    (next : Bytes → QMap → Option QMap) (key s : Bytes) (m : QMap)
    → Answers (length s) next
    → (r : QMap) × (parse_value next key s m ≡ some r)
unfolding parse_value
parse_value-Answers next key [] m h = h [] (insert key [] m) (omega arith)
parse_value-Answers next key (c ∷ s) m h = elim (Bool-cases (c == b'"')) [
  | inl quoted ↦ rw quoted (parse_quoted-Answers next key s m (λ t k short. h t k (omega arith)))
  | inr bare ↦ rw bare (parse_plain-Answers next key (c ∷ s) m h)
]

parse_loop-Answers :
    (fuel : ℕ) (s : Bytes) (m : QMap)
    → length s < fuel
    → (r : QMap) × (parse_loop fuel s m ≡ some r)
unfolding parse_loop
parse_loop-Answers zero s m h = absurd (omega arith)
parse_loop-Answers (suc fuel) s m h = elim (Option-cases (split_at b'=' s)) [
  | inl end ↦ (m, rw (parse_loop, end))
  | inr ((key, after), e) ↦
      let shorter = split_at-lt b'=' s key after e in
      let (r, p) =
        parse_value-Answers (parse_loop fuel) (trimmed key) after m
          (λ t k short. parse_loop-Answers fuel t k (omega arith)) in
      (r, rw (parse_loop, e) p)
]

-- Every text is parsed to the end: the fuel is enough.
pub parse_message-total : (ba : Bytes) → (m : QMap) × (parse_message ba ≡ some m)
unfolding parse_message
parse_message-total ba = parse_loop-Answers (suc (length ba)) ba [] (omega arith)
