-- ===== src/Sasl/Scram/Fields.antt =====
-- Texts of `key=value` pairs with commas between them, as parseGS2 of base/QXmppSasl.cpp reads them.
use qxmpp.Common.{ℕ, ◌≡◌, ◌≢◌, refl, ap, ◌∙◌, false, List, [], ◌∷◌, ◌++◌, Bytes, codes, arith, All}
use qxmpp.Sasl.Message.{contains_byte}
use qxmpp.Sasl.DigestMd5.{split}
use qxmpp.Sasl.Scram.{Gs2Map, insert_pairs, parse_gs2}

abbrev pub NoComma : Bytes → Type 0
NoComma v = contains_byte v b',' ≡ false

pub NoComma-append : (s t : Bytes) → NoComma s → NoComma t → NoComma (s ++ t)
unfolding contains_byte
NoComma-append [] t p q = q
NoComma-append (c ∷ s) t p q = ground (arith, NoComma-append s t)

pub split-append : (s t : Bytes) → NoComma s → split b',' (s ++ (b',' ∷ t)) ≡ s ∷ split b',' t
unfolding split contains_byte
split-append [] t h = refl
split-append (c ∷ s) t h = ground (arith, split-append s t)

pub split_one : (s : Bytes) → NoComma s → split b',' s ≡ s ∷ []
unfolding split contains_byte
split_one [] h = refl
split_one (c ∷ s) h = ground (arith, split_one s)

-- The text of a pair, and of the pairs behind it.
unfoldable pub joined : ℕ → Bytes → List (ℕ × Bytes) → Bytes
joined k v [] = k ∷ b'=' ∷ v
joined k v ((j, w) ∷ more) = (k ∷ b'=' ∷ v) ++ (b',' ∷ joined j w more)

abbrev pub onto : List (ℕ × Bytes) → Gs2Map → Gs2Map
onto [] m = m
onto (pair ∷ more) m = onto more (pair ∷ m)

pub record IsPair (pair : ℕ × Bytes) : Type 0 where
  pub key_fits : pair.0 ≢ b','
  pub value_fits : NoComma pair.1

pair_NoComma : (k : ℕ) (v : Bytes) → IsPair (k, v) → NoComma (k ∷ b'=' ∷ v)
unfolding contains_byte
pair_NoComma k v h = ground (arith, h.key_fits, h.value_fits)

insert_pairs-joined :
    (k : ℕ) (v : Bytes) (more : List (ℕ × Bytes)) (m : Gs2Map)
    → IsPair (k, v)
    → All IsPair more
    → insert_pairs (split b',' (joined k v more)) m ≡ onto ((k, v) ∷ more) m
unfolding joined insert_pairs
insert_pairs-joined k v [] m h all =
    ap (λ (l : List Bytes). insert_pairs l m) (split_one (k ∷ b'=' ∷ v) (pair_NoComma k v h))
insert_pairs-joined k v ((j, w) ∷ more) m h (next, all) =
    ap (λ (l : List Bytes). insert_pairs l m)
      (split-append (k ∷ b'=' ∷ v) (joined j w more) (pair_NoComma k v h))
    ∙ insert_pairs-joined j w more ((k, v) ∷ m) next all

-- The pairs of a text, the last one first.
pub parse_gs2-joined :
    (k : ℕ) (v : Bytes) (more : List (ℕ × Bytes))
    → IsPair (k, v)
    → All IsPair more
    → parse_gs2 (joined k v more) ≡ onto ((k, v) ∷ more) []
unfolding parse_gs2
parse_gs2-joined k v more h all = insert_pairs-joined k v more [] h all

-- The header of the client's first message has no pair.
pub parse_gs2_header : (s : Bytes) → parse_gs2 (codes "n,," ++ s) ≡ parse_gs2 s
unfolding parse_gs2 split insert_pairs
parse_gs2_header s = refl
