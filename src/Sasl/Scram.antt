-- ===== src/Sasl/Scram.antt =====
-- SCRAM: QXmppSaslClientScram and parseGS2 of base/QXmppSasl.cpp. The hash functions, base64, the
-- reading of numbers and UTF-8 are those of Qt.
use Prim.Native.Nat.{bit_xor}
use qxmpp.Common.{
  ℕ, suc, ◌≡◌, Bool, true, false, not, ◌||◌, List, [], ◌∷◌, ◌++◌, Option, none, some, Text, Bytes,
  codes, text_eq, is_empty, ltb, ◌==◌, if◌then◌else◌, length,
}
use qxmpp.Sasl.DigestMd5.{split}
use qxmpp.Sasl.Mechanism.{Algorithm, starts_with}
pub mod Server
pub mod Fields
pub mod Setting
pub mod Exchange
pub mod Authentic
mod Tests

-- A C++ int; `negsuc n` is -(n + 1).
pub data ℤ : Type 0 where
  pos : ℕ → ℤ
  negsuc : ℕ → ℤ

unfoldable pub positive_part : ℤ → ℕ
positive_part (pos n) = n
positive_part (negsuc n) = 0

pub record Primitives : Type 0 where
  pub hash : Algorithm → Bytes → Bytes
  -- The message, then the key.
  pub hmac : Algorithm → Bytes → Bytes → Bytes
  -- The password, the salt, the iterations and the length.
  pub derive_key_pbkdf2 : Algorithm → Bytes → Bytes → ℕ → ℕ → Bytes
  pub hash_length : Algorithm → ℕ
  pub to_base64 : Bytes → Bytes
  pub from_base64 : Bytes → Bytes
  pub to_int : Bytes → ℤ
  pub to_utf8 : Text → Bytes

-- A map from bytes, with the entry that was put last in front.
abbrev pub Gs2Map : Type 0
Gs2Map = List (ℕ × Bytes)

unfoldable pub gs2_value : ℕ → Gs2Map → Bytes
gs2_value key [] = []
gs2_value key ((k, v) ∷ m) = if k == key then v else gs2_value key m

-- One part between commas: `keyValue.size() >= 2 && keyValue[1] == '='`.
unfoldable pub insert_pair : Bytes → Gs2Map → Gs2Map
insert_pair [] m = m
insert_pair (k ∷ []) m = m
insert_pair (k ∷ e ∷ v) m = if e == b'=' then (k, v) ∷ m else m

unfoldable pub insert_pairs : List Bytes → Gs2Map → Gs2Map
unfolding insert_pair
insert_pairs [] m = m
insert_pairs (pair ∷ more) m = insert_pairs more (insert_pair pair m)

unfoldable pub parse_gs2 : Bytes → Gs2Map
unfolding insert_pairs split
parse_gs2 ba = insert_pairs (split b',' ba) []

-- std::transform with std::bit_xor: both texts have the length of the hash.
unfoldable pub xor_bytes : Bytes → Bytes → Bytes
xor_bytes [] t = []
xor_bytes (a ∷ s) [] = a ∷ s
xor_bytes (a ∷ s) (b ∷ t) = bit_xor a b ∷ xor_bytes s t

pub record ClientScram : Type 0 where
  pub mechanism : Algorithm
  pub step : ℕ
  pub dklen : ℕ
  pub username : Text
  pub password : Text
  pub nonce : Bytes
  pub gs2_header : Bytes
  pub client_first_message_bare : Bytes
  pub server_signature : Bytes

-- The messages of the exchange, with commas between them.
unfoldable pub auth_message : Bytes → Bytes → Bytes → Bytes
auth_message first challenge final = first ++ (b',' ∷ (challenge ++ (b',' ∷ final)))

module _ (q : Primitives) where
  -- The constructor and the setters.
  unfoldable pub new_client : Algorithm → Text → Text → Bytes → ClientScram
  new_client mechanism username password generated = record {
    mechanism = mechanism;
    step = 0;
    dklen = q.hash_length mechanism;
    username = username;
    password = password;
    nonce = generated;
    gs2_header = [];
    client_first_message_bare = [];
    server_signature = [];
  }

  unfoldable pub first_bare : ClientScram → Bytes
  first_bare c = codes "n=" ++ (q.to_utf8 c.username ++ (codes ",r=" ++ c.nonce))

  unfoldable pub respond_first : ClientScram → Option Bytes × ClientScram
  unfolding first_bare
  respond_first c = (
    some (codes "n,," ++ first_bare c),
    record c { gs2_header = codes "n,,"; client_first_message_bare = first_bare c; step = 1 },
  )

  unfoldable pub final_bare : ClientScram → Bytes → Bytes
  final_bare c nonce = codes "c=" ++ (q.to_base64 c.gs2_header ++ (codes ",r=" ++ nonce))

  unfoldable pub salted_password : ClientScram → Bytes → ℕ → Bytes
  salted_password c salt iterations =
      q.derive_key_pbkdf2 c.mechanism (q.to_utf8 c.password) salt iterations c.dklen

  unfoldable pub client_proof : Algorithm → Bytes → Bytes → Bytes
  unfolding xor_bytes
  client_proof a salted message =
      let client_key = q.hmac a (codes "Client Key") salted in
      xor_bytes (q.hmac a message (q.hash a client_key)) client_key

  unfoldable pub signature : Algorithm → Bytes → Bytes → Bytes
  signature a salted message = q.hmac a message (q.hmac a (codes "Server Key") salted)

  -- Is the server's first message refused?
  unfoldable pub is_refused : ClientScram → Gs2Map → Bool
  unfolding gs2_value starts_with positive_part
  is_refused c input =
      not (starts_with c.nonce (gs2_value b'r' input))
      || is_empty (q.from_base64 (gs2_value b's' input))
      || ltb (positive_part (q.to_int (gs2_value b'i' input))) 1

  unfoldable pub challenge_message : ClientScram → Bytes → Gs2Map → Bytes
  unfolding auth_message final_bare gs2_value
  challenge_message c challenge input =
      auth_message c.client_first_message_bare challenge (final_bare c (gs2_value b'r' input))

  unfoldable pub challenge_salted : ClientScram → Gs2Map → Bytes
  unfolding salted_password gs2_value positive_part
  challenge_salted c input =
      salted_password c (q.from_base64 (gs2_value b's' input))
        (positive_part (q.to_int (gs2_value b'i' input)))

  unfoldable pub respond_challenge : ClientScram → Bytes → Gs2Map → Option Bytes × ClientScram
  unfolding is_refused challenge_message challenge_salted client_proof signature final_bare
      gs2_value
  respond_challenge c challenge input = if is_refused c input then (none, c) else (
    some (
        final_bare c (gs2_value b'r' input)
        ++ (codes ",p="
            ++ q.to_base64 (
                client_proof c.mechanism (challenge_salted c input)
                  (challenge_message c challenge input)))),
    record c {
      server_signature =
          signature c.mechanism (challenge_salted c input) (challenge_message c challenge input);
      step = 2;
    },
  )

  unfoldable pub respond_final : ClientScram → Gs2Map → Option Bytes × ClientScram
  unfolding gs2_value
  respond_final c input = (
    if text_eq (q.from_base64 (gs2_value b'v' input)) c.server_signature then some [] else none,
    record c { step = 3 },
  )

  unfoldable pub respond : ClientScram → Bytes → Option Bytes × ClientScram
  unfolding respond_first respond_challenge respond_final parse_gs2
  respond c challenge =
      if c.step == 0
      then respond_first c
      else if c.step == 1
      then respond_challenge c challenge (parse_gs2 challenge)
      else if c.step == 2
      then respond_final c (parse_gs2 challenge)
      else (none, c)
