-- ===== src/Sasl/Scram/Tests.antt =====
-- SCRAM at a concrete account, with plain functions for the hash and the encoding.
use qxmpp.Common.{
  ℕ, ◌+◌, ◌-◌, ◌*◌, ◌%◌, ◌≡◌, refl, [], ◌∷◌, ◌++◌, map, Option, some, Bytes, codes, arith, false,
  length, none, text_eq, if◌then◌else◌,
}
use qxmpp.Utils.Hmac.{replicate, length-replicate}
use qxmpp.Sasl.Message.{contains_byte}
use qxmpp.Sasl.Mechanism.{sha1}
use qxmpp.Sasl.Scram.{pos, Primitives, ClientScram, new_client}
use qxmpp.Sasl.Scram.Server.{Account, new_account}
use qxmpp.Sasl.Scram.Setting.{IsSound}
use qxmpp.Sasl.Scram.Exchange.{challenge, verifier}

abbrev raised : Bytes → Bytes
raised b = map (λ (x : ℕ). x + 45) b

abbrev lowered : Bytes → Bytes
lowered b = map (λ (x : ℕ). x - 45) b

lowered-raised : (b : Bytes) → lowered (raised b) ≡ b
lowered-raised [] = refl
lowered-raised (x ∷ b) = ground (arith, lowered-raised b)

raised_no_comma : (b : Bytes) → contains_byte (raised b) b',' ≡ false
unfolding contains_byte
raised_no_comma [] = refl
raised_no_comma (x ∷ b) = ground (arith, raised_no_comma b)

abbrev plain_hash : Primitives
plain_hash = record {
  hash = λ a b. b;
  hmac = λ a m k. replicate 4 ((length m + 3 * length k) % 256);
  derive_key_pbkdf2 = λ a password salt iterations size. password ++ salt;
  hash_length = λ a. 4;
  to_base64 = raised;
  from_base64 = lowered;
  to_int = λ b. pos (length b);
  to_utf8 = λ t. t;
}

plain_hash-IsSound : IsSound plain_hash
plain_hash-IsSound = record {
  base64_read = lowered-raised;
  base64_NoComma = raised_no_comma;
  hmac_length = λ a m k. length-replicate 4 _;
}

abbrev client : ClientScram
client = new_client plain_hash sha1 (codes "romeo") (codes "pencil") (codes "c1")

abbrev salt : Bytes
salt = codes "salt"

abbrev iterations : Bytes
iterations = codes "4096"

-- One user is known.
abbrev accounts : Bytes → Option Account
accounts name =
    if text_eq name (codes "romeo")
    then some (new_account plain_hash sha1 (codes "pencil") salt iterations 4)
    else none

-- The server's two messages in that exchange.
abbrev server_first : Bytes
server_first = challenge plain_hash plain_hash-IsSound client (codes "s1") salt iterations 4

abbrev server_last : Bytes
server_last = verifier plain_hash plain_hash-IsSound client (codes "s1") salt iterations 4
