-- ===== src/Sasl/Scram/Server.antt =====
-- A server of RFC 5802, beside the client of base/QXmppSasl.cpp: it looks the user up by name, and keeps
-- no password, but the hash of the client's key and the server's key.
use Prim.Native.Nat.{bit_xor}
use mathlib.Core.Option
use qxmpp.Common.{
  ℕ, ◌++◌, Bool, ◌&&◌, ◌==◌, [], ◌∷◌, Option, none, some, Bytes, codes, text_eq, if◌then◌else◌,
  drop,
}
use qxmpp.Sasl.Mechanism.{Algorithm}
use qxmpp.Sasl.Scram.{Primitives, parse_gs2, gs2_value, ClientScram, respond}

pub record Account : Type 0 where
  pub stored_key : Bytes
  pub server_key : Bytes
  pub salt : Bytes
  -- The number of iterations in decimal.
  pub iterations : Bytes

-- The name in the client's first message: `=2C` stands for a comma and `=3D` for an equals sign, and a
-- server has to fail where an equals sign stands before anything else.
unfoldable pub decode_name : Bytes → Option Bytes
decode_name [] = some []
decode_name (c ∷ []) = if c == b'=' then none else some (c ∷ [])
decode_name (c ∷ d ∷ []) =
    let rest = decode_name (d ∷ []) in
    if c == b'=' then none else Option.map (λ (s : Bytes). c ∷ s) rest
decode_name (c ∷ d ∷ e ∷ name) =
    let behind = decode_name name in
    let rest = decode_name (d ∷ e ∷ name) in
    if c == b'='
    then if d == b'2' && e == b'C'
      then Option.map (λ (s : Bytes). b',' ∷ s) behind
      else if d == b'3' && e == b'D'
      then Option.map (λ (s : Bytes). b'=' ∷ s) behind
      else none
    else Option.map (λ (s : Bytes). c ∷ s) rest

-- The proof and the client's key are combined byte by byte.
unfoldable pub unmask : Bytes → Bytes → Bytes
unmask [] t = []
unmask (a ∷ s) [] = []
unmask (a ∷ s) (b ∷ t) = bit_xor a b ∷ unmask s t

-- The client's last message without its proof.
unfoldable pub without_proof : Bytes → Bytes
unfolding parse_gs2 gs2_value
without_proof client_final =
    codes "c="
    ++ (gs2_value b'c' (parse_gs2 client_final)
        ++ (codes ",r=" ++ gs2_value b'r' (parse_gs2 client_final)))

-- AuthMessage of RFC 5802: the client's first message without the header `n,,`, the server's first
-- message and the client's last without its proof.
unfoldable pub exchange_message : Bytes → Bytes → Bytes → Bytes
unfolding without_proof
exchange_message client_first challenge client_final =
    drop 3 client_first ++ (b',' ∷ (challenge ++ (b',' ∷ without_proof client_final)))

module _ (q : Primitives) (a : Algorithm) where
  -- SaltedPassword of RFC 5802.
  unfoldable pub salted : Bytes → Bytes → ℕ → Bytes
  salted password salt n = q.derive_key_pbkdf2 a password salt n (q.hash_length a)

  -- ServerSignature of RFC 5802.
  unfoldable pub server_signature : Bytes → Bytes → ℕ → Bytes → Bytes
  unfolding salted
  server_signature password salt n message =
      q.hmac a message (q.hmac a (codes "Server Key") (salted password salt n))

  -- What the server keeps of a salted password.
  unfoldable pub account_of : Bytes → Bytes → Bytes → Account
  account_of key salt iterations = record {
    stored_key = q.hash a (q.hmac a (codes "Client Key") key);
    server_key = q.hmac a (codes "Server Key") key;
    salt = salt;
    iterations = iterations;
  }

  unfoldable pub new_account : Bytes → Bytes → Bytes → ℕ → Account
  unfolding salted account_of
  new_account password salt iterations n = account_of (salted password salt n) salt iterations

  -- The nonce of the client's message, with its own behind it.
  unfoldable pub server_first : Account → Bytes → Bytes → Bytes
  unfolding parse_gs2 gs2_value
  server_first account own client_first =
      codes "r="
      ++ (gs2_value b'r' (parse_gs2 client_first)
          ++ (own
              ++ (codes ",s="
                  ++ (q.to_base64 account.salt ++ (codes ",i=" ++ account.iterations)))))

  -- The client's key is the proof without the client's signature; its hash has to be the stored one.
  unfoldable pub is_proved : Account → Bytes → Bytes → Bool
  unfolding unmask
  is_proved account message proof =
      text_eq (q.hash a (unmask proof (q.hmac a message account.stored_key))) account.stored_key

  -- The server checks the header, the nonce and the proof.
  unfoldable pub reply : Account → Bytes → Bytes → Bytes → Bytes → Bytes → Option Bytes
  unfolding is_proved
  reply account message header nonce expected proof =
      if text_eq header (q.to_base64 (codes "n,,"))
        && (text_eq nonce expected && is_proved account message (q.from_base64 proof))
      then some (codes "v=" ++ q.to_base64 (q.hmac a message account.server_key))
      else none

  unfoldable pub server_final : Account → Bytes → Bytes → Bytes → Option Bytes
  unfolding reply exchange_message parse_gs2 gs2_value
  server_final account client_first challenge client_final =
      reply account (exchange_message client_first challenge client_final)
        (gs2_value b'c' (parse_gs2 client_final)) (gs2_value b'r' (parse_gs2 client_final))
        (gs2_value b'r' (parse_gs2 challenge)) (gs2_value b'p' (parse_gs2 client_final))

  -- The whole exchange: what the client says to the server's last message, if it comes to that.
  unfoldable pub after_final : ClientScram → Option Bytes → Option Bytes
  after_final c none = none
  after_final c (some final) = (respond q c final).0

  unfoldable pub after_challenge :
      Account → Bytes → Bytes → Option Bytes × ClientScram → Option Bytes
  unfolding after_final server_final
  after_challenge account first challenge (none, c) = none
  after_challenge account first challenge (some proof, c) =
      after_final c (server_final account first challenge proof)

  -- The account of the user that the first message names.
  unfoldable pub find_account : (Bytes → Option Account) → Option Bytes → Option Account
  find_account accounts none = none
  find_account accounts (some name) = accounts name

  unfoldable pub with_account : Bytes → Bytes → ClientScram → Option Account → Option Bytes
  unfolding after_challenge server_first
  with_account own first c none = none
  with_account own first c (some account) =
      let challenge = server_first account own first in
      after_challenge account first challenge (respond q c challenge)

  unfoldable pub after_first :
      (Bytes → Option Account) → Bytes → Option Bytes × ClientScram → Option Bytes
  unfolding with_account find_account decode_name parse_gs2 gs2_value
  after_first accounts own (none, c) = none
  after_first accounts own (some first, c) =
      with_account own first c
        (find_account accounts (decode_name (gs2_value b'n' (parse_gs2 first))))

  unfoldable pub exchange : (Bytes → Option Account) → Bytes → ClientScram → Option Bytes
  unfolding after_first
  exchange accounts own c = after_first accounts own (respond q c [])
