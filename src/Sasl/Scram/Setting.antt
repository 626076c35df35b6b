-- ===== src/Sasl/Scram/Setting.antt =====
-- The values of an exchange of SCRAM, and what is used of base64 and of the hash functions.
use qxmpp.Common.{
  ℕ, ◌<◌, ◌≡◌, refl, ap, ◌∙◌, true, false, [], ◌∷◌, ◌++◌, Option, some, Text, Bytes, arith,
  is_empty, length,
}
use qxmpp.Utils.Bits.{bit_xor_twice, bit_xor_comm}
use qxmpp.Sasl.Message.{contains_byte}
use qxmpp.Sasl.Mechanism.{Algorithm, starts_with}
use qxmpp.Sasl.Scram.{pos, Primitives, gs2_value, parse_gs2, xor_bytes, ClientScram, respond}
use qxmpp.Sasl.Scram.Server.{
  Account, decode_name, unmask, server_first, server_final, after_final, after_challenge,
  find_account, with_account, after_first, exchange,
}
use qxmpp.Sasl.Scram.Fields.{NoComma}

pub starts_with-append : (s t : Bytes) → starts_with s (s ++ t) ≡ true
unfolding starts_with
starts_with-append [] t = refl
starts_with-append (c ∷ s) t = ground (arith, starts_with-append s t)

-- A text that is combined twice with another of its length.
pub unmask-xor_bytes : (s k : Bytes) → length s ≡ length k → unmask (xor_bytes s k) s ≡ k
unfolding xor_bytes unmask
unmask-xor_bytes [] [] h = refl
unmask-xor_bytes [] (b ∷ k) h = absurd (omega arith)
unmask-xor_bytes (a ∷ s) [] h = absurd (omega arith)
unmask-xor_bytes (a ∷ s) (b ∷ k) h =
    ground (arith, unmask-xor_bytes s k, bit_xor_comm a b, bit_xor_twice b a)

-- A name without an equals sign stands for itself.
pub decode_name_plain :
    (name : Bytes) → contains_byte name b'=' ≡ false → decode_name name ≡ some name
unfolding decode_name contains_byte
decode_name_plain [] h = refl
decode_name_plain (c ∷ []) h = ground arith
decode_name_plain (c ∷ d ∷ []) h = ground (arith, decode_name_plain (d ∷ []))
decode_name_plain (c ∷ d ∷ e ∷ name) h = ground (arith, decode_name_plain (d ∷ e ∷ name))

-- What is used of base64 and of the hash functions.
pub record IsSound (q : Primitives) : Type 0 where
  pub base64_read : (b : Bytes) → q.from_base64 (q.to_base64 b) ≡ b
  pub base64_NoComma : (b : Bytes) → NoComma (q.to_base64 b)
  pub hmac_length : (a : Algorithm) (m k : Bytes) → length (q.hmac a m k) ≡ q.hash_length a

-- The values of an exchange: they have no comma, the name has no equals sign either, and the salt and
-- the iterations are real.
pub record IsExchange (q : Primitives) (username : Text) (generated own salt iterations : Bytes)
    (n : ℕ) : Type 0 where
  pub username_fits : NoComma (q.to_utf8 username)
  pub username_plain : contains_byte (q.to_utf8 username) b'=' ≡ false
  pub nonce_fits : NoComma generated
  pub own_fits : NoComma own
  pub iterations_fit : NoComma iterations
  pub iterations_read : q.to_int iterations ≡ pos n
  pub iterations_pos : 0 < n
  pub salt_filled : is_empty salt ≡ false

-- An exchange from its messages.
pub exchange_steps :
    (q : Primitives) (a : Algorithm) (accounts : Bytes → Option Account) (account : Account)
    (own : Bytes) (c c' c'' : ClientScram) (name first challenge final verifier : Bytes)
    → respond q c [] ≡ (some first, c')
    → decode_name (gs2_value b'n' (parse_gs2 first)) ≡ some name
    → accounts name ≡ some account
    → server_first q a account own first ≡ challenge
    → respond q c' challenge ≡ (some final, c'')
    → server_final q a account first challenge final ≡ some verifier
    → (respond q c'' verifier).0 ≡ some []
    → exchange q a accounts own c ≡ some []
unfolding after_final after_challenge after_first exchange with_account find_account
exchange_steps q a accounts account own c c' c'' name first challenge final verifier e1 named known
      e2 e3 e4 e5 =
    ap (after_first q a accounts own) e1
    ∙ ap (λ (o : Option Bytes). with_account q a own first c' (find_account q a accounts o)) named
    ∙ ap (with_account q a own first c') known
    ∙ ap (λ (x : Bytes). after_challenge q a account first x (respond q c' x)) e2
    ∙ ap (after_challenge q a account first challenge) e3
    ∙ ap (after_final q a c'') e4
    ∙ e5
