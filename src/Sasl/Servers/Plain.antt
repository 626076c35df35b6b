-- ===== src/Sasl/Servers/Plain.antt =====
-- The client and the server of PLAIN.
use qxmpp.Common.{
  ◌≡◌, refl, ap, ◌∙◌, false, List, [], ◌∷◌, ◌++◌, Option, none, some, Text, Bytes, arith,
}
use qxmpp.Sasl.Message.{contains_byte}
use qxmpp.Sasl.DigestMd5.{Response, input_needed, split}
use qxmpp.Sasl.Clients.{Primitives, ClientPlain, respond_plain, zero_separated}
use qxmpp.Sasl.Servers.{ServerPlain, read_parts, answer_plain}

pub split_at_zero :
    (s t : Bytes) → contains_byte s 0 ≡ false → split 0 (s ++ (0 ∷ t)) ≡ s ∷ split 0 t
unfolding split contains_byte
split_at_zero [] t h = refl
split_at_zero (c ∷ s) t h = ground (arith, split_at_zero s t)

split_whole : (s : Bytes) → contains_byte s 0 ≡ false → split 0 s ≡ s ∷ []
unfolding split contains_byte
split_whole [] h = refl
split_whole (c ∷ s) h = ground (arith, split_whole s)

no_zero : contains_byte [] 0 ≡ false
unfolding contains_byte
no_zero = refl

-- What is used of UTF-8: a zero byte stands for a zero and nothing else, and a text is read back.
pub record IsUtf8 (q : Primitives) (user password : Text) : Type 0 where
  pub keeps_zero :
      q.to_utf8 (zero_separated user password) ≡ 0 ∷ (q.to_utf8 user ++ (0 ∷ q.to_utf8 password))
  pub user_filled : contains_byte (q.to_utf8 user) 0 ≡ false
  pub password_filled : contains_byte (q.to_utf8 password) 0 ≡ false
  pub user_read : q.digest.from_utf8 (q.to_utf8 user) ≡ user
  pub password_read : q.digest.from_utf8 (q.to_utf8 password) ≡ password

-- What the server does with the client's message.
unfoldable pub plain_login :
    Primitives → ClientPlain → ServerPlain → Option (Response × ServerPlain)
unfolding respond_plain answer_plain
plain_login q c s = elim (respond_plain q c).0 [
  | none ↦ none
  | some message ↦ some ((answer_plain q s message).0, (answer_plain q s message).2)
]

plain_parts :
    (q : Primitives) (user password : Text)
    → IsUtf8 q user password
    → split 0 (0 ∷ (q.to_utf8 user ++ (0 ∷ q.to_utf8 password)))
      ≡ [] ∷ q.to_utf8 user ∷ q.to_utf8 password ∷ []
plain_parts q user password h =
    split_at_zero [] (q.to_utf8 user ++ (0 ∷ q.to_utf8 password)) no_zero
    ∙ ap (λ (l : List Bytes). [] ∷ l)
        (split_at_zero (q.to_utf8 user) (q.to_utf8 password) h.user_filled
          ∙ ap (λ (l : List Bytes). q.to_utf8 user ∷ l)
              (split_whole (q.to_utf8 password) h.password_filled))

-- The server of PLAIN asks for the check of exactly the user and the password that the client has, if
-- no zero stands in them.
pub plain_login-read :
    (q : Primitives) (c : ClientPlain) (s : ServerPlain)
    → IsUtf8 q c.username c.password
    → plain_login q (record c { step = 0 }) (record s { step = 0 })
      ≡ some (input_needed, record s { username = c.username; password = c.password; step = 1 })
unfolding plain_login
plain_login-read q c s h =
    let s0 = record s { step = 0 } in
    ap (λ (m : Bytes). some ((answer_plain q s0 m).0, (answer_plain q s0 m).2)) h.keeps_zero
    ∙ ap (λ (l : List Bytes). some ((read_parts q s0 l).0, (read_parts q s0 l).2))
        (plain_parts q c.username c.password h)
    ∙ ap
        (λ (u : Text). some (
          input_needed,
          record s { username = u; password = q.digest.from_utf8 (q.to_utf8 c.password); step = 1 },
        ))
        h.user_read
    ∙ ap
        (λ (w : Text).
          some (input_needed, record s { username = c.username; password = w; step = 1 }))
        h.password_read
