-- ===== src/Sasl/Scram/Exchange.antt =====
-- The client of SCRAM with a server of RFC 5802.
use mathlib.Core.List.{append_assoc}
use qxmpp.Common.{
  ℕ, ◌≡◌, refl, ap, ◌∙◌, false, [], ◌∷◌, ◌++◌, Option, some, Bytes, codes, arith, text_eq_refl,
}
use qxmpp.Sasl.Scram.{
  positive_part, Primitives, Gs2Map, gs2_value, parse_gs2, ClientScram, first_bare, final_bare,
  salted_password, auth_message, client_proof, signature, is_refused, challenge_message,
  challenge_salted, respond_challenge, respond_final, respond,
}
use qxmpp.Sasl.Scram.Server.{Account, account_of}
use qxmpp.Sasl.Scram.Fields.{NoComma-append, joined, parse_gs2-joined}
use qxmpp.Sasl.Scram.Setting.{IsExchange, starts_with-append, IsSound}

module _ (q : Primitives) (sound : IsSound q) (c : ClientScram) (own salt iterations : Bytes)
    (n : ℕ) where
  -- The client's two messages, and the server's first.
  abbrev pub first : Bytes
  first = codes "n,," ++ first_bare q c

  abbrev pub nonce : Bytes
  nonce = c.nonce ++ own

  abbrev pub challenge : Bytes
  challenge = joined b'r' nonce ((b's', q.to_base64 salt) ∷ (b'i', iterations) ∷ [])

  abbrev pub begun : ClientScram
  begun = record c {
    gs2_header = codes "n,,";
    client_first_message_bare = first_bare q c;
    step = 1;
  }

  abbrev pub key : Bytes
  key = salted_password q c salt n

  abbrev pub account : Account
  account = account_of q c.mechanism key salt iterations

  abbrev pub message : Bytes
  message = auth_message (first_bare q c) challenge (final_bare q begun nonce)

  abbrev pub proof : Bytes
  proof = q.to_base64 (client_proof q c.mechanism key message)

  abbrev pub final : Bytes
  final = joined b'c' (q.to_base64 (codes "n,,")) ((b'r', nonce) ∷ (b'p', proof) ∷ [])

  abbrev pub finished : ClientScram
  finished = record begun { server_signature = signature q c.mechanism key message; step = 2 }

  challenge_read :
      IsExchange q c.username c.nonce own salt iterations n
      → parse_gs2 challenge ≡ (b'i', iterations) ∷ (b's', q.to_base64 salt) ∷ (b'r', nonce) ∷ []
  challenge_read h =
      parse_gs2-joined b'r' nonce ((b's', q.to_base64 salt) ∷ (b'i', iterations) ∷ [])
        (record {
          key_fits = omega arith;
          value_fits = NoComma-append c.nonce own h.nonce_fits h.own_fits;
        })
        ((
          record { key_fits = omega arith; value_fits = sound.base64_NoComma salt },
          (record { key_fits = omega arith; value_fits = h.iterations_fit }, tt),
        ))

  -- What the client makes of the challenge.
  abbrev input : Gs2Map
  input = (b'i', iterations) ∷ (b's', q.to_base64 salt) ∷ (b'r', nonce) ∷ []

  not_refused :
      IsExchange q c.username c.nonce own salt iterations n → is_refused q begun input ≡ false
  unfolding is_refused gs2_value positive_part
  not_refused h =
      rw (starts_with-append c.nonce own, sound.base64_read salt, h.salt_filled, h.iterations_read)
        (ground (arith, h.iterations_pos))

  salted_lem :
      IsExchange q c.username c.nonce own salt iterations n → challenge_salted q begun input ≡ key
  unfolding challenge_salted gs2_value positive_part salted_password
  salted_lem h = rw (sound.base64_read salt, h.iterations_read)

  message_lem : challenge_message q begun challenge input ≡ message
  unfolding challenge_message gs2_value
  message_lem = refl

  respond_challenge_passed :
      is_refused q begun input ≡ false
      → respond_challenge q begun challenge input ≡ (
        some (
            final_bare q begun nonce
            ++ (codes ",p="
                ++ q.to_base64 (
                    client_proof q c.mechanism
                      (challenge_salted q begun input)
                      (challenge_message q begun challenge input)))),
        record begun {
          server_signature =
              signature q c.mechanism
                (challenge_salted q begun input)
                (challenge_message q begun challenge input);
          step = 2;
        },
      )
  unfolding respond_challenge gs2_value
  respond_challenge_passed h = rw h

  final_joined : final_bare q begun nonce ++ (codes ",p=" ++ proof) ≡ final
  unfolding final_bare joined
  final_joined =
      ap (λ (r : Bytes). codes "c=" ++ r)
        (append_assoc (q.to_base64 (codes "n,,")) (codes ",r=" ++ nonce) (codes ",p=" ++ proof))

  abbrev answer_with : Bytes → Bytes → Option Bytes × ClientScram
  answer_with x m = (
    some
        (final_bare q begun nonce ++ (codes ",p=" ++ q.to_base64 (client_proof q c.mechanism x m))),
    record begun { server_signature = signature q c.mechanism x m; step = 2 },
  )

  pub client_final :
      IsExchange q c.username c.nonce own salt iterations n
      → respond q begun challenge ≡ (some final, finished)
  unfolding respond
  client_final h =
      ap (λ (m : Gs2Map). respond_challenge q begun challenge m) (challenge_read h)
      ∙ respond_challenge_passed (not_refused h)
      ∙ ap (λ (x : Bytes). answer_with x (challenge_message q begun challenge input)) (salted_lem h)
      ∙ ap (answer_with key) message_lem
      ∙ ap (λ (f : Bytes). (some f, finished)) final_joined

  -- The server's last message, once it has checked the proof.
  abbrev pub verifier : Bytes
  verifier = joined b'v' (q.to_base64 (signature q c.mechanism key message)) []

  verifier_read :
      parse_gs2 verifier ≡ (b'v', q.to_base64 (signature q c.mechanism key message)) ∷ []
  verifier_read =
      parse_gs2-joined b'v' (q.to_base64 (signature q c.mechanism key message)) []
        (record { key_fits = omega arith; value_fits = sound.base64_NoComma _ }) tt

  final_accepted :
      (v : Bytes) (d : ClientScram)
      → q.from_base64 v ≡ d.server_signature
      → respond_final q d ((b'v', v) ∷ []) ≡ (some [], record d { step = 3 })
  unfolding respond_final gs2_value
  final_accepted v d e = rw (e, text_eq_refl d.server_signature)

  pub client_accepts : respond q finished verifier ≡ (some [], record finished { step = 3 })
  unfolding respond
  client_accepts =
      ap (respond_final q finished) verifier_read
      ∙ final_accepted (q.to_base64 (signature q c.mechanism key message)) finished
          (sound.base64_read (signature q c.mechanism key message))
