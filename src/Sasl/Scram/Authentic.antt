-- ===== src/Sasl/Scram/Authentic.antt =====
-- What the client of SCRAM knows of the server once it has accepted, whatever it was sent.
use qxmpp.Common.{
  ◌≤◌, ◌≡◌, true, false, some, Bytes, Text, codes, is_empty, Bool-cases, inl, inr, ◌++◌,
}
use qxmpp.Sasl.Mechanism.{Algorithm, starts_with}
use qxmpp.Sasl.Scram.{
  positive_part, Primitives, Gs2Map, gs2_value, parse_gs2, ClientScram, signature, is_refused,
  challenge_message, challenge_salted, respond_challenge, respond,
}
use qxmpp.Sasl.Scram.Server.{server_signature}

module _ (q : Primitives) where
  -- AuthMessage of RFC 5802, from the client's values, the server's message and the nonce in it.
  abbrev pub rfc_message : Text → Bytes → Bytes → Bytes → Bytes
  rfc_message username generated challenge nonce =
      let last = codes ",c=" ++ (q.to_base64 (codes "n,,") ++ (codes ",r=" ++ nonce)) in
      codes "n="
      ++ (q.to_utf8 username ++ (codes ",r=" ++ (generated ++ (codes "," ++ (challenge ++ last)))))

  -- What RFC 5802 has a client check of the server's two messages: the nonce goes on from the client's,
  -- there are a salt and iterations, and the signature is the one that the RFC derives from the
  -- password, over the three messages that were exchanged.
  pub record IsVerified (a : Algorithm) (username password : Text)
      (generated challenge verifier : Bytes) : Type 0 where
    pub extends : starts_with generated (gs2_value b'r' (parse_gs2 challenge)) ≡ true
    pub salt_filled : is_empty (q.from_base64 (gs2_value b's' (parse_gs2 challenge))) ≡ false
    pub iterated : 1 ≤ positive_part (q.to_int (gs2_value b'i' (parse_gs2 challenge)))
    pub signed :
        q.from_base64 (gs2_value b'v' (parse_gs2 verifier))
        ≡ server_signature q a
            (q.to_utf8 password)
            (q.from_base64 (gs2_value b's' (parse_gs2 challenge)))
            (positive_part (q.to_int (gs2_value b'i' (parse_gs2 challenge))))
            (rfc_message username generated challenge (gs2_value b'r' (parse_gs2 challenge)))

  -- The client after its first message, and after the server's.
  abbrev pub begun : ClientScram → Bytes → ClientScram
  begun c received = (respond q c received).1

  abbrev pub proved : ClientScram → Bytes → Bytes → ClientScram
  proved c received challenge = (respond q (begun c received) challenge).1

  not_sent :
      (d : ClientScram) (challenge : Bytes) (input : Gs2Map) {proof : Bytes}
      → is_refused q d input ≡ true
      → ¬ ((respond_challenge q d challenge input).0 ≡ some proof)
  unfolding respond_challenge
  not_sent d challenge input refused = rw refused (λ sent. cc)

  challenge_answered :
      (d : ClientScram) (challenge : Bytes) (input : Gs2Map) {proof : Bytes}
      → (respond_challenge q d challenge input).0 ≡ some proof
      → (is_refused q d input ≡ false)
        × ((respond_challenge q d challenge input).1 ≡ record d {
          server_signature =
              signature q d.mechanism
                (challenge_salted q d input)
                (challenge_message q d challenge input);
          step = 2;
        })
  unfolding respond_challenge
  challenge_answered d challenge input sent = elim (Bool-cases (is_refused q d input)) [
    | inl refused ↦ absurd (not_sent d challenge input refused sent)
    | inr kept ↦ (kept, rw kept)
  ]
