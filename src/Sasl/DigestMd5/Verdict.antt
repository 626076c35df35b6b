-- ===== src/Sasl/DigestMd5/Verdict.antt =====
-- What the server of DIGEST-MD5 makes of the response, by the secrets of both sides.
use qxmpp.Common.{
  ◌≡◌, ap, sym, ◌∙◌, true, false, [], none, some, Bytes, codes, text_eq, text_eq_iff, is_empty,
  if◌then◌else◌,
}
use qxmpp.Sasl.Message.{insert, serialize_message}
use qxmpp.Sasl.DigestMd5.Steps.{ready, informed, verdict}
use qxmpp.Sasl.DigestMd5.{
  Primitives, ClientDigestMd5, ServerDigestMd5, challenge, failed, calculate_secret,
  calculate_digest, digest_uri, client_digest,
}

module _ (q : Primitives) where
  -- The secret that the server goes by.
  unfoldable pub server_secret : Bytes → ClientDigestMd5 → ServerDigestMd5 → Bytes
  server_secret realm c s =
      if is_empty s.password
      then s.password_digest
      else calculate_secret q c.username realm s.password

  -- The digest that the server expects.
  unfoldable pub expected_response : Bytes → ClientDigestMd5 → ServerDigestMd5 → Bytes
  unfolding server_secret
  expected_response realm c s =
      calculate_digest q (codes "AUTHENTICATE") (digest_uri q c) (server_secret realm c s) s.nonce
        c.cnonce c.nc

  pub verdict_rejects :
      (realm response : Bytes) (c : ClientDigestMd5) (s : ServerDigestMd5)
      → text_eq response (expected_response realm c s) ≡ false
      → verdict q (digest_uri q c) response (informed q c.username realm c (record s { step = 1 }))
        ≡ (failed, none, informed q c.username realm c (record s { step = 1 }))
  unfolding verdict expected_response informed
  verdict_rejects realm response c s h = rw h

  -- Once the secrets agree, the digests do.
  pub digests_agree :
      (method realm : Bytes) (c : ClientDigestMd5) (s : ServerDigestMd5)
      → calculate_secret q c.username realm c.password ≡ server_secret realm c s
      → client_digest q method (ready q s.nonce realm c)
        ≡ calculate_digest q method (digest_uri q c) (server_secret realm c s) s.nonce c.cnonce c.nc
  unfolding client_digest ready digest_uri
  digests_agree method realm c s same =
      ap (λ (x : Bytes). calculate_digest q method (digest_uri q c) x s.nonce c.cnonce c.nc) same

  pub verdict_passed :
      (uri response : Bytes) (s : ServerDigestMd5)
      → text_eq response
          (calculate_digest q (codes "AUTHENTICATE") uri s.secret s.nonce s.cnonce s.nc)
        ≡ true
      → verdict q uri response s ≡ (
        challenge,
        some (
            serialize_message (
              insert
                (codes "rspauth")
                (calculate_digest q [] uri s.secret s.nonce s.cnonce s.nc)
                [])),
        record s { step = 2 },
      )
  unfolding verdict
  verdict_passed uri response s h = rw h

  pub verdict_accepts :
      (realm : Bytes) (c : ClientDigestMd5) (s : ServerDigestMd5)
      → calculate_secret q c.username realm c.password ≡ server_secret realm c s
      → verdict q
          (digest_uri q c)
          (client_digest q (codes "AUTHENTICATE") (ready q s.nonce realm c))
          (informed q c.username realm c (record s { step = 1 }))
        ≡ (
          challenge,
          some (
              serialize_message
                (insert (codes "rspauth") (client_digest q [] (ready q s.nonce realm c)) [])),
          record (informed q c.username realm c s) { step = 2 },
        )
  unfolding informed server_secret
  verdict_accepts realm c s same =
      verdict_passed (digest_uri q c)
        (client_digest q (codes "AUTHENTICATE") (ready q s.nonce realm c))
        (informed q c.username realm c (record s { step = 1 }))
        ((text_eq_iff _ _).1 (digests_agree (codes "AUTHENTICATE") realm c s same))
      ∙ ap
          (λ (x : Bytes). (
            challenge,
            some (serialize_message (insert (codes "rspauth") x [])),
            record (informed q c.username realm c s) { step = 2 },
          ))
          (sym (digests_agree [] realm c s same))
