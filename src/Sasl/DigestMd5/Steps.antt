-- ===== src/Sasl/DigestMd5/Steps.antt =====
-- Each step of the client and the server of DIGEST-MD5, on what the other one sends.
use qxmpp.Common.{
  ◌≡◌, refl, ap, ◌∙◌, true, false, ◌&&◌, [], Option, none, some, Bytes, codes, text_eq,
  text_eq_refl, is_empty, if◌then◌else◌, All,
}
use qxmpp.Sasl.Message.{
  QMap, insert, value_or, contains_key, serialize_message, trimmed, contains_byte,
}
use qxmpp.Sasl.DigestMd5.Sorted.{NoBackslash, are_keys, parsed-serialize_message}
use qxmpp.Sasl.DigestMd5.Fields.{
  challenge_fields, response_fields, challenge_fields_keys, response_fields_keys,
  challenge_fields_values, response_fields_values, IsChallenge, IsResponse,
  challenge_fields-IsChallenge, response_fields-IsResponse,
}
use qxmpp.Sasl.DigestMd5.{
  Primitives, ClientDigestMd5, ServerDigestMd5, Response, challenge, succeeded, failed,
  calculate_secret, calculate_digest, digest_uri, client_digest, response_map, challenged,
  answer_challenge, check_rspauth, client_respond, challenge_map, server_digest, named, keyed,
  check_response, read_response, server_respond, parsed, split, contains_part,
}

module _ (q : Primitives) where
  -- The client's first step, and the server's.
  pub client_begins :
      (c : ClientDigestMd5) (received : Bytes)
      → client_respond q (record c { step = 0 }) received ≡ (some [], record c { step = 1 })
  unfolding client_respond
  client_begins c received = refl

  pub server_begins :
      (s : ServerDigestMd5) (request : Bytes)
      → server_respond q (record s { step = 0 }) request ≡ (
        challenge,
        some (serialize_message (challenge_fields s.nonce (q.to_utf8 s.realm))),
        record s { step = 1 },
      )
  unfolding server_respond challenge_map challenge_fields
  server_begins s request = refl

  -- The client once it has read a challenge with this nonce and realm.
  unfoldable pub ready : Bytes → Bytes → ClientDigestMd5 → ClientDigestMd5
  ready nonce realm c = record c {
    nonce = nonce;
    secret = calculate_secret q c.username realm c.password;
    step = 2;
  }

  unfoldable pub answer_fields : Bytes → Bytes → ClientDigestMd5 → QMap
  answer_fields nonce realm c =
      response_fields (q.to_utf8 c.username) realm nonce c.cnonce c.nc (digest_uri q c)
        (client_digest q (codes "AUTHENTICATE") (ready nonce realm c))

  pub qop_is_auth : contains_part (split b',' (codes "auth")) (codes "auth") ≡ true
  unfolding contains_part split text_eq
  qop_is_auth = refl

  pub response_map_fields :
      (nonce realm : Bytes) (c : ClientDigestMd5)
      → response_map q realm (ready nonce realm c) ≡ answer_fields nonce realm c
  unfolding response_map answer_fields response_fields ready digest_uri
  response_map_fields nonce realm c = refl

  pub challenged_ready :
      (nonce realm : Bytes) (m : QMap) (c : ClientDigestMd5)
      → IsChallenge nonce realm m
      → challenged q m c ≡ ready nonce realm c
  unfolding challenged ready
  challenged_ready nonce realm m c h = rw (h.its_nonce, h.its_realm)

  pub answer_challenge_passed :
      (m : QMap) (c : ClientDigestMd5)
      → contains_key (codes "nonce") m ≡ true
      → contains_part (split b',' (value_or (codes "auth") (codes "qop") m)) (codes "auth") ≡ true
      → answer_challenge q m c ≡ (
        some
            (serialize_message (response_map q (value_or [] (codes "realm") m) (challenged q m c))),
        challenged q m c,
      )
  unfolding answer_challenge
  answer_challenge_passed m c has fits = rw (has, fits)

  pub answer_challenge_lem :
      (nonce realm : Bytes) (m : QMap) (c : ClientDigestMd5)
      → IsChallenge nonce realm m
      → answer_challenge q m c
        ≡ (some (serialize_message (answer_fields nonce realm c)), ready nonce realm c)
  answer_challenge_lem nonce realm m c h =
      answer_challenge_passed m c h.has_nonce
        (ap (λ (v : Bytes). contains_part (split b',' v) (codes "auth")) h.its_qop ∙ qop_is_auth)
      ∙ ap
          (λ (d : ClientDigestMd5).
            (some (serialize_message (response_map q (value_or [] (codes "realm") m) d)), d))
          (challenged_ready nonce realm m c h)
      ∙ ap
          (λ (r : Bytes). (
            some (serialize_message (response_map q r (ready nonce realm c))),
            ready nonce realm c,
          ))
          h.its_realm
      ∙ ap (λ (r : QMap). (some (serialize_message r), ready nonce realm c))
          (response_map_fields nonce realm c)

  pub client_answers :
      (c : ClientDigestMd5) (nonce realm : Bytes)
      → NoBackslash nonce
      → NoBackslash realm
      → client_respond q (record c { step = 1 }) (serialize_message (challenge_fields nonce realm))
        ≡ (some (serialize_message (answer_fields nonce realm c)), ready nonce realm c)
  unfolding client_respond serialize_message answer_fields ready
  client_answers c nonce realm n r =
      ap (λ (m : QMap). answer_challenge q m (record c { step = 1 }))
        (parsed-serialize_message (challenge_fields nonce realm) (challenge_fields_keys nonce realm)
          (challenge_fields_values nonce realm n r))
      ∙ answer_challenge_lem nonce realm (challenge_fields nonce realm) (record c { step = 1 })
          (challenge_fields-IsChallenge nonce realm)

  -- The values of the dialog can be written in messages, and the user's name in UTF-8.
  pub record IsCarried (nonce realm : Bytes) (c : ClientDigestMd5) : Type 0 where
    pub username_fits : NoBackslash (q.to_utf8 c.username)
    pub realm_fits : NoBackslash realm
    pub nonce_fits : NoBackslash nonce
    pub cnonce_fits : NoBackslash c.cnonce
    pub nc_fits : NoBackslash c.nc
    pub uri_fits : NoBackslash (digest_uri q c)
    pub hex_fits : (b : Bytes) → NoBackslash (q.to_hex b)
    pub username_read : q.from_utf8 (q.to_utf8 c.username) ≡ c.username

  -- The server that has read the response of such a client.
  unfoldable pub informed : Bytes → Bytes → ClientDigestMd5 → ServerDigestMd5 → ServerDigestMd5
  informed user realm c s = record s {
    username = user;
    nc = c.nc;
    cnonce = c.cnonce;
    secret =
        if is_empty s.password then s.password_digest else calculate_secret q user realm s.password;
  }

  pub keyed-informed :
      (nonce realm uri response : Bytes) (m : QMap) (c : ClientDigestMd5) (s : ServerDigestMd5)
      → IsResponse (q.to_utf8 c.username) realm c.cnonce c.nc uri response m
      → q.from_utf8 (q.to_utf8 c.username) ≡ c.username
      → keyed q m (named q m s) ≡ informed c.username realm c s
  unfolding keyed named informed
  keyed-informed nonce realm uri response m c s h u =
      rw (h.its_username, u, h.its_realm, h.its_nc, h.its_cnonce)

  -- What the server does with the response, by its digest.
  unfoldable pub verdict :
      Bytes → Bytes → ServerDigestMd5 → Response × Option Bytes × ServerDigestMd5
  unfolding calculate_digest insert
  verdict uri response s =
      if text_eq response
        (calculate_digest q (codes "AUTHENTICATE") uri s.secret s.nonce s.cnonce s.nc)
      then (
        challenge,
        some (
            serialize_message (
              insert (codes "rspauth") (calculate_digest q [] uri s.secret s.nonce s.cnonce s.nc)
                [])),
        record s { step = 2 },
      )
      else (failed, none, s)

  pub check_response-verdict :
      (uri response : Bytes) (m : QMap) (s : ServerDigestMd5)
      → value_or [] (codes "digest-uri") m ≡ uri
      → value_or [] (codes "response") m ≡ response
      → check_response q m s ≡ verdict uri response s
  unfolding check_response server_digest verdict
  check_response-verdict uri response m s e f = rw (e, f)

  pub read_response_passed :
      (m : QMap) (s : ServerDigestMd5)
      → value_or [] (codes "qop") m ≡ codes "auth"
      → (is_empty s.password && is_empty s.password_digest) ≡ false
      → read_response q m s ≡ check_response q m (keyed q m (named q m s))
  unfolding read_response
  read_response_passed m s e f = rw (e, text_eq_refl (codes "auth"), f)

  server_second :
      (s : ServerDigestMd5) (request : Bytes)
      → server_respond q (record s { step = 1 }) request
        ≡ read_response q (parsed request) (record s { step = 1 })
  unfolding server_respond
  server_second s request = refl

  pub server_reads :
      (nonce realm : Bytes) (c : ClientDigestMd5) (s : ServerDigestMd5)
      → IsCarried nonce realm c
      → (is_empty s.password && is_empty s.password_digest) ≡ false
      → server_respond q (record s { step = 1 }) (serialize_message (answer_fields nonce realm c))
        ≡ verdict
            (digest_uri q c)
            (client_digest q (codes "AUTHENTICATE") (ready nonce realm c))
            (informed c.username realm c (record s { step = 1 }))
  unfolding answer_fields client_digest
  server_reads nonce realm c s h known =
      let uri = digest_uri q c in
      let response = client_digest q (codes "AUTHENTICATE") (ready nonce realm c) in
      let user = q.to_utf8 c.username in
      let read = response_fields-IsResponse user realm nonce c.cnonce c.nc uri response in
      let s1 = record s { step = 1 } in
      server_second s _
      ∙ ap (λ (m : QMap). read_response q m s1)
          (parsed-serialize_message (answer_fields nonce realm c)
            (response_fields_keys user realm nonce c.cnonce c.nc uri response)
            (response_fields_values user realm nonce c.cnonce c.nc uri response h.username_fits
              h.realm_fits h.nonce_fits h.cnonce_fits h.nc_fits h.uri_fits (h.hex_fits _)))
      ∙ read_response_passed (answer_fields nonce realm c) s1 read.qop known
      ∙ ap (check_response q (answer_fields nonce realm c)) (
          keyed-informed nonce realm uri response (answer_fields nonce realm c) c s1 read
            h.username_read)
      ∙ check_response-verdict uri response (answer_fields nonce realm c) _ read.its_uri
          read.its_response

  pub rspauth_keys : (d : Bytes) → are_keys (insert (codes "rspauth") d []) ≡ true
  unfolding are_keys insert text_eq trimmed contains_byte
  rspauth_keys d = refl

  pub rspauth_values :
      (d : Bytes)
      → NoBackslash d
      → All (λ (e : Bytes × Bytes). NoBackslash e.1) (insert (codes "rspauth") d [])
  unfolding insert
  rspauth_values d h = (h, tt)

  pub check_rspauth_lem :
      (c : ClientDigestMd5)
      → check_rspauth q (insert (codes "rspauth") (client_digest q [] c) []) (record c { step = 2 })
        ≡ (some [], record c { step = 3 })
  unfolding check_rspauth insert
  check_rspauth_lem c = rw (text_eq_refl (codes "rspauth"), text_eq_refl (client_digest q [] c))

  -- The client checks the server's digest.
  pub client_checks :
      (c : ClientDigestMd5)
      → NoBackslash (client_digest q [] c)
      → client_respond q
          (record c { step = 2 })
          (serialize_message (insert (codes "rspauth") (client_digest q [] c) []))
        ≡ (some [], record c { step = 3 })
  unfolding client_respond
  client_checks c h =
      ap (λ (m : QMap). check_rspauth q m (record c { step = 2 }))
        (parsed-serialize_message (insert (codes "rspauth") (client_digest q [] c) [])
          (rspauth_keys _) (rspauth_values (client_digest q [] c) h))
      ∙ check_rspauth_lem c

  pub server_ends :
      (s : ServerDigestMd5) (request : Bytes)
      → server_respond q (record s { step = 2 }) request
        ≡ (succeeded, some [], record s { step = 3 })
  unfolding server_respond
  server_ends s request = refl
