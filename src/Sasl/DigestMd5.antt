-- ===== src/Sasl/DigestMd5.antt =====
-- DIGEST-MD5: QXmppSaslClientDigestMd5 and QXmppSaslServerDigestMd5 of base/QXmppSasl.cpp. The hash,
-- the hexadecimal text and UTF-8 are those of Qt.
use qxmpp.Common.{
  ℕ, suc, ◌+◌, ◌≢◌, Bool, true, false, not, ◌&&◌, ◌||◌, List, [], ◌∷◌, ◌++◌, Option, none, some,
  Text, Bytes, codes, text_eq, is_empty, ◌==◌, if◌then◌else◌,
}
use qxmpp.Sasl.Message.{
  QMap, insert, value_or, contains_key, parse_message, serialize_message, contains_byte,
}
use qxmpp.Sasl.Message.Values.{last_or}
pub mod Sorted
pub mod Fields
pub mod Steps
pub mod Verdict
pub mod Dialog
mod Tests

pub record Primitives : Type 0 where
  pub md5 : Bytes → Bytes
  pub to_hex : Bytes → Bytes
  pub to_utf8 : Text → Bytes
  pub from_utf8 : Bytes → Text

-- QByteArray::split.
unfoldable pub onto_first : ℕ → List Bytes → List Bytes
onto_first c [] = (c ∷ []) ∷ []
onto_first c (s ∷ parts) = (c ∷ s) ∷ parts

unfoldable pub split : ℕ → Bytes → List Bytes
unfolding onto_first
split sep [] = [] ∷ []
split sep (c ∷ s) = let parts = split sep s in if c == sep then [] ∷ parts else onto_first c parts

unfoldable pub contains_part : List Bytes → Bytes → Bool
contains_part [] s = false
contains_part (part ∷ more) s = text_eq part s || contains_part more s

-- The fuel of parse_message is enough for every text.
unfoldable pub parsed : Bytes → QMap
unfolding parse_message
parsed ba = elim (parse_message ba) [ none ↦ [] | some m ↦ m ]

pub record ClientDigestMd5 : Type 0 where
  pub host : Text
  pub service_type : Text
  pub username : Text
  pub password : Text
  pub cnonce : Bytes
  pub nc : Bytes
  pub nonce : Bytes
  pub secret : Bytes
  pub step : ℕ

pub data Response : Type 0 where
  challenge succeeded failed input_needed : Response

pub record ServerDigestMd5 : Type 0 where
  pub username : Text
  pub password : Text
  pub password_digest : Bytes
  pub realm : Text
  pub nonce : Bytes
  pub cnonce : Bytes
  pub nc : Bytes
  pub secret : Bytes
  pub step : ℕ

-- The constructor and the setters that the manager calls.
unfoldable pub new_client : Text → Text → Text → Text → Bytes → ClientDigestMd5
new_client host service_type username password generated = record {
  host = host;
  service_type = service_type;
  username = username;
  password = password;
  cnonce = generated;
  nc = codes "00000001";
  nonce = [];
  secret = [];
  step = 0;
}

-- The constructor, with what is set before the first message.
unfoldable pub new_server : Text → Text → Bytes → Bytes → ServerDigestMd5
new_server realm password digest generated = record {
  username = [];
  password = password;
  password_digest = digest;
  realm = realm;
  nonce = generated;
  cnonce = [];
  nc = [];
  secret = [];
  step = 0;
}

-- `a + ':' + b`.
abbrev pub colon : Bytes → Bytes → Bytes
colon a b = a ++ (b':' ∷ b)

-- An entry that is left out if its value is empty.
unfoldable pub insert_filled : Bytes → Bytes → QMap → QMap
unfolding insert
insert_filled key value m = if is_empty value then m else insert key value m

module _ (q : Primitives) where
  unfoldable pub calculate_digest : Bytes → Bytes → Bytes → Bytes → Bytes → Bytes → Bytes
  calculate_digest method digest_uri secret nonce cnonce nc =
      let ha1 = q.to_hex (q.md5 (colon secret (colon nonce cnonce))) in
      let ha2 = q.to_hex (q.md5 (colon method digest_uri)) in
      q.to_hex
        (q.md5 (colon ha1 (colon nonce (colon nc (colon cnonce (colon (codes "auth") ha2))))))

  -- The hash of the user's name, the realm and the password.
  unfoldable pub calculate_secret : Text → Bytes → Text → Bytes
  calculate_secret username realm password =
      q.md5 (colon (q.to_utf8 username) (colon realm (q.to_utf8 password)))

  unfoldable pub digest_uri : ClientDigestMd5 → Bytes
  digest_uri c = q.to_utf8 (c.service_type ++ (b'/' ∷ c.host))

  unfoldable pub client_digest : Bytes → ClientDigestMd5 → Bytes
  unfolding calculate_digest digest_uri
  client_digest method c = calculate_digest method (digest_uri c) c.secret c.nonce c.cnonce c.nc

  -- The map that answers the challenge.
  unfoldable pub response_map : Bytes → ClientDigestMd5 → QMap
  unfolding client_digest insert_filled
  response_map realm c =
      let named = insert (codes "username") (q.to_utf8 c.username) [] in
      let placed = insert_filled (codes "realm") realm named in
      let fresh = insert (codes "nonce") c.nonce placed in
      let protected = insert (codes "qop") (codes "auth") fresh in
      let own = insert (codes "cnonce") c.cnonce protected in
      let counted = insert (codes "nc") c.nc own in
      let addressed = insert (codes "digest-uri") (digest_uri c) counted in
      let answered = insert (codes "response") (client_digest (codes "AUTHENTICATE") c) addressed in
      insert (codes "charset") (codes "utf-8") answered

  -- The client that has read the challenge.
  unfoldable pub challenged : QMap → ClientDigestMd5 → ClientDigestMd5
  unfolding calculate_secret value_or
  challenged input c = record c {
    nonce = value_or [] (codes "nonce") input;
    secret = calculate_secret c.username (value_or [] (codes "realm") input) c.password;
    step = 2;
  }

  unfoldable pub answer_challenge : QMap → ClientDigestMd5 → Option Bytes × ClientDigestMd5
  unfolding response_map challenged contains_key split contains_part
  answer_challenge input c =
      if not (contains_key (codes "nonce") input)
      then (none, c)
      else if not
          (contains_part (split b',' (value_or (codes "auth") (codes "qop") input)) (codes "auth"))
      then (none, c)
      else (
        some (
            serialize_message
              (response_map (value_or [] (codes "realm") input) (challenged input c))),
        challenged input c,
      )

  unfoldable pub check_rspauth : QMap → ClientDigestMd5 → Option Bytes × ClientDigestMd5
  unfolding client_digest value_or
  check_rspauth input c =
      if text_eq (value_or [] (codes "rspauth") input) (client_digest [] c)
      then (some [], record c { step = 3 })
      else (none, c)

  unfoldable pub client_respond : ClientDigestMd5 → Bytes → Option Bytes × ClientDigestMd5
  unfolding answer_challenge check_rspauth parsed
  client_respond c received =
      if c.step == 0
      then (some [], record c { step = 1 })
      else if c.step == 1
      then answer_challenge (parsed received) c
      else if c.step == 2
      then check_rspauth (parsed received) c
      else (none, c)

  unfoldable pub challenge_map : ServerDigestMd5 → QMap
  unfolding insert_filled insert
  challenge_map s =
      let fresh = insert (codes "nonce") s.nonce [] in
      let placed = insert_filled (codes "realm") (q.to_utf8 s.realm) fresh in
      let protected = insert (codes "qop") (codes "auth") placed in
      let encoded = insert (codes "charset") (codes "utf-8") protected in
      insert (codes "algorithm") (codes "md5-sess") encoded

  -- The digest that the server expects for a request, and the one that it gives.
  unfoldable pub server_digest : Bytes → QMap → ServerDigestMd5 → Bytes
  unfolding calculate_digest value_or
  server_digest method input s =
      calculate_digest method (value_or [] (codes "digest-uri") input) s.secret s.nonce s.cnonce
        s.nc

  unfoldable pub named : QMap → ServerDigestMd5 → ServerDigestMd5
  unfolding value_or
  named input s = record s { username = q.from_utf8 (value_or [] (codes "username") input) }

  -- The server that has read the response.
  unfoldable pub keyed : QMap → ServerDigestMd5 → ServerDigestMd5
  unfolding calculate_secret value_or
  keyed input s = record s {
    nc = value_or [] (codes "nc") input;
    cnonce = value_or [] (codes "cnonce") input;
    secret =
        if is_empty s.password
        then s.password_digest
        else calculate_secret s.username (value_or [] (codes "realm") input) s.password;
  }

  unfoldable pub check_response : QMap → ServerDigestMd5 → Response × Option Bytes × ServerDigestMd5
  unfolding server_digest insert value_or
  check_response input s =
      if text_eq (value_or [] (codes "response") input)
        (server_digest (codes "AUTHENTICATE") input s)
      then (
        challenge,
        some (serialize_message (insert (codes "rspauth") (server_digest [] input s) [])),
        record s { step = 2 },
      )
      else (failed, none, s)

  unfoldable pub read_response : QMap → ServerDigestMd5 → Response × Option Bytes × ServerDigestMd5
  unfolding named keyed check_response value_or
  read_response input s =
      if not (text_eq (value_or [] (codes "qop") input) (codes "auth"))
      then (failed, none, s)
      else if is_empty s.password && is_empty s.password_digest
      then (input_needed, none, named input s)
      else check_response input (keyed input (named input s))

  -- What is not written to `response` is `none`.
  unfoldable pub server_respond :
      ServerDigestMd5 → Bytes → Response × Option Bytes × ServerDigestMd5
  unfolding read_response challenge_map parsed
  server_respond s request =
      if s.step == 0
      then (challenge, some (serialize_message (challenge_map s)), record s { step = 1 })
      else if s.step == 1
      then read_response (parsed request) s
      else if s.step == 2
      then (succeeded, some [], record s { step = 3 })
      else (failed, none, s)
