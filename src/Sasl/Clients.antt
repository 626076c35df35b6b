-- ===== src/Sasl/Clients.antt =====
-- The other clients of base/QXmppSasl.cpp, the choice of a client for a mechanism, and the call of its
-- respond. The query of Facebook's messages, the hash functions and the encodings are those of Qt.
use qxmpp.Common.{
  ℕ, Bool, true, false, not, ◌||◌, [], ◌∷◌, ◌++◌, Option, none, some, Text, Bytes, codes, is_empty,
  ◌==◌, if◌then◌else◌,
}
use qxmpp.Sasl.Mechanism.{
  SaslMechanism, SaslHtMechanism, IanaHashAlgorithm, x_google, x_windows_live, x_facebook,
  anonymous, plain, digest_md5, scram, ht,
}
use qxmpp.Sasl.Credentials.{HtToken, Credentials, ht_eq}
use qxmpp.Sasl.DigestMd5.{ClientDigestMd5}
use qxmpp.Sasl.DigestMd5
use qxmpp.Sasl.Scram.{ClientScram}
use qxmpp.Sasl.Scram

pub record Primitives : Type 0 where
  pub digest : DigestMd5.Primitives
  pub scram_primitives : Scram.Primitives
  pub to_utf8 : Text → Bytes
  -- QByteArray::fromBase64 of the Latin-1 text.
  pub from_base64_text : Text → Bytes
  -- The items `method` and `nonce` of a query, if it has both.
  pub read_query : Bytes → Option (Text × Text)
  -- The query of the access token, the key, the method and the nonce.
  pub write_query : Text → Text → Text → Text → Bytes
  -- The key, then the message.
  pub ht_hmac : IanaHashAlgorithm → Bytes → Bytes → Bytes

pub record ClientAnonymous : Type 0 where
  pub step : ℕ

pub record ClientFacebook : Type 0 where
  pub step : ℕ
  pub access_token : Text
  pub app_id : Text

pub record ClientGoogle : Type 0 where
  pub step : ℕ
  pub username : Text
  pub access_token : Text

pub record ClientPlain : Type 0 where
  pub step : ℕ
  pub username : Text
  pub password : Text

pub record ClientWindowsLive : Type 0 where
  pub step : ℕ
  pub access_token : Text

pub record ClientHt : Type 0 where
  pub mechanism : SaslHtMechanism
  pub token : Option HtToken
  pub username : Text
  pub is_done : Bool

pub data SaslClient : Type 0 where
  client_scram : ClientScram → SaslClient
  client_ht : ClientHt → SaslClient
  client_plain : ClientPlain → SaslClient
  client_digest_md5 : ClientDigestMd5 → SaslClient
  client_anonymous : ClientAnonymous → SaslClient
  client_facebook : ClientFacebook → SaslClient
  client_windows_live : ClientWindowsLive → SaslClient
  client_google : ClientGoogle → SaslClient

unfoldable pub respond_anonymous : ClientAnonymous → Option Bytes × ClientAnonymous
respond_anonymous c = if c.step == 0 then (some [], record c { step = 1 }) else (none, c)

unfoldable pub respond_windows_live :
    Primitives → ClientWindowsLive → Option Bytes × ClientWindowsLive
respond_windows_live q c =
    if c.step == 0
    then (some (q.from_base64_text c.access_token), record c { step = 1 })
    else (none, c)

-- A zero byte, the user, a zero byte and the secret.
unfoldable pub zero_separated : Text → Text → Text
zero_separated user secret = 0 ∷ (user ++ (0 ∷ secret))

unfoldable pub respond_google : Primitives → ClientGoogle → Option Bytes × ClientGoogle
unfolding zero_separated
respond_google q c =
    if c.step == 0
    then (some (q.to_utf8 (zero_separated c.username c.access_token)), record c { step = 1 })
    else (none, c)

unfoldable pub respond_plain : Primitives → ClientPlain → Option Bytes × ClientPlain
unfolding zero_separated
respond_plain q c =
    if c.step == 0
    then (some (q.to_utf8 (zero_separated c.username c.password)), record c { step = 1 })
    else (none, c)

unfoldable pub answer_query :
    Primitives → ClientFacebook → Option (Text × Text) → Option Bytes × ClientFacebook
answer_query q c none = (none, c)
answer_query q c (some (method, nonce)) =
    (some (q.write_query c.access_token c.app_id method nonce), record c { step = 2 })

unfoldable pub respond_facebook :
    Primitives → ClientFacebook → Bytes → Option Bytes × ClientFacebook
unfolding answer_query
respond_facebook q c challenge =
    if c.step == 0
    then (some [], record c { step = 1 })
    else if c.step == 1
    then answer_query q c (q.read_query challenge)
    else (none, c)

-- A client with a token for its mechanism answers an empty challenge, once.
unfoldable pub respond_token :
    Primitives → ClientHt → Bytes → Option HtToken → Option Bytes × ClientHt
unfolding ht_eq
respond_token q c challenge none = (none, c)
respond_token q c challenge (some t) =
    if c.is_done || (not (is_empty challenge) || not (ht_eq c.mechanism t.mechanism))
    then (none, c)
    else (
      some (
          q.to_utf8 c.username
          ++ (0 ∷ q.ht_hmac c.mechanism.hash_algorithm (q.to_utf8 t.secret) (codes "Initiator"))),
      record c { is_done = true },
    )

unfoldable pub respond_ht : Primitives → ClientHt → Bytes → Option Bytes × ClientHt
unfolding respond_token
respond_ht q c challenge = respond_token q c challenge c.token

-- QXmppSaslClient::create, the setters that follow, and the constructors: `generated` is the random
-- nonce that the constructor makes, if it makes one.
unfoldable pub create :
    Primitives → SaslMechanism → Bytes → Text → Text → Text → Credentials → SaslClient
unfolding Scram.new_client DigestMd5.new_client
create q (scram a) generated host service user c =
    client_scram (Scram.new_client q.scram_primitives a user c.password generated)
create q (ht m) generated host service user c =
    client_ht (record { mechanism = m; token = c.ht_token; username = user; is_done = false })
create q plain generated host service user c =
    client_plain (record { step = 0; username = user; password = c.password })
create q digest_md5 generated host service user c =
    client_digest_md5 (DigestMd5.new_client host service user c.password generated)
create q anonymous generated host service user c = client_anonymous (record { step = 0 })
create q x_facebook generated host service user c =
    client_facebook
      (record { step = 0; access_token = c.facebook_access_token; app_id = c.facebook_app_id })
create q x_windows_live generated host service user c =
    client_windows_live (record { step = 0; access_token = c.windows_live_access_token })
create q x_google generated host service user c =
    client_google (record { step = 0; username = user; access_token = c.google_access_token })

unfoldable pub wrap {ℓ} :
    {C : Type ℓ} → (C → SaslClient) → Option Bytes × C → Option Bytes × SaslClient
wrap f (answer, c) = (answer, f c)

-- The virtual call.
unfoldable pub respond : Primitives → SaslClient → Bytes → Option Bytes × SaslClient
unfolding wrap
respond q (client_scram c) challenge =
    wrap client_scram (Scram.respond q.scram_primitives c challenge)
respond q (client_ht c) challenge = wrap client_ht (respond_ht q c challenge)
respond q (client_plain c) challenge = wrap client_plain (respond_plain q c)
respond q (client_digest_md5 c) challenge =
    wrap client_digest_md5 (DigestMd5.client_respond q.digest c challenge)
respond q (client_anonymous c) challenge = wrap client_anonymous (respond_anonymous c)
respond q (client_facebook c) challenge = wrap client_facebook (respond_facebook q c challenge)
respond q (client_windows_live c) challenge = wrap client_windows_live (respond_windows_live q c)
respond q (client_google c) challenge = wrap client_google (respond_google q c)
