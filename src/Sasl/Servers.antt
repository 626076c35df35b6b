-- ===== src/Sasl/Servers.antt =====
-- The servers of base/QXmppSasl.cpp, the choice of a server by the mechanism's name, and the call of
-- its respond.
use qxmpp.Common.{
  ℕ, List, [], ◌∷◌, Option, none, some, Text, Bytes, codes, text_eq, is_empty, ◌==◌, if◌then◌else◌,
}
use qxmpp.Sasl.DigestMd5.{
  Response, challenge, succeeded, failed, input_needed, ServerDigestMd5, server_respond, new_server,
  split,
}
use qxmpp.Sasl.Clients.{Primitives}
pub mod Plain

pub record ServerAnonymous : Type 0 where
  pub step : ℕ

pub record ServerPlain : Type 0 where
  pub step : ℕ
  pub username : Text
  pub password : Text

pub data SaslServer : Type 0 where
  server_anonymous : ServerAnonymous → SaslServer
  server_digest_md5 : ServerDigestMd5 → SaslServer
  server_plain : ServerPlain → SaslServer

-- What is not written to `response` is `none`.
unfoldable pub answer_anonymous : ServerAnonymous → Response × Option Bytes × ServerAnonymous
answer_anonymous s =
    if s.step == 0 then (succeeded, some [], record s { step = 1 }) else (failed, none, s)

-- The three parts of the request: the second is the user's name, the third the password.
unfoldable pub read_parts :
    Primitives → ServerPlain → List Bytes → Response × Option Bytes × ServerPlain
read_parts q s (authzid ∷ user ∷ password ∷ []) = (
  input_needed,
  some [],
  record s { username = q.digest.from_utf8 user; password = q.digest.from_utf8 password; step = 1 },
)
read_parts q s _ = (failed, none, s)

unfoldable pub answer_plain :
    Primitives → ServerPlain → Bytes → Response × Option Bytes × ServerPlain
unfolding read_parts split
answer_plain q s request =
    if s.step == 0
    then if is_empty request then (challenge, some [], s) else read_parts q s (split 0 request)
    else (failed, none, s)

-- QXmppSaslServer::create, with the realm that the caller sets.
unfoldable pub create_server : Text → Text → Bytes → Option SaslServer
unfolding new_server
create_server mechanism realm generated =
    if text_eq mechanism (codes "PLAIN")
    then some (server_plain (record { step = 0; username = []; password = [] }))
    else if text_eq mechanism (codes "DIGEST-MD5")
    then some (server_digest_md5 (new_server realm [] [] generated))
    else if text_eq mechanism (codes "ANONYMOUS")
    then some (server_anonymous (record { step = 0 }))
    else none
