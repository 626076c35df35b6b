-- ===== src/Client/Configuration.antt =====
-- The JIDs of a configuration, of client/QXmppConfiguration.cpp, and the recipient that
-- QXmppOutgoingClient::sendIq of client/QXmppOutgoingClient.cpp hands to the request manager.
use qxmpp.Common.{Bool, ◌∷◌, ◌++◌, Text, is_empty, if◌then◌else◌}
use qxmpp.Stream.Ack.{Packet}
use qxmpp.Client.Requests.{OutgoingIqManager, send_iq}

pub record Configuration : Type 0 where
  pub user : Text
  pub domain : Text
  pub resource : Text

unfoldable pub configuration_jid_bare : Configuration → Text
configuration_jid_bare c = if is_empty c.user then c.domain else c.user ++ b'@' ∷ c.domain

unfoldable pub configuration_jid : Configuration → Text
configuration_jid c =
    if is_empty c.user then c.domain else configuration_jid_bare c ++ b'/' ∷ c.resource

-- An empty recipient means the own account.
unfoldable pub recipient_of : Configuration → Text → Text
recipient_of c to = if is_empty to then configuration_jid_bare c else to

unfoldable pub send_client_iq :
    Configuration
    → Bool
    → (Text → Packet)
    → Text
    → Text
    → Text
    → Text
    → OutgoingIqManager
    → OutgoingIqManager
send_client_iq c accepts serialize uuid uuid' id to =
    send_iq accepts serialize uuid uuid' id (recipient_of c to)
