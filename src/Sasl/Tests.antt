-- ===== src/Sasl/Tests.antt =====
-- The theorems about SASL at concrete inputs.
use qxmpp.Common.{◌≡◌, refl, false, [], ◌∷◌, ◌++◌, none, some, Text, Bytes, codes, arith, All, List}
use qxmpp.Sasl.Mechanism.{SaslHtMechanism, ht, from_string, to_string, unbound, sha384}
use qxmpp.Sasl.Mechanism.Names.{from_string-to_string}
use qxmpp.Sasl.Credentials.{Credentials}
use qxmpp.Sasl.Choose.{SaslSettings, choose_mechanism}
use qxmpp.Sasl.Choose.Best.{Choice, choose_mechanism-Choice}
use qxmpp.Sasl.Message.{QMap, parse_message, serialize_message, trimmed, contains_byte, bytes_less}
use qxmpp.Sasl.Message.Map.{IsSorted}
use qxmpp.Sasl.Message.RoundTrip.{IsEntry, parse_message-serialize_message}
use qxmpp.Sasl.Message.Backslash.{parse_message-backslash}

-- Names and the choice of a mechanism.
abbrev token_mechanism : SaslHtMechanism
token_mechanism = record { hash_algorithm = sha384; channel_binding_type = unbound }

from_string-to_string_example :
    from_string (to_string (ht token_mechanism)) ≡ some (ht token_mechanism)
from_string-to_string_example = from_string-to_string (ht token_mechanism)

abbrev credentials : Credentials
credentials = record {
  password = codes "pencil";
  ht_token = none;
  facebook_access_token = [];
  facebook_app_id = [];
  google_access_token = [];
  windows_live_access_token = [];
}

abbrev settings : SaslSettings
settings = record {
  disabled_sasl_mechanisms = codes "PLAIN" ∷ [];
  sasl_auth_mechanism = [];
  credential_data = credentials;
}

abbrev offer : List Text
offer = codes "PLAIN" ∷ codes "SCRAM-SHA-1" ∷ codes "X-NEW" ∷ codes "DIGEST-MD5" ∷ []

choose_mechanism-Choice_example : Choice settings offer (choose_mechanism settings offer).0
choose_mechanism-Choice_example = choose_mechanism-Choice settings offer

-- Messages of DIGEST-MD5.
abbrev key : Bytes
key = codes "username"

abbrev small_map : QMap
small_map = (codes "nonce", codes "a,b\"c") ∷ (codes "realm", []) ∷ []

small_map-IsSorted : IsSorted small_map
unfolding bytes_less
small_map-IsSorted = ((refl, tt), (tt, tt))

small_map-IsEntry : All IsEntry small_map
unfolding trimmed contains_byte
small_map-IsEntry = (
  record { no_equals = refl; no_space = refl; no_backslash = omega arith },
  (record { no_equals = refl; no_space = refl; no_backslash = omega arith }, tt),
)

parse_message-serialize_message_example :
    parse_message (serialize_message small_map) ≡ some small_map
parse_message-serialize_message_example =
    parse_message-serialize_message small_map small_map-IsSorted small_map-IsEntry

key_no_equals : contains_byte key b'=' ≡ false
unfolding contains_byte
key_no_equals = refl

key-trimmed : trimmed key ≡ key
unfolding trimmed
key-trimmed = refl

parse_message-backslash_example :
    parse_message (serialize_message (small_map ++ ((key, codes "a\\") ∷ []))) ≡ some small_map
parse_message-backslash_example =
    parse_message-backslash small_map key (codes "a\\") small_map-IsSorted small_map-IsEntry
      key_no_equals key-trimmed refl
