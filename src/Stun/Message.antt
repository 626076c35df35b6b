-- ===== src/Stun/Message.antt =====
-- The data of QXmppStunMessage. An attribute whose presence is kept in `m_attributes` is an option:
-- its value is set together with its entry there, and is the default without it.
use qxmpp.Common.{ℕ, Bool, false, [], Option, none, Text, Bytes}
use qxmpp.Stun.Wire.{zeros}

abbrev pub stun_magic : ℕ
stun_magic = 0x2112a442

abbrev pub stun_header : ℕ
stun_header = 20

abbrev pub stun_id_size : ℕ
stun_id_size = 12

-- QHostAddress, as far as it is used.
pub data HostAddress : Type 0 where
  null : HostAddress
  ipv4 : ℕ → HostAddress
  ipv6 : Bytes → HostAddress

pub record Endpoint : Type 0 where
  pub host : HostAddress
  pub port : ℕ

abbrev pub no_endpoint : Endpoint
no_endpoint = record { host = null; port = 0 }

pub record StunMessage : Type 0 where
  pub cookie : ℕ
  pub id : Bytes
  pub message_type : ℕ
  pub mapped : Endpoint
  pub change_request : Option ℕ
  pub source : Endpoint
  pub changed : Endpoint
  pub other : Endpoint
  pub xor_mapped : Endpoint
  pub xor_peer : Endpoint
  pub xor_relayed : Endpoint
  pub error_code : ℕ
  pub error_phrase : Text
  pub priority : Option ℕ
  pub use_candidate : Bool
  pub channel_number : Option ℕ
  pub data_bytes : Option Bytes
  pub lifetime : Option ℕ
  pub nonce : Option Bytes
  pub realm : Option Text
  pub requested_transport : Option ℕ
  pub reservation_token : Option Bytes
  pub software : Option Text
  pub username : Option Text
  pub ice_controlling : Bytes
  pub ice_controlled : Bytes

unfoldable pub new_message : StunMessage
new_message = record {
  cookie = stun_magic;
  id = zeros stun_id_size;
  message_type = 0;
  mapped = no_endpoint;
  change_request = none;
  source = no_endpoint;
  changed = no_endpoint;
  other = no_endpoint;
  xor_mapped = no_endpoint;
  xor_peer = no_endpoint;
  xor_relayed = no_endpoint;
  error_code = 0;
  error_phrase = [];
  priority = none;
  use_candidate = false;
  channel_number = none;
  data_bytes = none;
  lifetime = none;
  nonce = none;
  realm = none;
  requested_transport = none;
  reservation_token = none;
  software = none;
  username = none;
  ice_controlling = [];
  ice_controlled = [];
}
