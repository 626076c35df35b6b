-- ===== src/Stun/AttributeType.antt =====
-- enum AttributeType of base/QXmppStun.cpp.
use qxmpp.Common.{ℕ}

abbrev pub mapped_address : ℕ
mapped_address = 0x0001

abbrev pub change_request : ℕ
change_request = 0x0003

abbrev pub source_address : ℕ
source_address = 0x0004

abbrev pub changed_address : ℕ
changed_address = 0x0005

abbrev pub username : ℕ
username = 0x0006

abbrev pub message_integrity : ℕ
message_integrity = 0x0008

abbrev pub error_code : ℕ
error_code = 0x0009

abbrev pub channel_number : ℕ
channel_number = 0x000c

abbrev pub lifetime : ℕ
lifetime = 0x000d

abbrev pub xor_peer_address : ℕ
xor_peer_address = 0x0012

abbrev pub data_attr : ℕ
data_attr = 0x0013

abbrev pub realm : ℕ
realm = 0x0014

abbrev pub nonce : ℕ
nonce = 0x0015

abbrev pub xor_relayed_address : ℕ
xor_relayed_address = 0x0016

abbrev pub even_port : ℕ
even_port = 0x0018

abbrev pub requested_transport : ℕ
requested_transport = 0x0019

abbrev pub xor_mapped_address : ℕ
xor_mapped_address = 0x0020

abbrev pub reservation_token : ℕ
reservation_token = 0x0022

abbrev pub priority : ℕ
priority = 0x0024

abbrev pub use_candidate : ℕ
use_candidate = 0x0025

abbrev pub software : ℕ
software = 0x8022

abbrev pub fingerprint : ℕ
fingerprint = 0x8028

abbrev pub ice_controlled : ℕ
ice_controlled = 0x8029

abbrev pub ice_controlling : ℕ
ice_controlling = 0x802a

abbrev pub other_address : ℕ
other_address = 0x802c
