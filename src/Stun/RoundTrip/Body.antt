-- ===== src/Stun/RoundTrip/Body.antt =====
-- All attributes of a message, in the order of encode.
use qxmpp.Common.{ℕ, ◌<◌, ◌≡◌, refl, [], Bytes, length, arith}
use qxmpp.Stun.Message.{stun_id_size, Endpoint, StunMessage, new_message}
use qxmpp.Stun.AttributeType
use qxmpp.Stun.Encode.{Platform, encode_attributes}
use qxmpp.Stun.Decode.{decode_attribute}
use qxmpp.Stun.RoundTrip.Blocks.{Reads, Reads-append}
use qxmpp.Stun.RoundTrip.Addresses.{IsHost, Reads-add_address}
use qxmpp.Stun.RoundTrip.Attributes.{
  Fits, IsShort, HasLength, IsText, AreText, IsRole, Reads-change_request, Reads-priority,
  Reads-lifetime, Reads-channel_number, Reads-requested_transport, Reads-data_bytes, Reads-nonce,
  Reads-realm, Reads-software, Reads-username, Reads-reservation_token, Reads-use_candidate,
  Reads-encode_error, Reads-encode_ice,
}

-- A message whose values fit their attributes: numbers of the width of their field, texts that UTF-8
-- gives back, addresses that are written, at most one role of ICE, and room for all of it.
pub record IsMessage (pf : Platform) (m : StunMessage) : Type 0 where
  pub id_size : length m.id ≡ stun_id_size
  pub type_fits : m.message_type < 65536
  pub cookie_fits : m.cookie < 4294967296
  pub mapped_host : IsHost m.mapped.host m.mapped.port
  pub change_request_fits : Fits 4294967296 m.change_request
  pub source_host : IsHost m.source.host m.source.port
  pub changed_host : IsHost m.changed.host m.changed.port
  pub other_host : IsHost m.other.host m.other.port
  pub xor_mapped_host : IsHost m.xor_mapped.host m.xor_mapped.port
  pub xor_peer_host : IsHost m.xor_peer.host m.xor_peer.port
  pub xor_relayed_host : IsHost m.xor_relayed.host m.xor_relayed.port
  pub priority_fits : Fits 4294967296 m.priority
  pub channel_number_fits : Fits 65536 m.channel_number
  pub data_bytes_fits : IsShort m.data_bytes
  pub lifetime_fits : Fits 4294967296 m.lifetime
  pub nonce_fits : IsShort m.nonce
  pub realm_fits : AreText pf m.realm
  pub requested_transport_fits : Fits 256 m.requested_transport
  pub reservation_token_fits : HasLength 8 m.reservation_token
  pub software_fits : AreText pf m.software
  pub username_fits : AreText pf m.username
  pub code_fits : m.error_code < 25600
  pub phrase_text : IsText pf m.error_phrase
  pub silent : m.error_code ≡ 0 → m.error_phrase ≡ []
  pub role : IsRole m.ice_controlling m.ice_controlled
  pub room : length (encode_attributes pf m) < 65500

-- The message as far as it has been read.
module _ (m : StunMessage) where
  abbrev pub started : StunMessage
  started = record new_message { message_type = m.message_type; cookie = m.cookie; id = m.id }

  abbrev upto_mapped : StunMessage
  upto_mapped = record started { mapped = m.mapped }

  abbrev upto_change_request : StunMessage
  upto_change_request = record upto_mapped { change_request = m.change_request }

  abbrev upto_source : StunMessage
  upto_source = record upto_change_request { source = m.source }

  abbrev upto_changed : StunMessage
  upto_changed = record upto_source { changed = m.changed }

  abbrev upto_other : StunMessage
  upto_other = record upto_changed { other = m.other }

  abbrev upto_xor_mapped : StunMessage
  upto_xor_mapped = record upto_other { xor_mapped = m.xor_mapped }

  abbrev upto_xor_peer : StunMessage
  upto_xor_peer = record upto_xor_mapped { xor_peer = m.xor_peer }

  abbrev upto_xor_relayed : StunMessage
  upto_xor_relayed = record upto_xor_peer { xor_relayed = m.xor_relayed }

  abbrev upto_error : StunMessage
  upto_error = record upto_xor_relayed { error_code = m.error_code; error_phrase = m.error_phrase }

  abbrev upto_priority : StunMessage
  upto_priority = record upto_error { priority = m.priority }

  abbrev upto_use_candidate : StunMessage
  upto_use_candidate = record upto_priority { use_candidate = m.use_candidate }

  abbrev upto_channel_number : StunMessage
  upto_channel_number = record upto_use_candidate { channel_number = m.channel_number }

  abbrev upto_data_bytes : StunMessage
  upto_data_bytes = record upto_channel_number { data_bytes = m.data_bytes }

  abbrev upto_lifetime : StunMessage
  upto_lifetime = record upto_data_bytes { lifetime = m.lifetime }

  abbrev upto_nonce : StunMessage
  upto_nonce = record upto_lifetime { nonce = m.nonce }

  abbrev upto_realm : StunMessage
  upto_realm = record upto_nonce { realm = m.realm }

  abbrev upto_requested_transport : StunMessage
  upto_requested_transport = record upto_realm { requested_transport = m.requested_transport }

  abbrev upto_reservation_token : StunMessage
  upto_reservation_token = record upto_requested_transport {
    reservation_token = m.reservation_token;
  }

  abbrev upto_software : StunMessage
  upto_software = record upto_reservation_token { software = m.software }

  abbrev upto_username : StunMessage
  upto_username = record upto_software { username = m.username }

  abbrev upto_ice : StunMessage
  upto_ice = record upto_username {
    ice_controlling = m.ice_controlling;
    ice_controlled = m.ice_controlled;
  }

module _ (pf : Platform) (key buffer : Bytes) (total : ℕ) (m : StunMessage)
    (h : IsMessage pf m) where
  -- The attributes that encode writes turn the message with the header alone into the whole message.
  pub Reads-encode_attributes : Reads pf key buffer total (encode_attributes pf m) (started m) m
  unfolding encode_attributes decode_attribute new_message
  Reads-encode_attributes =
      Reads-append pf key buffer total
        (Reads-add_address pf key buffer total AttributeType.mapped_address []
          (λ (e : Endpoint). record (started m) { mapped = e }) (omega arith) refl refl
          (λ n s. refl) m.mapped h.mapped_host)
        (Reads-append pf key buffer total
          (Reads-change_request pf key buffer total (upto_mapped m) m.change_request
            h.change_request_fits)
          (Reads-append pf key buffer total
            (Reads-add_address pf key buffer total AttributeType.source_address []
              (λ (e : Endpoint). record (upto_change_request m) { source = e }) (omega arith) refl
              refl (λ n s. refl) m.source h.source_host)
            (Reads-append pf key buffer total
              (Reads-add_address pf key buffer total AttributeType.changed_address []
                (λ (e : Endpoint). record (upto_source m) { changed = e }) (omega arith) refl refl
                (λ n s. refl) m.changed h.changed_host)
              (Reads-append pf key buffer total
                (Reads-add_address pf key buffer total AttributeType.other_address []
                  (λ (e : Endpoint). record (upto_changed m) { other = e }) (omega arith) refl refl
                  (λ n s. refl) m.other h.other_host)
                (Reads-append pf key buffer total
                  (Reads-add_address pf key buffer total AttributeType.xor_mapped_address m.id
                    (λ (e : Endpoint). record (upto_other m) { xor_mapped = e }) (omega arith) refl
                    refl (λ n s. refl) m.xor_mapped h.xor_mapped_host)
                  (Reads-append pf key buffer total
                    (Reads-add_address pf key buffer total AttributeType.xor_peer_address m.id
                      (λ (e : Endpoint). record (upto_xor_mapped m) { xor_peer = e }) (omega arith)
                      refl refl (λ n s. refl) m.xor_peer h.xor_peer_host)
                    (Reads-append pf key buffer total
                      (Reads-add_address pf key buffer total AttributeType.xor_relayed_address m.id
                        (λ (e : Endpoint). record (upto_xor_peer m) { xor_relayed = e })
                        (omega arith) refl refl (λ n s. refl) m.xor_relayed h.xor_relayed_host)
                      (Reads-append pf key buffer total
                        (Reads-encode_error pf key buffer total (upto_xor_relayed m) m h.code_fits
                          h.phrase_text h.silent)
                        (Reads-append pf key buffer total
                          (Reads-priority pf key buffer total (upto_error m) m.priority
                            h.priority_fits)
                          (Reads-append pf key buffer total
                            (Reads-use_candidate pf key buffer total (upto_priority m)
                              m.use_candidate)
                            (Reads-append pf key buffer total
                              (Reads-channel_number pf key buffer total (upto_use_candidate m)
                                m.channel_number h.channel_number_fits)
                              (Reads-append pf key buffer total
                                (Reads-data_bytes pf key buffer total (upto_channel_number m)
                                  m.data_bytes h.data_bytes_fits)
                                (Reads-append pf key buffer total
                                  (Reads-lifetime pf key buffer total (upto_data_bytes m) m.lifetime
                                    h.lifetime_fits)
                                  (Reads-append pf key buffer total
                                    (Reads-nonce pf key buffer total (upto_lifetime m) m.nonce
                                      h.nonce_fits)
                                    (Reads-append pf key buffer total
                                      (Reads-realm pf key buffer total (upto_nonce m) m.realm
                                        h.realm_fits)
                                      (Reads-append pf key buffer total
                                        (Reads-requested_transport pf key buffer total
                                          (upto_realm m) m.requested_transport
                                          h.requested_transport_fits)
                                        (Reads-append pf key buffer total
                                          (Reads-reservation_token pf key buffer total
                                            (upto_requested_transport m) m.reservation_token
                                            h.reservation_token_fits)
                                          (Reads-append pf key buffer total
                                            (Reads-software pf key buffer total
                                              (upto_reservation_token m) m.software h.software_fits)
                                            (Reads-append pf key buffer total
                                              (Reads-username pf key buffer total (upto_software m)
                                                m.username h.username_fits)
                                              ((Reads-encode_ice pf key buffer total
                                                (upto_username m) m m.ice_controlling
                                                m.ice_controlled h.role)))))))))))))))))))))
