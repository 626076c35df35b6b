-- ===== src/Stun/Encode.antt =====
-- QXmppStunMessage::encode. What is written attribute by attribute is a list of bytes for each.
use Prim.Native.Nat.{bit_xor}
use qxmpp.Common.{
  ℕ, ◌+◌, ◌-◌, ◌/◌, ◌%◌, Bool, not, [], ◌∷◌, ◌++◌, Option, none, some, Text, Bytes, is_empty, ◌==◌,
  if◌then◌else◌, length, take, drop, ◌≡◌,
}
use qxmpp.Utils.Crc.{generate_crc32}
use qxmpp.Utils.Hmac.{generate_hmac}
use qxmpp.Stun.Wire.{u16, u32, zeros, padding}
use qxmpp.Stun.Message.{
  stun_magic, stun_header, HostAddress, null, ipv4, ipv6, Endpoint, StunMessage,
}
use qxmpp.Stun.AttributeType

-- What is used of Qt and of the memory: the hash, QString::toUtf8 and fromUtf8, and what the bytes
-- hold that QByteArray::resize adds.
pub record Platform : Type 0 where
  pub sha1 : Bytes → Bytes
  pub to_utf8 : Text → Bytes
  pub from_utf8 : Bytes → Text
  pub uninitialised : ℕ → Bytes
  pub length-sha1 : (s : Bytes) → length (sha1 s) ≡ 20
  pub uninitialised-zero : uninitialised 0 ≡ []

-- An attribute without padding, and one whose value is padded to a multiple of four bytes.
unfoldable pub attribute : ℕ → Bytes → Bytes
attribute type value = u16 type ++ (u16 (length value) ++ value)

unfoldable pub padded_attribute : ℕ → Bytes → Bytes
padded_attribute type value = u16 type ++ (u16 (length value) ++ (value ++ padding (length value)))

-- The bytes of an IPv6 address under the mask.
unfoldable pub xor_bytes : Bytes → Bytes → Bytes
xor_bytes (a ∷ s) (b ∷ t) = bit_xor a b ∷ xor_bytes s t
xor_bytes s _ = s

-- STUN_MAGIC, and behind it the ID: the mask of an address.
unfoldable pub xor_pad : Bytes → Bytes
xor_pad xor_id = u32 stun_magic ++ xor_id

abbrev pub stun_ipv4 : ℕ
stun_ipv4 = 1

abbrev pub stun_ipv6 : ℕ
stun_ipv6 = 2

-- `value ^ mask`, unless the ID for the mask is empty.
abbrev pub mask_number : Bytes → ℕ → ℕ → ℕ
mask_number [] mask n = n
mask_number (_ ∷ _) mask n = bit_xor n mask

abbrev pub mask_bytes : Bytes → Bytes → Bytes
mask_bytes [] s = s
mask_bytes (c ∷ cs) s = xor_bytes s (xor_pad (c ∷ cs))

-- `STUN_MAGIC >> 16`.
abbrev pub port_mask : ℕ
port_mask = 0x2112

unfoldable pub encode_address : ℕ → HostAddress → ℕ → Bytes → Bytes
encode_address type null port xor_id = []
encode_address type (ipv4 a) port xor_id = attribute type (
    0 ∷ stun_ipv4 ∷ u16 (mask_number xor_id port_mask port)
    ++ u32 (mask_number xor_id stun_magic a))
encode_address type (ipv6 s) port xor_id =
    attribute type (0 ∷ stun_ipv6 ∷ u16 (mask_number xor_id port_mask port) ++ mask_bytes xor_id s)

unfoldable pub add_address : ℕ → Endpoint → Bytes → Bytes
add_address type e xor_id = if e.port == 0 then [] else encode_address type e.host e.port xor_id

abbrev pub optional {ℓ} : {A : Type ℓ} → (A → Bytes) → Option A → Bytes
optional f none = []
optional f (some a) = f a

-- setBodyLength: the two bytes behind the type.
unfoldable pub set_body_length : Bytes → ℕ → Bytes
set_body_length buffer n = take 2 buffer ++ (u16 n ++ drop 4 buffer)

unfoldable pub header : StunMessage → Bytes
header m = u16 m.message_type ++ (u16 0 ++ (u32 m.cookie ++ m.id))

unfoldable pub encode_ice : StunMessage → Bytes
encode_ice m =
    if not (is_empty m.ice_controlling)
    then attribute AttributeType.ice_controlling m.ice_controlling
    else if not (is_empty m.ice_controlled)
    then attribute AttributeType.ice_controlled m.ice_controlled
    else []

abbrev pub fingerprint_mask : ℕ
fingerprint_mask = 0x5354554e

unfoldable pub fingerprint_of : Bytes → ℕ
fingerprint_of buffer = bit_xor (generate_crc32 buffer) fingerprint_mask

unfoldable pub add_fingerprint : Bytes → Bytes
add_fingerprint buffer =
    let sized = set_body_length buffer (length buffer - stun_header + 8) in
    sized ++ attribute AttributeType.fingerprint (u32 (fingerprint_of sized))

module _ (pf : Platform) where
  -- encodeString.
  unfoldable pub encode_string : ℕ → Text → Bytes
  encode_string type text = padded_attribute type (pf.to_utf8 text)

  unfoldable pub encode_error : StunMessage → Bytes
  encode_error m =
      if m.error_code == 0
      then []
      else padded_attribute AttributeType.error_code
          (0 ∷ 0 ∷ m.error_code / 100 % 256 ∷ m.error_code % 100 ∷ pf.to_utf8 m.error_phrase)

  unfoldable pub encode_attributes : StunMessage → Bytes
  encode_attributes m =
      add_address AttributeType.mapped_address m.mapped []
      ++ (optional (λ v. attribute AttributeType.change_request (u32 v)) m.change_request
          ++ (add_address AttributeType.source_address m.source []
              ++ (add_address AttributeType.changed_address m.changed []
                  ++ (add_address AttributeType.other_address m.other []
                      ++ (add_address AttributeType.xor_mapped_address m.xor_mapped m.id
                          ++ (add_address AttributeType.xor_peer_address m.xor_peer m.id
                              ++ (add_address AttributeType.xor_relayed_address m.xor_relayed m.id
                                  ++ (encode_error m
                                      ++ (optional (λ v. attribute AttributeType.priority (u32 v))
                                            m.priority
                                          ++ ((if m.use_candidate
                                                then attribute AttributeType.use_candidate []
                                                else [])
                                              ++ (optional
                                                    (λ v.
                                                      attribute AttributeType.channel_number
                                                        (u16 v ++ u16 0))
                                                    m.channel_number
                                                  ++ (optional
                                                        (padded_attribute AttributeType.data_attr)
                                                        m.data_bytes
                                                      ++ (optional
                                                            (λ v.
                                                            attribute AttributeType.lifetime
                                                            (u32 v))
                                                            m.lifetime
                                                          ++ (optional
                                                            (padded_attribute AttributeType.nonce)
                                                            m.nonce
                                                            ++ (optional
                                                            (encode_string AttributeType.realm)
                                                            m.realm
                                                            ++ (optional
                                                            (λ v.
                                                            attribute
                                                            AttributeType.requested_transport
                                                            (v ∷ zeros 3))
                                                            m.requested_transport
                                                            ++ (optional
                                                            (attribute
                                                            AttributeType.reservation_token)
                                                            m.reservation_token
                                                            ++ (optional
                                                            (encode_string AttributeType.software)
                                                            m.software
                                                            ++ (optional
                                                            (encode_string AttributeType.username)
                                                            m.username
                                                            ++ encode_ice m)))))))))))))))))))

  unfoldable pub integrity_of : Bytes → Bytes → Bytes
  integrity_of key buffer = generate_hmac pf.sha1 key buffer

  unfoldable pub add_integrity : Bytes → Bytes → Bytes
  add_integrity [] buffer = buffer
  add_integrity (k ∷ ks) buffer =
      let sized = set_body_length buffer (length buffer - stun_header + 24) in
      sized ++ attribute AttributeType.message_integrity (integrity_of (k ∷ ks) sized)

  unfoldable pub encode : Bytes → Bool → StunMessage → Bytes
  encode key with_fingerprint m =
      let plain = header m ++ encode_attributes m in
      let sized = set_body_length plain (length plain - stun_header) in
      let signed = add_integrity key sized in
      if with_fingerprint then add_fingerprint signed else signed
