-- ===== src/Stun/Decode.antt =====
-- QXmppStunMessage::decode and peekType. The texts of the errors are left out, and so is what a
-- message that is rejected leaves in the object.
use qxmpp.Common.{
  ℕ, zero, suc, ◌+◌, ◌-◌, ◌*◌, Bool, true, false, not, ◌&&◌, ◌||◌, [], Option, none, some, Bytes,
  is_empty, text_eq, ◌==◌, ltb, if◌then◌else◌, length, take, drop,
}
use qxmpp.Stun.Wire.{zeros, pad_length, read8, read16, read32, read_raw}
use qxmpp.Stun.Message.{
  stun_header, stun_id_size, stun_magic, HostAddress, ipv4, ipv6, Endpoint, StunMessage,
}
use qxmpp.Stun.AttributeType
use qxmpp.Stun.Encode.{
  Platform, stun_ipv4, stun_ipv6, mask_number, mask_bytes, port_mask, set_body_length, integrity_of,
  fingerprint_of,
}

-- A message, or the refusal of one; `exhausted` is no answer of the code: the loop ran out of fuel.
pub data Decoded : Type 0 where
  accepted : StunMessage → Decoded
  rejected exhausted : Decoded

-- What a round of the loop comes to: an answer, or the next round, with the message, whether
-- MESSAGE-INTEGRITY was read, the bytes left, and how many bytes the round counts.
pub data Step : Type 0 where
  stop : Decoded → Step
  next : StunMessage → Bool → Bytes → ℕ → Step

-- What reading the value of an attribute gives: the new message and the bytes left, or nothing.
abbrev pub Read : Type 0
Read = Option (StunMessage × Bytes)

-- A number stored by `f`.
abbrev pub store : (ℕ → StunMessage) → ℕ × Bytes → Read
store f r = some (f r.0, r.1)

abbrev pub store_bytes : (Bytes → StunMessage) → Bytes × Bytes → Read
store_bytes f r = some (f r.0, r.1)

-- A number, with `n` bytes behind it that are skipped.
abbrev pub store_skip : (ℕ → StunMessage) → ℕ → ℕ × Bytes → Read
store_skip f n r = some (f r.0, drop n r.1)

-- Only values of that length are taken.
abbrev pub sized : ℕ → ℕ → Read → Read
sized expected n r = if n == expected then r else none

abbrev pub store_endpoint : (Endpoint → StunMessage) → Option (Endpoint × Bytes) → Read
store_endpoint f none = none
store_endpoint f (some (e, s)) = some (f e, s)

abbrev pub store_host : {A : Type 0} → (A → HostAddress) → ℕ → A × Bytes → Option (Endpoint × Bytes)
store_host f port r = some (record { host = f r.0; port = port }, r.1)

module _ (pf : Platform) where
  unfoldable pub decode_host : ℕ → ℕ → ℕ → Bytes → Bytes → Option (Endpoint × Bytes)
  decode_host protocol n port xor_id s =
      if protocol == stun_ipv4
      then if n == 8
        then store_host (λ a. ipv4 (mask_number xor_id stun_magic a)) port (read32 s)
        else none
      else if protocol == stun_ipv6
      then if n == 20
        then store_host (λ a. ipv6 (mask_bytes xor_id a)) port (read_raw pf.uninitialised 16 s)
        else none
      else none

  unfoldable pub decode_address : ℕ → Bytes → Bytes → Option (Endpoint × Bytes)
  decode_address n xor_id s =
      let reserved = read8 s in
      let protocol = read8 reserved.1 in
      let raw_port = read16 protocol.1 in
      if ltb n 4
      then none
      else decode_host protocol.0 n (mask_number xor_id port_mask raw_port.0) xor_id raw_port.1

  unfoldable pub decode_error : ℕ → Bytes → StunMessage → Read
  decode_error n s m =
      let reserved = read16 s in
      let high = read8 reserved.1 in
      let low = read8 high.1 in
      let phrase = read_raw zeros (n - 4) low.1 in
      if ltb n 4
      then none
      else some (
        record m { error_code = high.0 * 100 + low.0; error_phrase = pf.from_utf8 phrase.0 },
        phrase.1,
      )

  -- The attributes other than MESSAGE-INTEGRITY and FINGERPRINT; an unknown one is skipped.
  unfoldable pub decode_attribute : ℕ → ℕ → Bytes → StunMessage → Read
  decode_attribute t n s m =
      if t == AttributeType.priority
      then sized 4 n (store (λ v. record m { priority = some v }) (read32 s))
      else if t == AttributeType.error_code
      then decode_error n s m
      else if t == AttributeType.use_candidate
      then sized 0 n (some (record m { use_candidate = true }, s))
      else if t == AttributeType.channel_number
      then sized 4 n (store_skip (λ v. record m { channel_number = some v }) 2 (read16 s))
      else if t == AttributeType.data_attr
      then store_bytes (λ v. record m { data_bytes = some v }) (read_raw pf.uninitialised n s)
      else if t == AttributeType.lifetime
      then sized 4 n (store (λ v. record m { lifetime = some v }) (read32 s))
      else if t == AttributeType.nonce
      then store_bytes (λ v. record m { nonce = some v }) (read_raw pf.uninitialised n s)
      else if t == AttributeType.realm
      then store_bytes (λ v. record m { realm = some (pf.from_utf8 v) }) (read_raw zeros n s)
      else if t == AttributeType.requested_transport
      then sized 4 n (store_skip (λ v. record m { requested_transport = some v }) 3 (read8 s))
      else if t == AttributeType.reservation_token
      then sized 8 n (
          store_bytes (λ v. record m { reservation_token = some v })
            (read_raw pf.uninitialised n s))
      else if t == AttributeType.software
      then store_bytes (λ v. record m { software = some (pf.from_utf8 v) }) (read_raw zeros n s)
      else if t == AttributeType.username
      then store_bytes (λ v. record m { username = some (pf.from_utf8 v) }) (read_raw zeros n s)
      else if t == AttributeType.mapped_address
      then store_endpoint (λ e. record m { mapped = e }) (decode_address n [] s)
      else if t == AttributeType.change_request
      then sized 4 n (store (λ v. record m { change_request = some v }) (read32 s))
      else if t == AttributeType.source_address
      then store_endpoint (λ e. record m { source = e }) (decode_address n [] s)
      else if t == AttributeType.changed_address
      then store_endpoint (λ e. record m { changed = e }) (decode_address n [] s)
      else if t == AttributeType.other_address
      then store_endpoint (λ e. record m { other = e }) (decode_address n [] s)
      else if t == AttributeType.xor_mapped_address
      then store_endpoint (λ e. record m { xor_mapped = e }) (decode_address n m.id s)
      else if t == AttributeType.xor_peer_address
      then store_endpoint (λ e. record m { xor_peer = e }) (decode_address n m.id s)
      else if t == AttributeType.xor_relayed_address
      then store_endpoint (λ e. record m { xor_relayed = e }) (decode_address n m.id s)
      else if t == AttributeType.ice_controlling
      then sized 8 n
          (store_bytes (λ v. record m { ice_controlling = v }) (read_raw pf.uninitialised n s))
      else if t == AttributeType.ice_controlled
      then sized 8 n
          (store_bytes (λ v. record m { ice_controlled = v }) (read_raw pf.uninitialised n s))
      else some (m, drop n s)

  -- The padding is skipped behind the value.
  unfoldable pub after_value : ℕ → Bool → Read → Step
  after_value n signed none = stop rejected
  after_value n signed (some (m, s)) = next m signed (drop (pad_length n) s) (4 + n + pad_length n)

  -- Without a key the value of MESSAGE-INTEGRITY is not looked at.
  unfoldable pub is_authentic : Bytes → Bytes → ℕ → Bytes → Bool
  is_authentic key buffer done value =
      is_empty key
      || text_eq value
          (integrity_of pf key (set_body_length (take (stun_header + done) buffer) (done + 24)))

  unfoldable pub check_integrity : Bytes → Bytes → ℕ → ℕ → Bytes → StunMessage → Step
  check_integrity key buffer done n s m =
      let value = read_raw zeros 20 s in
      if n == 20
      then if is_authentic key buffer done value.0
        then after_value n true (some (m, value.1))
        else stop rejected
      else stop rejected

  unfoldable pub check_fingerprint : Bytes → ℕ → ℕ → Bytes → StunMessage → Step
  check_fingerprint buffer done n s m =
      let value = read32 s in
      if n == 4
      then if value.0
          == fingerprint_of (set_body_length (take (stun_header + done) buffer) (done + 8))
        then stop (accepted m)
        else stop rejected
      else stop rejected

  unfoldable pub decode_value : Bytes → Bytes → ℕ → Bool → ℕ → ℕ → Bytes → StunMessage → Step
  decode_value key buffer done signed t n s m =
      if signed && not (t == AttributeType.fingerprint)
      then next m signed (drop (n + pad_length n) s) (4 + n + pad_length n)
      else if t == AttributeType.message_integrity
      then check_integrity key buffer done n s m
      else if t == AttributeType.fingerprint
      then check_fingerprint buffer done n s m
      else after_value n signed (decode_attribute t n s m)

  -- A round of the loop.
  unfoldable pub decode_step : Bytes → Bytes → ℕ → Bool → Bytes → StunMessage → Step
  decode_step key buffer done signed s m =
      let t = read16 s in let n = read16 t.1 in decode_value key buffer done signed t.0 n.0 n.1 m

  unfoldable pub follow : (ℕ → Bool → Bytes → StunMessage → Decoded) → ℕ → Step → Decoded
  follow k done (stop d) = d
  follow k done (next m signed s n) = k (done + n) signed s m

  -- `total` is the length that the header names.
  unfoldable pub decode_loop : ℕ → Bytes → Bytes → ℕ → ℕ → Bool → Bytes → StunMessage → Decoded
  decode_loop zero key buffer total done signed s m = exhausted
  decode_loop (suc f) key buffer total done signed s m =
      if ltb done total
      then follow (decode_loop f key buffer total) done (decode_step key buffer done signed s m)
      else accepted m

  -- The message is the object that decode is called on. A round counts four bytes at least, so that
  -- one round for each byte is enough.
  unfoldable pub decode : Bytes → Bytes → StunMessage → Decoded
  decode key buffer m =
      let t = read16 buffer in
      let n = read16 t.1 in
      let c = read32 n.1 in
      let i = read_raw zeros stun_id_size c.1 in
      if ltb (length buffer) stun_header
      then rejected
      else if n.0 == length buffer - stun_header
      then decode_loop (suc n.0) key buffer n.0 0 false i.1
          (record m { message_type = t.0; cookie = c.0; id = i.0 })
      else rejected

-- peekType: the type, the cookie and the ID; without them 0 is returned.
unfoldable pub peek_type : Bytes → Option (ℕ × ℕ × Bytes)
peek_type buffer =
    let t = read16 buffer in
    let n = read16 t.1 in
    let c = read32 n.1 in
    if ltb (length buffer) stun_header
    then none
    else if n.0 == length buffer - stun_header
    then some (t.0, c.0, (read_raw zeros stun_id_size c.1).0)
    else none
