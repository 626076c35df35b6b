-- ===== src/Stun/Tests.antt =====
-- The theorems about STUN messages at concrete inputs.
use qxmpp.Common.{ℕ, ◌<◌, ◌≡◌, ◌≢◌, refl, ap, inr, true, [], ◌∷◌, some, Bytes, length, arith}
use qxmpp.Utils.Hmac.{replicate, padded_key, masked, generate_hmac, length-replicate}
use qxmpp.Stun.Wire.{zeros, padding}
use qxmpp.Stun.Message.{stun_magic, ipv4, StunMessage, new_message}
use qxmpp.Stun.Encode.{
  Platform, attribute, padded_attribute, xor_pad, encode_address, add_address, encode_string,
  encode_error, encode_ice, encode_attributes, integrity_of, encode,
}
use qxmpp.Stun.Decode.{accepted, rejected, exhausted, decode}
use qxmpp.Stun.RoundTrip.Body.{IsMessage}
use qxmpp.Stun.RoundTrip.Whole.{signed_part, decode-encode, decode-wrong_key}
use qxmpp.Stun.Total.{decode-ends}

-- A hash of one byte.
unfoldable toy_hash : Bytes → Bytes
toy_hash [] = zeros 20
toy_hash (c ∷ s) = c ∷ zeros 19

length-toy_hash : (s : Bytes) → length (toy_hash s) ≡ 20
unfolding toy_hash
length-toy_hash [] = length-replicate 20 0
length-toy_hash (c ∷ s) = omega (arith, length-replicate 19 0)

no_fill : zeros 0 ≡ []
unfolding replicate
no_fill = refl

abbrev toy : Platform
toy = record {
  sha1 = toy_hash;
  to_utf8 = λ s. s;
  from_utf8 = λ s. s;
  uninitialised = zeros;
  length-sha1 = length-toy_hash;
  uninitialised-zero = no_fill;
}

-- A binding request with a mapped address, plain and masked, a priority and a user name.
abbrev binding : StunMessage
binding = record new_message {
  message_type = 1;
  cookie = stun_magic;
  id = zeros 12;
  mapped = record { host = ipv4 3232235777; port = 4000 };
  xor_mapped = record { host = ipv4 3232235777; port = 4000 };
  priority = some 1845494271;
  username = some (97 ∷ 58 ∷ 98 ∷ []);
}

binding_room : length (encode_attributes toy binding) < 65500
unfolding encode_attributes attribute padded_attribute encode_address add_address encode_string
    encode_error encode_ice padding xor_pad replicate new_message
binding_room = omega arith

binding-IsMessage : IsMessage toy binding
unfolding new_message
binding-IsMessage = record {
  id_size = length-replicate 12 0;
  type_fits = omega arith;
  cookie_fits = omega arith;
  mapped_host = (omega arith, omega arith, omega arith);
  change_request_fits = tt;
  source_host = refl;
  changed_host = refl;
  other_host = refl;
  xor_mapped_host = (omega arith, omega arith, omega arith);
  xor_peer_host = refl;
  xor_relayed_host = refl;
  priority_fits = omega arith;
  channel_number_fits = tt;
  data_bytes_fits = tt;
  lifetime_fits = tt;
  nonce_fits = tt;
  realm_fits = tt;
  requested_transport_fits = tt;
  reservation_token_fits = tt;
  software_fits = tt;
  username_fits = (refl, omega arith);
  code_fits = omega arith;
  phrase_text = (refl, omega arith);
  silent = λ e. refl;
  role = tt;
  room = binding_room;
}

decode-encode_example :
    decode toy (7 ∷ []) (encode toy (7 ∷ []) true binding) new_message ≡ accepted binding
decode-encode_example =
    decode-encode toy (7 ∷ []) (7 ∷ []) true binding binding-IsMessage (inr (inr refl))

first : Bytes → ℕ
first [] = 0
first (c ∷ s) = c

codes_differ :
    integrity_of toy (8 ∷ []) (signed_part toy binding)
    ≢ integrity_of toy (7 ∷ []) (signed_part toy binding)
unfolding integrity_of generate_hmac masked padded_key replicate toy_hash first
codes_differ e = absurd (omega (arith, ap first e))

given : (k : ℕ) → k ∷ [] ≢ []
given k e = absurd cc

decode-wrong_key_example :
    decode toy (8 ∷ []) (encode toy (7 ∷ []) true binding) new_message ≡ rejected
decode-wrong_key_example =
    decode-wrong_key toy (7 ∷ []) (8 ∷ []) true binding binding-IsMessage (given 7) (given 8)
      codes_differ

decode-ends_example : decode toy [] (1 ∷ 2 ∷ []) new_message ≢ exhausted
decode-ends_example = decode-ends toy [] (1 ∷ 2 ∷ []) new_message
