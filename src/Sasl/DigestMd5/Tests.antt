-- ===== src/Sasl/DigestMd5/Tests.antt =====
-- The dialog of DIGEST-MD5 at a concrete account, with a plain function for the hash.
use qxmpp.Common.{ℕ, ◌+◌, ◌%◌, ◌<◌, ◌≡◌, ◌≢◌, refl, [], ◌∷◌, map, Bytes, codes, arith}
use qxmpp.Sasl.Message.Values.{last_or}
use qxmpp.Sasl.DigestMd5.{
  Primitives, ClientDigestMd5, ServerDigestMd5, calculate_secret, client_digest, digest_uri,
}
use qxmpp.Sasl.DigestMd5.Steps.{IsCarried, ready}
use qxmpp.Sasl.DigestMd5.Verdict.{server_secret, expected_response}
use qxmpp.Sasl.DigestMd5.Dialog.{dialog, dialog-outcome, accepted, rejected}

abbrev digits_of : Bytes → Bytes
digits_of b = map (λ (x : ℕ). x % 10 + 48) b

digits_of_last : (b : Bytes) (c : ℕ) → c < 92 → last_or c (digits_of b) ≢ 92
digits_of_last [] c h = omega arith
digits_of_last (x ∷ b) c h = digits_of_last b (x % 10 + 48) (omega arith)

abbrev plain_hash : Primitives
plain_hash = record { md5 = λ b. b; to_hex = digits_of; to_utf8 = λ t. t; from_utf8 = λ b. b }

abbrev client : ClientDigestMd5
client = record {
  host = codes "here";
  service_type = codes "xmpp";
  username = codes "romeo";
  password = codes "pencil";
  cnonce = codes "c1";
  nc = codes "00000001";
  nonce = [];
  secret = [];
  step = 0;
}

abbrev server : ServerDigestMd5
server = record {
  username = [];
  password = codes "pencil";
  password_digest = [];
  realm = codes "here";
  nonce = codes "s1";
  cnonce = [];
  nc = [];
  secret = [];
  step = 0;
}

client-IsCarried : IsCarried plain_hash (codes "s1") (codes "here") client
unfolding digest_uri
client-IsCarried = record {
  username_fits = omega arith;
  realm_fits = omega arith;
  nonce_fits = omega arith;
  cnonce_fits = omega arith;
  nc_fits = omega arith;
  uri_fits = omega arith;
  hex_fits = λ b. digits_of_last b 34 (omega arith);
  username_read = refl;
}

dialog-outcome_example :
    (calculate_secret plain_hash client.username (codes "here") client.password
        ≡ server_secret plain_hash (codes "here") client server
      → dialog plain_hash client server ≡ accepted)
    × (client_digest plain_hash
            (codes "AUTHENTICATE")
            (ready plain_hash (codes "s1") (codes "here") client)
          ≢ expected_response plain_hash (codes "here") client server
        → dialog plain_hash client server ≡ rejected)
dialog-outcome_example = dialog-outcome plain_hash client server client-IsCarried refl
