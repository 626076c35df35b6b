-- ===== src/Sasl/Mechanism/Names.antt =====
-- Names of mechanisms that are written and read.
use qxmpp.Common.{◌≡◌, refl, ap, ◌∙◌, some, none, ◌++◌, ◌∷◌, Text, text_eq}
use qxmpp.Sasl.Mechanism.{
  SaslMechanism, SaslHtMechanism, IanaHashAlgorithm, ChannelBindingType, scram, ht, from_string,
  to_string, x_google, x_windows_live, x_facebook, anonymous, plain, digest_md5, Algorithm, sha1,
  starts_with, hash_algorithms, read_hash, hash_name, binding_name, read_binding, read_found,
  unbound, tls_unique, tls_exporter, tls_server_endpoint, sha384, sha3_224, sha3_256, sha3_384,
  blake2s_256, blake2b_256, blake2b_512, ht_from_string,
}

-- The loop takes the name of its algorithm, and no other from behind it.
read_hash-hash_name :
    (a : IanaHashAlgorithm) (s : Text)
    → read_hash hash_algorithms none (hash_name a ++ (b'-' ∷ s)) ≡ (some a, b'-' ∷ s)
unfolding read_hash hash_name starts_with
read_hash-hash_name IanaHashAlgorithm.sha256 s = refl
read_hash-hash_name sha384 s = refl
read_hash-hash_name IanaHashAlgorithm.sha512 s = refl
read_hash-hash_name sha3_224 s = refl
read_hash-hash_name sha3_256 s = refl
read_hash-hash_name sha3_384 s = refl
read_hash-hash_name IanaHashAlgorithm.sha3_512 s = refl
read_hash-hash_name blake2s_256 s = refl
read_hash-hash_name blake2b_256 s = refl
read_hash-hash_name blake2b_512 s = refl

read_binding-binding_name :
    (a : IanaHashAlgorithm) (b : ChannelBindingType)
    → read_binding a (b'-' ∷ binding_name b)
      ≡ some (ht (record { hash_algorithm = a; channel_binding_type = b }))
unfolding read_binding binding_name text_eq
read_binding-binding_name a tls_server_endpoint = refl
read_binding-binding_name a tls_unique = refl
read_binding-binding_name a tls_exporter = refl
read_binding-binding_name a unbound = refl

-- The first test of from_string is on the text's head, so an HT name goes to its reader.
from_string_ht :
    (m : SaslHtMechanism) → from_string (to_string (ht m)) ≡ ht_from_string (to_string (ht m))
unfolding from_string to_string starts_with
from_string_ht m = refl

ht_from_string-to_string : (m : SaslHtMechanism) → ht_from_string (to_string (ht m)) ≡ some (ht m)
unfolding ht_from_string to_string starts_with read_found
ht_from_string-to_string m =
    ap read_found (read_hash-hash_name m.hash_algorithm (binding_name m.channel_binding_type))
    ∙ read_binding-binding_name m.hash_algorithm m.channel_binding_type

from_string-scram : (a : Algorithm) → from_string (to_string (scram a)) ≡ some (scram a)
unfolding from_string to_string starts_with text_eq
from_string-scram sha1 = refl
from_string-scram Algorithm.sha256 = refl
from_string-scram Algorithm.sha512 = refl
from_string-scram Algorithm.sha3_512 = refl

-- The name of a mechanism reads as the mechanism.
pub from_string-to_string : (m : SaslMechanism) → from_string (to_string m) ≡ some m
unfolding from_string to_string starts_with text_eq
from_string-to_string (scram a) = from_string-scram a
from_string-to_string (ht m) = from_string_ht m ∙ ht_from_string-to_string m
from_string-to_string x_google = refl
from_string-to_string x_windows_live = refl
from_string-to_string x_facebook = refl
from_string-to_string anonymous = refl
from_string-to_string plain = refl
from_string-to_string digest_md5 = refl
