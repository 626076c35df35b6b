-- ===== src/Sasl/Mechanism.antt =====
-- SASL mechanisms, SaslMechanism of base/QXmppSasl_p.h and base/QXmppSasl.cpp: their names, and the
-- order of the variant, which is the preference. The library is taken as built with Qt 6.
use qxmpp.Common.{
  ℕ, zero, suc, ◌+◌, Bool, true, false, ◌&&◌, List, [], ◌∷◌, ◌++◌, Option, none, some, Text, codes,
  text_eq, length, take, drop, ltb, ◌==◌, if◌then◌else◌,
}
pub mod Names
pub mod Order

pub data IanaHashAlgorithm : Type 0 where
  sha256 sha384 sha512 sha3_224 sha3_256 sha3_384 sha3_512 blake2s_256 blake2b_256 blake2b_512 :
      IanaHashAlgorithm

pub data Algorithm : Type 0 where
  sha1 sha256 sha512 sha3_512 : Algorithm

pub data ChannelBindingType : Type 0 where
  tls_server_endpoint tls_unique tls_exporter unbound : ChannelBindingType

pub record SaslHtMechanism : Type 0 where
  pub hash_algorithm : IanaHashAlgorithm
  pub channel_binding_type : ChannelBindingType

pub data SaslMechanism : Type 0 where
  x_google x_windows_live x_facebook anonymous plain digest_md5 : SaslMechanism
  scram : Algorithm → SaslMechanism
  ht : SaslHtMechanism → SaslMechanism

unfoldable pub hash_name : IanaHashAlgorithm → Text
hash_name IanaHashAlgorithm.sha256 = codes "SHA-256"
hash_name sha384 = codes "SHA-384"
hash_name IanaHashAlgorithm.sha512 = codes "SHA-512"
hash_name sha3_224 = codes "SHA3-224"
hash_name sha3_256 = codes "SHA3-256"
hash_name sha3_384 = codes "SHA3-384"
hash_name IanaHashAlgorithm.sha3_512 = codes "SHA3-512"
hash_name blake2s_256 = codes "BLAKE2S-256"
hash_name blake2b_256 = codes "BLAKE2B-256"
hash_name blake2b_512 = codes "BLAKE2B-512"

unfoldable pub scram_name : Algorithm → Text
scram_name sha1 = codes "SCRAM-SHA-1"
scram_name Algorithm.sha256 = codes "SCRAM-SHA-256"
scram_name Algorithm.sha512 = codes "SCRAM-SHA-512"
scram_name Algorithm.sha3_512 = codes "SCRAM-SHA3-512"

unfoldable pub binding_name : ChannelBindingType → Text
binding_name tls_server_endpoint = codes "ENDP"
binding_name tls_unique = codes "UNIQ"
binding_name tls_exporter = codes "EXPR"
binding_name unbound = codes "NONE"

-- Enums::fromString: the value whose name is the text.
unfoldable pub find_name {ℓ} : {A : Type ℓ} → (A → Text) → List A → Text → Option A
find_name name [] s = none
find_name name (a ∷ rest) s = if text_eq (name a) s then some a else find_name name rest s

abbrev pub hash_algorithms : List IanaHashAlgorithm
hash_algorithms =
    IanaHashAlgorithm.sha256 ∷ sha384 ∷ IanaHashAlgorithm.sha512 ∷ sha3_224 ∷ sha3_256 ∷ sha3_384
    ∷ IanaHashAlgorithm.sha3_512 ∷ blake2s_256 ∷ blake2b_256 ∷ blake2b_512 ∷ []

abbrev pub algorithms : List Algorithm
algorithms = sha1 ∷ Algorithm.sha256 ∷ Algorithm.sha512 ∷ Algorithm.sha3_512 ∷ []

abbrev pub bindings : List ChannelBindingType
bindings = tls_server_endpoint ∷ tls_unique ∷ tls_exporter ∷ unbound ∷ []

unfoldable pub starts_with : Text → Text → Bool
starts_with [] s = true
starts_with (a ∷ prefix) [] = false
starts_with (a ∷ prefix) (b ∷ s) = a == b && starts_with prefix s

-- SaslScramMechanism::fromString.
unfoldable pub scram_from_string : Text → Option SaslMechanism
unfolding find_name
scram_from_string s = elim (find_name scram_name algorithms s) [
  | none ↦ none
  | some a ↦ some (scram a)
]

-- The loop over the hash algorithms: one that the text starts with is taken off it, and the loop goes on.
unfoldable pub read_hash :
    List IanaHashAlgorithm → Option IanaHashAlgorithm → Text → Option IanaHashAlgorithm × Text
read_hash [] found s = (found, s)
read_hash (a ∷ more) found s =
    let found' = if starts_with (hash_name a) s then some a else found in
    let s' = if starts_with (hash_name a) s then drop (length (hash_name a)) s else s in
    read_hash more found' s'

-- What stands behind the hash algorithm: a dash and the type of channel binding.
unfoldable pub read_binding : IanaHashAlgorithm → Text → Option SaslMechanism
unfolding find_name
read_binding a [] = none
read_binding a (c ∷ s) =
    if c == b'-'
    then elim (find_name binding_name bindings s) [
      | none ↦ none
      | some b ↦ some (ht (record { hash_algorithm = a; channel_binding_type = b }))
    ]
    else none

unfoldable pub read_found : Option IanaHashAlgorithm × Text → Option SaslMechanism
unfolding read_binding
read_found (none, s) = none
read_found (some a, s) = read_binding a s

-- SaslHtMechanism::fromString.
unfoldable pub ht_from_string : Text → Option SaslMechanism
unfolding read_hash read_found
ht_from_string s =
    if starts_with (codes "HT-") s
    then read_found (read_hash hash_algorithms none (drop 3 s))
    else none

unfoldable pub from_string : Text → Option SaslMechanism
unfolding scram_from_string ht_from_string
from_string s =
    if starts_with (codes "SCRAM-") s
    then scram_from_string s
    else if starts_with (codes "HT-") s
    then ht_from_string s
    else if text_eq s (codes "DIGEST-MD5")
    then some digest_md5
    else if text_eq s (codes "PLAIN")
    then some plain
    else if text_eq s (codes "ANONYMOUS")
    then some anonymous
    else if text_eq s (codes "X-FACEBOOK-PLATFORM")
    then some x_facebook
    else if text_eq s (codes "X-MESSENGER-OAUTH2")
    then some x_windows_live
    else if text_eq s (codes "X-OAUTH2")
    then some x_google
    else none

unfoldable pub to_string : SaslMechanism → Text
unfolding hash_name scram_name binding_name
to_string (scram a) = scram_name a
to_string (ht m) =
    codes "HT-" ++ (hash_name m.hash_algorithm ++ (b'-' ∷ binding_name m.channel_binding_type))
to_string digest_md5 = codes "DIGEST-MD5"
to_string plain = codes "PLAIN"
to_string anonymous = codes "ANONYMOUS"
to_string x_facebook = codes "X-FACEBOOK-PLATFORM"
to_string x_windows_live = codes "X-MESSENGER-OAUTH2"
to_string x_google = codes "X-OAUTH2"

-- The numbers of the enumerations, and of the alternatives of the variant.
unfoldable pub hash_value : IanaHashAlgorithm → ℕ
hash_value IanaHashAlgorithm.sha256 = 0
hash_value sha384 = 1
hash_value IanaHashAlgorithm.sha512 = 2
hash_value sha3_224 = 3
hash_value sha3_256 = 4
hash_value sha3_384 = 5
hash_value IanaHashAlgorithm.sha3_512 = 6
hash_value blake2s_256 = 7
hash_value blake2b_256 = 8
hash_value blake2b_512 = 9

unfoldable pub scram_value : Algorithm → ℕ
scram_value sha1 = 0
scram_value Algorithm.sha256 = 1
scram_value Algorithm.sha512 = 2
scram_value Algorithm.sha3_512 = 3

unfoldable pub binding_value : ChannelBindingType → ℕ
binding_value tls_server_endpoint = 0
binding_value tls_unique = 1
binding_value tls_exporter = 2
binding_value unbound = 3

unfoldable pub index : SaslMechanism → ℕ
index x_google = 0
index x_windows_live = 1
index x_facebook = 2
index anonymous = 3
index plain = 4
index digest_md5 = 5
index (scram _) = 6
index (ht _) = 7

-- `<=>` of the structs: member by member.
unfoldable pub ht_less : SaslHtMechanism → SaslHtMechanism → Bool
unfolding hash_value binding_value
ht_less a b =
    if hash_value a.hash_algorithm == hash_value b.hash_algorithm
    then ltb (binding_value a.channel_binding_type) (binding_value b.channel_binding_type)
    else ltb (hash_value a.hash_algorithm) (hash_value b.hash_algorithm)

unfoldable pub less_within : SaslMechanism → SaslMechanism → Bool
unfolding scram_value ht_less
less_within (scram a) (scram b) = ltb (scram_value a) (scram_value b)
less_within (ht a) (ht b) = ht_less a b
less_within _ _ = false

-- `<` of std::variant: the alternative first.
unfoldable pub less : SaslMechanism → SaslMechanism → Bool
unfolding index less_within
less a b = if index a == index b then less_within a b else ltb (index a) (index b)
