-- ===== src/Trust/Storage/Tests.antt =====
-- The theorems about the trust storage at concrete inputs.
use qxmpp.Common.{◌≡◌, ◌&&◌, not, [], ◌∷◌, some, Text, codes, text_eq, if◌then◌else◌}
use qxmpp.Trust.Levels.{authenticated, automatically_trusted, automatically_distrusted}
use qxmpp.Trust.Storage.{
  KeyIds, TrustMemoryStorage, find_key, set_trust_level, contains, set_trust_level_of_owners,
}
use qxmpp.Trust.Storage.Lookup.{
  contains_key, relevel, find_key-set_trust_level, find_key-set_trust_level_of_owners,
}
use qxmpp.Trust.Storage.Modified.{is_at, modified-set_trust_level}

abbrev omemo : Text
omemo = codes "omemo"

abbrev bob : Text
bob = codes "bob@b.org"

abbrev stored : TrustMemoryStorage
stored = record {
  security_policies = [];
  own_keys = [];
  keys = (omemo, record { id = 1 ∷ []; owner_jid = bob; trust_level = automatically_trusted }) ∷ [];
}

abbrev ids : KeyIds
ids = (bob, 1 ∷ []) ∷ (bob, 2 ∷ []) ∷ []

find_key-set_trust_level_example :
    find_key omemo bob (2 ∷ []) (set_trust_level omemo ids authenticated stored).0.keys ≡ (
      if text_eq omemo omemo && contains_key ids bob (2 ∷ [])
      then some authenticated
      else find_key omemo bob (2 ∷ []) stored.keys)
find_key-set_trust_level_example =
    find_key-set_trust_level omemo ids authenticated stored omemo bob (2 ∷ [])

find_key-set_trust_level_of_owners_example :
    find_key omemo bob
      (1 ∷ [])
      (set_trust_level_of_owners omemo
        (bob ∷ [])
        automatically_trusted
        automatically_distrusted
        stored).0.keys
    ≡ relevel
        (text_eq omemo omemo && contains (bob ∷ []) bob)
        automatically_trusted
        automatically_distrusted
        (find_key omemo bob (1 ∷ []) stored.keys)
find_key-set_trust_level_of_owners_example =
    find_key-set_trust_level_of_owners omemo (bob ∷ []) automatically_trusted
      automatically_distrusted stored omemo bob (1 ∷ [])

modified-set_trust_level_example :
    contains_key (set_trust_level omemo ids authenticated stored).1 bob (1 ∷ []) ≡ (
      contains_key ids bob (1 ∷ [])
      && not (is_at authenticated (find_key omemo bob (1 ∷ []) stored.keys)))
modified-set_trust_level_example =
    modified-set_trust_level omemo ids authenticated stored bob (1 ∷ [])
