-- ===== src/Trust/Storage.antt =====
-- client/QXmppTrustMemoryStorage.cpp. A QMultiHash is the list of its entries, the newest first,
-- which is the order of the values under one key; QMap is the list of its pairs. The tasks that the
-- methods return are finished, so that a method is a function of the state.
pub mod Lookup
pub mod Modified
mod Tests
use qxmpp.Common.{
  Bool, true, false, not, ◌&&◌, ◌||◌, List, [], ◌∷◌, Option, none, some, Text, Bytes, text_eq,
  if◌then◌else◌,
}
use qxmpp.Trust.Levels.{
  TrustLevel, undecided, level_eq, TrustSecurityPolicy, no_security_policy, TrustLevels, any_level,
}

pub record Key : Type 0 where
  pub id : Bytes
  pub owner_jid : Text
  pub trust_level : TrustLevel

-- Entries of `keys`, each under the encryption it belongs to.
abbrev pub Keys : Type 0
Keys = List (Text × Key)

-- A multi-hash from the JIDs of key owners to the IDs of their keys.
abbrev pub KeyIds : Type 0
KeyIds = List (Text × Bytes)

pub record TrustMemoryStorage : Type 0 where
  pub security_policies : List (Text × TrustSecurityPolicy)
  pub own_keys : List (Text × Bytes)
  pub keys : Keys

-- QMap::remove and QMultiHash::remove: all entries under a key.
unfoldable pub remove {ℓ} : {V : Type ℓ} → Text → List (Text × V) → List (Text × V)
remove k [] = []
remove k ((j, v) ∷ m) = if text_eq j k then remove k m else (j, v) ∷ remove k m

-- QMap::insert.
abbrev pub insert {ℓ} : {V : Type ℓ} → Text → V → List (Text × V) → List (Text × V)
insert k v m = (k, v) ∷ remove k m

-- QMap::value, with the value that a missing key has.
unfoldable pub value {ℓ} : {V : Type ℓ} → Text → V → List (Text × V) → V
value k d [] = d
value k d ((j, v) ∷ m) = if text_eq j k then v else value k d m

unfoldable pub contains : List Text → Text → Bool
contains [] a = false
contains (x ∷ xs) a = text_eq x a || contains xs a

unfoldable pub set_security_policy :
    Text → TrustSecurityPolicy → TrustMemoryStorage → TrustMemoryStorage
set_security_policy encryption policy s = record s {
  security_policies = insert encryption policy s.security_policies;
}

unfoldable pub reset_security_policy : Text → TrustMemoryStorage → TrustMemoryStorage
reset_security_policy encryption s = record s {
  security_policies = remove encryption s.security_policies;
}

unfoldable pub security_policy : Text → TrustMemoryStorage → TrustSecurityPolicy
security_policy encryption s = value encryption no_security_policy s.security_policies

unfoldable pub set_own_key : Text → Bytes → TrustMemoryStorage → TrustMemoryStorage
set_own_key encryption key_id s = record s { own_keys = insert encryption key_id s.own_keys }

unfoldable pub reset_own_key : Text → TrustMemoryStorage → TrustMemoryStorage
reset_own_key encryption s = record s { own_keys = remove encryption s.own_keys }

-- `ownKeys[encryption]` also stores the empty key where there was none.
unfoldable pub own_key : Text → TrustMemoryStorage → TrustMemoryStorage × Bytes
own_key encryption s =
    let key = value encryption [] s.own_keys in
    (record s { own_keys = insert encryption key s.own_keys }, key)

-- The loop of addKeys.
unfoldable pub insert_keys : Text → Text → List Bytes → TrustLevel → Keys → Keys
insert_keys encryption jid [] level ks = ks
insert_keys encryption jid (key_id ∷ ids) level ks =
    insert_keys encryption jid ids level
      ((encryption, record { id = key_id; owner_jid = jid; trust_level = level }) ∷ ks)

unfoldable pub add_keys :
    Text → Text → List Bytes → TrustLevel → TrustMemoryStorage → TrustMemoryStorage
add_keys encryption jid key_ids level s = record s {
  keys = insert_keys encryption jid key_ids level s.keys;
}

-- The loop that erases the entries of an encryption that fit a test.
unfoldable pub erase_if {ℓ} : {V : Type ℓ} → Text → (V → Bool) → List (Text × V) → List (Text × V)
erase_if encryption test [] = []
erase_if encryption test ((e, v) ∷ m) =
    if text_eq e encryption && test v
    then erase_if encryption test m
    else (e, v) ∷ erase_if encryption test m

unfoldable pub remove_keys : Text → List Bytes → TrustMemoryStorage → TrustMemoryStorage
remove_keys encryption key_ids s = record s {
  keys = erase_if encryption (λ k. contains key_ids k.id) s.keys;
}

unfoldable pub remove_keys_of_owner : Text → Text → TrustMemoryStorage → TrustMemoryStorage
remove_keys_of_owner encryption jid s = record s {
  keys = erase_if encryption (λ k. text_eq k.owner_jid jid) s.keys;
}

unfoldable pub remove_all_keys : Text → TrustMemoryStorage → TrustMemoryStorage
remove_all_keys encryption s = record s { keys = remove encryption s.keys }

-- QMultiHash::values: the values under one key, the newest first.
unfoldable pub values {ℓ} : {V : Type ℓ} → Text → List (Text × V) → List V
values k [] = []
values k ((j, v) ∷ m) = if text_eq j k then v ∷ values k m else values k m

-- The loop of keys(encryption, trustLevels). The result, a hash of multi-hashes, is a list of
-- its entries, each behind its level, the newest first.
unfoldable pub collect_by_level :
    TrustLevels → List Key → List (TrustLevel × Text × Bytes) → List (TrustLevel × Text × Bytes)
collect_by_level levels [] out = out
collect_by_level levels (k ∷ ks) out = collect_by_level levels ks (
    if levels k.trust_level || not (any_level levels)
    then (k.trust_level, k.owner_jid, k.id) ∷ out
    else out)

unfoldable pub keys_by_level :
    Text → TrustLevels → TrustMemoryStorage → List (TrustLevel × Text × Bytes)
keys_by_level encryption levels s = collect_by_level levels (values encryption s.keys) []

-- The multi-hash under one level of such a result.
unfoldable pub at_level : TrustLevel → List (TrustLevel × Text × Bytes) → KeyIds
at_level level [] = []
at_level level ((l, jid, key_id) ∷ m) =
    if level_eq l level then (jid, key_id) ∷ at_level level m else at_level level m

-- The loop of keys(encryption, keyOwnerJids, trustLevels): a later entry for a key stands before
-- an older one and hides it.
unfoldable pub collect_by_owner :
    List Text
    → TrustLevels
    → List Key
    → List (Text × Bytes × TrustLevel)
    → List (Text × Bytes × TrustLevel)
collect_by_owner jids levels [] out = out
collect_by_owner jids levels (k ∷ ks) out = collect_by_owner jids levels ks (
    if contains jids k.owner_jid && (levels k.trust_level || not (any_level levels))
    then (k.owner_jid, k.id, k.trust_level) ∷ out
    else out)

unfoldable pub keys_by_owner :
    Text → List Text → TrustLevels → TrustMemoryStorage → List (Text × Bytes × TrustLevel)
keys_by_owner encryption jids levels s = collect_by_owner jids levels (values encryption s.keys) []

unfoldable pub any_key : Text → TrustLevels → List Key → Bool
any_key jid levels [] = false
any_key jid levels (k ∷ ks) =
    text_eq k.owner_jid jid && levels k.trust_level || any_key jid levels ks

unfoldable pub has_key : Text → Text → TrustLevels → TrustMemoryStorage → Bool
has_key encryption jid levels s = any_key jid levels (values encryption s.keys)

-- `itr.key() == encryption`, `key.id == keyId && key.ownerJid == keyOwnerJid`.
unfoldable pub fits : Text → Text → Bytes → Text × Key → Bool
fits encryption jid key_id (e, k) =
    text_eq e encryption && (text_eq k.id key_id && text_eq k.owner_jid jid)

-- The level of the first entry that fits.
unfoldable pub find_key : Text → Text → Bytes → Keys → Option TrustLevel
find_key encryption jid key_id [] = none
find_key encryption jid key_id (x ∷ ks) =
    if fits encryption jid key_id x
    then some (x.1).trust_level
    else find_key encryption jid key_id ks

-- The first entry that fits gets a new level.
unfoldable pub set_key : Text → Text → Bytes → TrustLevel → Keys → Keys
set_key encryption jid key_id level [] = []
set_key encryption jid key_id level (x ∷ ks) =
    if fits encryption jid key_id x
    then (x.0, record (x.1) { trust_level = level }) ∷ ks
    else x ∷ set_key encryption jid key_id level ks

-- One round of the loop of setTrustLevel(encryption, keyIds, trustLevel), on the entries and the
-- modified keys.
unfoldable pub set_one : Text → TrustLevel → Text × Bytes → Keys × KeyIds → Keys × KeyIds
set_one encryption level (jid, key_id) (ks, modified) = elim (find_key encryption jid key_id ks) [
  | none ↦ (
    (encryption, record { id = key_id; owner_jid = jid; trust_level = level }) ∷ ks,
    (jid, key_id) ∷ modified,
  )
  | some old ↦
      if level_eq old level
      then (ks, modified)
      else (set_key encryption jid key_id level ks, (jid, key_id) ∷ modified)
]

unfoldable pub set_each : Text → TrustLevel → KeyIds → Keys × KeyIds → Keys × KeyIds
set_each encryption level [] r = r
set_each encryption level (x ∷ xs) r = set_each encryption level xs (set_one encryption level x r)

-- The new state, and the modified keys (all are under `encryption`).
unfoldable pub set_trust_level :
    Text → KeyIds → TrustLevel → TrustMemoryStorage → TrustMemoryStorage × KeyIds
set_trust_level encryption key_ids level s =
    let r = set_each encryption level key_ids (s.keys, []) in (record s { keys = r.0 }, r.1)

-- The test of the loop of setTrustLevel(encryption, keyOwnerJids, oldTrustLevel, newTrustLevel).
unfoldable pub is_to_change : Text → List Text → TrustLevel → Text × Key → Bool
is_to_change encryption jids old (e, k) =
    text_eq e encryption && (contains jids k.owner_jid && level_eq k.trust_level old)

unfoldable pub change_levels : Text → List Text → TrustLevel → TrustLevel → Keys → Keys
change_levels encryption jids old new [] = []
change_levels encryption jids old new (x ∷ ks) =
    (if is_to_change encryption jids old x then (x.0, record (x.1) { trust_level = new }) else x)
    ∷ change_levels encryption jids old new ks

unfoldable pub changed_keys : Text → List Text → TrustLevel → Keys → KeyIds → KeyIds
changed_keys encryption jids old [] out = out
changed_keys encryption jids old (x ∷ ks) out =
    changed_keys encryption jids old ks
      (if is_to_change encryption jids old x then ((x.1).owner_jid, (x.1).id) ∷ out else out)

unfoldable pub set_trust_level_of_owners :
    Text → List Text → TrustLevel → TrustLevel → TrustMemoryStorage → TrustMemoryStorage × KeyIds
set_trust_level_of_owners encryption jids old new s = (
  record s { keys = change_levels encryption jids old new s.keys },
  changed_keys encryption jids old s.keys [],
)

unfoldable pub trust_level : Text → Text → Bytes → TrustMemoryStorage → TrustLevel
trust_level encryption jid key_id s = elim (find_key encryption jid key_id s.keys) [
  | none ↦ undecided
  | some level ↦ level
]

unfoldable pub reset_all : Text → TrustMemoryStorage → TrustMemoryStorage
reset_all encryption s = record {
  security_policies = remove encryption s.security_policies;
  own_keys = remove encryption s.own_keys;
  keys = remove encryption s.keys;
}
