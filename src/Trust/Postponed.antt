-- ===== src/Trust/Postponed.antt =====
-- client/QXmppAtmTrustMemoryStorage.cpp: the trust decisions of messages whose sender's key is not
-- authenticated yet, kept beside the trust storage.
use qxmpp.Common.{
  Bool, true, false, not, ◌&&◌, ◌||◌, List, [], ◌∷◌, Text, Bytes, text_eq, if◌then◌else◌,
}
use qxmpp.Trust.Storage.{TrustMemoryStorage, KeyIds, contains, remove, values, erase_if}
use qxmpp.Trust.Storage

-- QXmppTrustMessageKeyOwner.
pub record KeyOwner : Type 0 where
  pub jid : Text
  pub trusted_keys : List Bytes
  pub distrusted_keys : List Bytes

pub record UnprocessedKey : Type 0 where
  pub id : Bytes
  pub owner_jid : Text
  pub sender_key_id : Bytes
  pub trust : Bool

abbrev pub UnprocessedKeys : Type 0
UnprocessedKeys = List (Text × UnprocessedKey)

pub record AtmTrustMemoryStorage : Type 0 where
  pub base : TrustMemoryStorage
  pub unprocessed : UnprocessedKeys

-- `itr.key() == encryption`, `key.id == keyId && key.ownerJid == … && key.senderKeyId == …`.
unfoldable pub is_entry : Text → Bytes → Text → Bytes → Text × UnprocessedKey → Bool
is_entry encryption sender jid key_id (e, k) =
    text_eq e encryption
    && (text_eq k.id key_id && (text_eq k.owner_jid jid && text_eq k.sender_key_id sender))

unfoldable pub has_entry : Text → Bytes → Text → Bytes → UnprocessedKeys → Bool
has_entry encryption sender jid key_id [] = false
has_entry encryption sender jid key_id (x ∷ m) =
    is_entry encryption sender jid key_id x || has_entry encryption sender jid key_id m

-- The first entry that fits gets the trust of the new message.
unfoldable pub set_trust : Text → Bytes → Text → Bytes → Bool → UnprocessedKeys → UnprocessedKeys
set_trust encryption sender jid key_id trust [] = []
set_trust encryption sender jid key_id trust (x ∷ m) =
    if is_entry encryption sender jid key_id x
    then (x.0, record (x.1) { trust = trust }) ∷ m
    else x ∷ set_trust encryption sender jid key_id trust m

-- One key of the loop of the lambda `addKeys`.
unfoldable pub add_unprocessed :
    Text → Bytes → Text → Bool → Bytes → UnprocessedKeys → UnprocessedKeys
add_unprocessed encryption sender jid trust key_id m =
    if has_entry encryption sender jid key_id m
    then set_trust encryption sender jid key_id trust m
    else (
      encryption,
      record { id = key_id; owner_jid = jid; sender_key_id = sender; trust = trust },
    )
      ∷ m

unfoldable pub add_each_unprocessed :
    Text → Bytes → Text → Bool → List Bytes → UnprocessedKeys → UnprocessedKeys
add_each_unprocessed encryption sender jid trust [] m = m
add_each_unprocessed encryption sender jid trust (key_id ∷ ids) m =
    add_each_unprocessed encryption sender jid trust ids
      (add_unprocessed encryption sender jid trust key_id m)

unfoldable pub add_owners : Text → Bytes → List KeyOwner → UnprocessedKeys → UnprocessedKeys
add_owners encryption sender [] m = m
add_owners encryption sender (o ∷ os) m = add_owners encryption sender os (
    add_each_unprocessed encryption sender o.jid false o.distrusted_keys
      (add_each_unprocessed encryption sender o.jid true o.trusted_keys m))

unfoldable pub add_keys_for_postponed :
    Text → Bytes → List KeyOwner → AtmTrustMemoryStorage → AtmTrustMemoryStorage
add_keys_for_postponed encryption sender owners s = record s {
  unprocessed = add_owners encryption sender owners s.unprocessed;
}

unfoldable pub is_decided : List Bytes → List Bytes → UnprocessedKey → Bool
is_decided authenticating distrusting k =
    k.trust && contains authenticating k.id || not k.trust && contains distrusting k.id

-- removeKeysForPostponedTrustDecisions(encryption, keyIdsForAuthentication, keyIdsForDistrusting).
unfoldable pub remove_decided :
    Text → List Bytes → List Bytes → AtmTrustMemoryStorage → AtmTrustMemoryStorage
remove_decided encryption authenticating distrusting s = record s {
  unprocessed = erase_if encryption (is_decided authenticating distrusting) s.unprocessed;
}

-- removeKeysForPostponedTrustDecisions(encryption, senderKeyIds).
unfoldable pub remove_of_senders : Text → List Bytes → AtmTrustMemoryStorage → AtmTrustMemoryStorage
remove_of_senders encryption senders s = record s {
  unprocessed = erase_if encryption (λ k. contains senders k.sender_key_id) s.unprocessed;
}

unfoldable pub remove_all_unprocessed : Text → AtmTrustMemoryStorage → AtmTrustMemoryStorage
remove_all_unprocessed encryption s = record s { unprocessed = remove encryption s.unprocessed }

abbrev pub has_none : List Bytes → Bool
has_none [] = true
has_none (_ ∷ _) = false

unfoldable pub is_asked : List Bytes → UnprocessedKey → Bool
is_asked senders k = contains senders k.sender_key_id || has_none senders

-- The multi-hash under one of the two values of `trust` in the result of
-- keysForPostponedTrustDecisions: the loop inserts each entry before the older ones.
unfoldable pub collect_asked : List Bytes → Bool → List UnprocessedKey → KeyIds → KeyIds
collect_asked senders trust [] out = out
collect_asked senders trust (k ∷ ks) out = collect_asked senders trust ks (
    if is_asked senders k && (if trust then k.trust else not k.trust)
    then (k.owner_jid, k.id) ∷ out
    else out)

unfoldable pub keys_for_postponed : Text → List Bytes → Bool → AtmTrustMemoryStorage → KeyIds
keys_for_postponed encryption senders trust s =
    collect_asked senders trust (values encryption s.unprocessed) []

unfoldable pub reset_all : Text → AtmTrustMemoryStorage → AtmTrustMemoryStorage
reset_all encryption s = record {
  base = Storage.reset_all encryption s.base;
  unprocessed = remove encryption s.unprocessed;
}
