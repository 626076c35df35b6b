-- ===== src/Trust/Atm/Manual.antt =====
-- Trust decisions made by hand, QXmppAtmManager::makeTrustDecisions(encryption, keyOwnerJid, …) and
-- sendTrustMessage of client/QXmppAtmManager.cpp. What the client does with a trust message is
-- not modelled: it is put into the log of those sent.
pub mod Sending
mod Tests
use qxmpp.Common.{
  ℕ, ◌+◌, ◌≡◌, Bool, true, false, not, ◌&&◌, ◌||◌, List, [], ◌∷◌, ◌++◌, Option, none, some, Text,
  Bytes, refl, codes, text_eq, ltb, ◌==◌, if◌then◌else◌, length, arith, Bool-cases, inl, inr,
}
use qxmpp.Trust.Levels.{TrustLevel, authenticated, manually_distrusted, level_eq, TrustLevels}
use qxmpp.Trust.Storage.{KeyIds, remove, values, keys_by_level, at_level}
use qxmpp.Trust.Postponed.{KeyOwner}
use qxmpp.Trust.Atm.{
  AtmManager, TrustMessage, Config, insert_ids, unique_keys, make_trust_decisions,
}

unfoldable pub send_trust_message : Text → List KeyOwner → Text → AtmManager → AtmManager
send_trust_message encryption owners recipient m = record m {
  sent =
      m.sent ++ record { encryption = encryption; key_owners = owners; recipient = recipient } ∷ [];
}

-- TrustLevel::Authenticated | TrustLevel::ManuallyDistrusted.
abbrev pub decided_levels : TrustLevels
decided_levels level = level_eq level authenticated || level_eq level manually_distrusted

-- QMultiHash::contains(key, value).
unfoldable pub contains_entry : KeyIds → Text → Bytes → Bool
contains_entry [] jid i = false
contains_entry ((j, k) ∷ ids) jid i = text_eq j jid && text_eq k i || contains_entry ids jid i

-- The loops that collect the keys whose level is going to change.
unfoldable pub modified_keys : KeyIds → Text → List Bytes → List Bytes
modified_keys stored jid [] = []
modified_keys stored jid (i ∷ ids) =
    let rest = modified_keys stored jid ids in
    if contains_entry stored jid i then rest else i ∷ rest

abbrev pub has_none : List Bytes → Bool
has_none [] = true
has_none (_ ∷ _) = false

abbrev pub key_owner : Text → List Bytes → List Bytes → KeyOwner
key_owner jid trusted distrusted = record {
  jid = jid;
  trusted_keys = trusted;
  distrusted_keys = distrusted;
}

-- The loop over the contacts with authenticated keys.
unfoldable pub send_each : Text → List KeyOwner → List Text → AtmManager → AtmManager
send_each encryption owners [] m = m
send_each encryption owners (jid ∷ jids) m =
    send_each encryption owners jids (send_trust_message encryption owners jid m)

-- The order of texts, and std::sort with std::unique behind it.
unfoldable pub text_lt : Text → Text → Bool
text_lt [] [] = false
text_lt [] (_ ∷ _) = true
text_lt (_ ∷ _) [] = false
text_lt (a ∷ s) (b ∷ t) = ltb a b || a == b && text_lt s t

unfoldable pub insert_unique : Text → List Text → List Text
insert_unique jid [] = jid ∷ []
insert_unique jid (j ∷ jids) =
    let rest = insert_unique jid jids in
    if text_lt jid j then jid ∷ j ∷ jids else if text_eq jid j then j ∷ jids else j ∷ rest

unfoldable pub sort_unique : List Text → List Text
sort_unique [] = []
sort_unique (jid ∷ jids) = insert_unique jid (sort_unique jids)

-- The key owners for the contacts' keys; a list of distrusted keys that is not set is empty.
unfoldable pub contact_owners : KeyIds → KeyIds → List Text → List KeyOwner
contact_owners trusted distrusted [] = []
contact_owners trusted distrusted (jid ∷ jids) =
    key_owner jid (values jid trusted) (values jid distrusted)
    ∷ contact_owners trusted distrusted jids

-- What is read and computed before the two cases part.
pub record Manual : Type 0 where
  pub encryption : Text
  pub own_jid : Text
  pub authenticated_keys : KeyIds
  pub distrusted_keys : KeyIds
  pub owner : KeyOwner

abbrev pub own_owner : Manual → KeyOwner
own_owner x =
    key_owner x.own_jid (values x.own_jid x.authenticated_keys) (values x.own_jid x.distrusted_keys)

abbrev pub is_void : KeyOwner → Bool
is_void o = has_none o.trusted_keys && has_none o.distrusted_keys

abbrev no_ids : KeyIds → Bool
no_ids [] = true
no_ids (_ ∷ _) = false

abbrev pub decide : ℕ → Manual → AtmManager → Option AtmManager
decide fuel x =
    make_trust_decisions fuel x.encryption (insert_ids x.owner.jid x.owner.trusted_keys [])
      (insert_ids x.owner.jid x.owner.distrusted_keys [])

-- The messages before the decisions on own keys.
unfoldable pub send_own_keys : Bool → Manual → AtmManager → AtmManager
send_own_keys carbons_disabled x m =
    let contacts = remove x.own_jid x.authenticated_keys in
    let sent = send_each x.encryption (x.owner ∷ []) (unique_keys contacts) m in
    if carbons_disabled || no_ids contacts && not (has_none (own_owner x).trusted_keys)
    then send_trust_message x.encryption (x.owner ∷ []) x.own_jid sent
    else sent

abbrev has_owners : List KeyOwner → Bool
has_owners [] = false
has_owners (_ ∷ _) = true

-- The key owners of the message after the decisions on own keys.
unfoldable pub all_owners : Manual → List KeyOwner
all_owners x =
    let contacts = remove x.own_jid x.authenticated_keys in
    let distrusted = remove x.own_jid x.distrusted_keys in
    let jids = sort_unique (unique_keys distrusted ++ unique_keys contacts) in
    contact_owners contacts distrusted jids
    ++ (if is_void (own_owner x) then [] else own_owner x ∷ [])

unfoldable pub after_own_keys : Manual → Option AtmManager → Option AtmManager
after_own_keys x none = none
after_own_keys x (some m) =
    if not (has_none x.owner.trusted_keys) && has_owners (all_owners x)
    then some (send_trust_message x.encryption (all_owners x) x.own_jid m)
    else some m

unfoldable pub after_contact_keys : Manual → Option AtmManager → Option AtmManager
after_contact_keys x none = none
after_contact_keys x (some m) =
    if not (has_none x.owner.trusted_keys) && not (is_void (own_owner x))
    then some (send_trust_message x.encryption (own_owner x ∷ []) x.owner.jid m)
    else some m

unfoldable pub send_contact_keys : Manual → AtmManager → AtmManager
send_contact_keys x m =
    if has_none (own_owner x).trusted_keys
    then m
    else send_trust_message x.encryption (x.owner ∷ []) x.own_jid m

unfoldable pub decide_manually : ℕ → Bool → Manual → AtmManager → Option AtmManager
decide_manually fuel carbons_disabled x m =
    if is_void x.owner
    then some m
    else if text_eq x.owner.jid x.own_jid
    then after_own_keys x (decide fuel x (send_own_keys carbons_disabled x m))
    else after_contact_keys x (decide fuel x (send_contact_keys x m))

-- The keys that the storage has at the two levels, and the changes that are asked for.
unfoldable pub manual_of : Config → Text → Text → List Bytes → List Bytes → AtmManager → Manual
manual_of config encryption jid authenticating distrusting m =
    let keys = keys_by_level encryption decided_levels m.storage.base in
    let trusted = at_level authenticated keys in
    let distrusted = at_level manually_distrusted keys in
    record {
      encryption = encryption;
      own_jid = config.jid_bare;
      authenticated_keys = trusted;
      distrusted_keys = distrusted;
      owner =
          key_owner jid (modified_keys trusted jid authenticating)
            (modified_keys distrusted jid distrusting);
    }

-- makeTrustDecisions(encryption, keyOwnerJid, keyIdsForAuthentication, keyIdsForDistrusting).
unfoldable pub make_manual_decisions :
    ℕ → Config → Bool → Text → Text → List Bytes → List Bytes → AtmManager → Option AtmManager
make_manual_decisions fuel config carbons_disabled encryption jid authenticating distrusting m =
    decide_manually fuel carbons_disabled
      (manual_of config encryption jid authenticating distrusting m) m
