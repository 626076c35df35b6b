-- ===== src/Trust/Atm.antt =====
-- client/QXmppAtmManager.cpp above the storage in memory, and the methods of
-- client/QXmppTrustManager.cpp that it calls. The tasks of that storage are finished when they are
-- returned, so that each chain of `then` runs through at once. What goes to other parts, the
-- trust messages that are sent and the signal trustLevelsChanged, is kept in two logs, oldest entry first.
pub mod Updates
pub mod Effects
pub mod Total
pub mod Outcome
pub mod Messages
pub mod Authority
pub mod Manual
mod Tests
use qxmpp.Common.{
  ℕ, zero, suc, ◌+◌, Bool, true, false, not, ◌&&◌, ◌||◌, List, [], ◌∷◌, ◌++◌, Option, none, some,
  Text, Bytes, codes, text_eq, if◌then◌else◌, length,
}
use qxmpp.Jid.{jid_to_bare_jid}
use qxmpp.Trust.Levels.{
  TrustLevel, authenticated, manually_distrusted, automatically_trusted, automatically_distrusted,
  level_eq, TrustSecurityPolicy, no_security_policy, toakafa,
}
use qxmpp.Trust.Storage.{
  KeyIds, contains, security_policy, set_trust_level, set_trust_level_of_owners, trust_level,
}
use qxmpp.Trust.Postponed.{
  KeyOwner, AtmTrustMemoryStorage, add_keys_for_postponed, remove_decided, remove_of_senders,
  keys_for_postponed,
}

-- A trust message that is handed to the client for sending.
pub record TrustMessage : Type 0 where
  pub encryption : Text
  pub key_owners : List KeyOwner
  pub recipient : Text

pub record AtmManager : Type 0 where
  pub storage : AtmTrustMemoryStorage
  pub sent : List TrustMessage
  pub modified : List (Text × KeyIds)

-- QXmppTrustManager::setTrustLevel(encryption, keyIds, trustLevel).
unfoldable pub set_level : Text → KeyIds → TrustLevel → AtmManager → AtmManager
set_level encryption ids level m =
    let r = set_trust_level encryption ids level m.storage.base in
    record m {
      storage = record (m.storage) { base = r.0 };
      modified = m.modified ++ (encryption, r.1) ∷ [];
    }

-- QXmppTrustManager::setTrustLevel(encryption, keyOwnerJids, oldTrustLevel, newTrustLevel).
unfoldable pub set_level_of_owners :
    Text → List Text → TrustLevel → TrustLevel → AtmManager → AtmManager
set_level_of_owners encryption jids old new m =
    let r = set_trust_level_of_owners encryption jids old new m.storage.base in
    record m {
      storage = record (m.storage) { base = r.0 };
      modified = m.modified ++ (encryption, r.1) ∷ [];
    }

unfoldable pub distrust_automatically_trusted_keys : Text → List Text → AtmManager → AtmManager
distrust_automatically_trusted_keys encryption jids =
    set_level_of_owners encryption jids automatically_trusted automatically_distrusted

-- QMultiHash::uniqueKeys and QMultiHash::values, without the order, which is not documented.
unfoldable pub unique_keys : KeyIds → List Text
unique_keys [] = []
unique_keys ((jid, i) ∷ ids) =
    let rest = unique_keys ids in if contains rest jid then rest else jid ∷ rest

unfoldable pub key_values : KeyIds → List Bytes
key_values [] = []
key_values ((jid, i) ∷ ids) = i ∷ key_values ids

-- makeTrustDecisions(encryption, keyIdsForAuthentication, keyIdsForDistrusting), as it is called
-- from makePostponedTrustDecisions.
abbrev pub Decide : Type 0
Decide = KeyIds → KeyIds → AtmManager → Option AtmManager

unfoldable pub make_postponed_trust_decisions :
    Decide → Text → List Bytes → AtmManager → Option AtmManager
make_postponed_trust_decisions decide encryption senders m =
    let authenticating = keys_for_postponed encryption senders true m.storage in
    let distrusting = keys_for_postponed encryption senders false m.storage in
    decide authenticating distrusting (record m {
      storage =
          remove_decided encryption (key_values authenticating) (key_values distrusting) m.storage;
    })

-- The step of `authenticate` that the security policy decides on.
unfoldable pub apply_policy : TrustSecurityPolicy → Text → List Text → AtmManager → AtmManager
apply_policy toakafa encryption jids m = distrust_automatically_trusted_keys encryption jids m
apply_policy no_security_policy encryption jids m = m

unfoldable pub authenticate : Decide → Text → KeyIds → AtmManager → Option AtmManager
authenticate decide encryption [] m = some m
authenticate decide encryption (x ∷ ids) m =
    let set = set_level encryption (x ∷ ids) authenticated m in
    let policy = security_policy encryption set.storage.base in
    make_postponed_trust_decisions decide encryption (key_values (x ∷ ids))
      (apply_policy policy encryption (unique_keys (x ∷ ids)) set)

unfoldable pub distrust : Text → KeyIds → AtmManager → AtmManager
distrust encryption [] m = m
distrust encryption (x ∷ ids) m =
    let set = set_level encryption (x ∷ ids) manually_distrusted m in
    record set { storage = remove_of_senders encryption (key_values (x ∷ ids)) set.storage }

abbrev pub then_distrust : Text → KeyIds → Option AtmManager → Option AtmManager
then_distrust encryption ids none = none
then_distrust encryption ids (some m) = some (distrust encryption ids m)

-- The nested calls go through makePostponedTrustDecisions; the fuel bounds their depth, and
-- `none` means that it ran out.
unfoldable pub make_trust_decisions : ℕ → Text → KeyIds → KeyIds → AtmManager → Option AtmManager
make_trust_decisions zero encryption authenticating distrusting m = none
make_trust_decisions (suc n) encryption authenticating distrusting m =
    then_distrust encryption distrusting
      (authenticate (make_trust_decisions n encryption) encryption authenticating m)

abbrev pub ns_atm : Text
ns_atm = codes "urn:xmpp:atm:1"

pub record TrustMessageElement : Type 0 where
  pub usage : Text
  pub encryption : Text
  pub key_owners : List KeyOwner

-- What handleMessage reads of a message: the sender, the trust message and the sender's key.
pub record Message : Type 0 where
  pub sender : Text
  pub trust_message : Option TrustMessageElement
  pub sender_key : Option Bytes

-- The JID and the bare JID of the client's configuration.
pub record Config : Type 0 where
  pub jid : Text
  pub jid_bare : Text

-- The entries of a loop that inserts the keys of an owner into a multi-hash.
unfoldable pub insert_ids : Text → List Bytes → KeyIds → KeyIds
insert_ids jid [] out = out
insert_ids jid (i ∷ ids) out = insert_ids jid ids ((jid, i) ∷ out)

-- What the loop over the key owners of a message collects.
pub record Decisions : Type 0 where
  pub authenticating : KeyIds
  pub distrusting : KeyIds
  pub postponed : List KeyOwner

-- `isOwnTrustMessage || senderJid == keyOwnerJid`.
abbrev pub is_qualified : Text → Text → Text → Bool
is_qualified own_jid sender owner = text_eq sender own_jid || text_eq sender owner

unfoldable pub collect_decisions : Text → Text → Bool → List KeyOwner → Decisions → Decisions
collect_decisions own_jid sender trusted [] d = d
collect_decisions own_jid sender trusted (o ∷ os) d = collect_decisions own_jid sender trusted os (
    if is_qualified own_jid sender o.jid
    then if trusted
      then record d {
        authenticating = insert_ids o.jid o.trusted_keys d.authenticating;
        distrusting = insert_ids o.jid o.distrusted_keys d.distrusting;
      }
      else record d { postponed = d.postponed ++ o ∷ [] }
    else d)

abbrev pub no_decisions : Decisions
no_decisions = record { authenticating = []; distrusting = []; postponed = [] }

abbrev pub key_or_empty : Option Bytes → Bytes
key_or_empty none = []
key_or_empty (some k) = k

-- The decisions that a trust message leads to: those that are made and those that are postponed.
unfoldable pub decisions_of : Config → Message → TrustMessageElement → AtmManager → Decisions
decisions_of config msg element m =
    let sender = jid_to_bare_jid msg.sender in
    let level =
      trust_level element.encryption sender (key_or_empty msg.sender_key) m.storage.base in
    collect_decisions config.jid_bare sender (level_eq level authenticated) element.key_owners
      no_decisions

unfoldable pub process : ℕ → Config → Message → TrustMessageElement → AtmManager → Option AtmManager
process fuel config msg element m =
    let d = decisions_of config msg element m in
    make_trust_decisions fuel element.encryption d.authenticating d.distrusting (record m {
      storage =
          add_keys_for_postponed element.encryption (key_or_empty msg.sender_key) d.postponed
            m.storage;
    })

-- `usage() == ns_atm && message.from() != client()->configuration().jid()`.
abbrev pub is_relevant : Config → Message → TrustMessageElement → Bool
is_relevant config msg element = text_eq element.usage ns_atm && not (text_eq msg.sender config.jid)

unfoldable pub handle_element :
    ℕ → Config → Message → AtmManager → Option TrustMessageElement → Option AtmManager
handle_element fuel config msg m none = some m
handle_element fuel config msg m (some element) =
    if is_relevant config msg element then process fuel config msg element m else some m

unfoldable pub handle_message : ℕ → Config → Message → AtmManager → Option AtmManager
unfolding handle_element
handle_message fuel config msg m = handle_element fuel config msg m msg.trust_message
