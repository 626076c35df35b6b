-- ===== src/Roster.antt =====
-- QXmppRosterManager (client/QXmppRosterManager.cpp): the user's contacts and their presences. A map
-- of Qt is a list of entries. What is sent to the server and the signals to the user are kept in
-- the fields `sent` and `signals`.
use qxmpp.Common.{
  ℕ, suc, ◌+◌, ◌-◌, Bool, true, false, not, ◌&&◌, ◌||◌, [], ◌∷◌, ◌++◌, List, Option, none, some,
  Text, is_empty, text_eq, ◌==◌, if◌then◌else◌,
}
use qxmpp.Jid.{jid_to_bare_jid, jid_to_resource}
pub mod Presences
pub mod Spec
pub mod Refinement
pub mod Lookup
mod Tests

pub data SubscriptionType : Type 0 where
  no_subscription subscription_from subscription_to subscription_both subscription_remove
        subscription_not_set :
      SubscriptionType

pub record Item : Type 0 where
  pub bare_jid : Text
  pub name : Text
  pub subscription_type : SubscriptionType
  pub subscription_status : Text
  pub groups : List Text
  pub approved : Bool
  pub is_mix_channel : Bool
  pub mix_participant_id : Text

-- The types of a presence that the manager looks at or sends.
pub data PresenceType : Type 0 where
  available unavailable subscribe subscribed unsubscribe unsubscribed other_presence : PresenceType

pub record Presence : Type 0 where
  pub from : Text
  pub to : Text
  pub kind : PresenceType
  pub status_text : Text
  pub old_jid : Text

-- A roster IQ, read from its element; `is_set` for the type Set.
pub record RosterIq : Type 0 where
  pub from : Text
  pub id : Text
  pub is_set : Bool
  pub items : List Item

pub data Sent : Type 0 where
  presence_sent : Presence → Sent
  result_sent : Text → Sent
  items_set : List Item → Sent
  roster_requested : Sent

pub data Signal : Type 0 where
  item_added item_changed item_removed subscription_received subscription_removed : Text → Signal
  presence_changed : Text → Text → Signal
  subscription_request_received : Text → Presence → Signal
  roster_received : Signal

-- The presences of a contact by their resources, and those of all contacts by their bare JIDs.
abbrev pub Resources : Type 0
Resources = List (Text × Presence)

pub record RosterManager : Type 0 where
  pub entries : List Item
  pub presences : List (Text × Resources)
  pub is_roster_received : Bool
  pub sent : List Sent
  pub signals : List Signal

-- What is used of the client: the account's bare JID, whether requests are accepted at once, and
-- what QXmppMovedManager makes of a request, if there is one.
pub record Client : Type 0 where
  pub jid_bare : Text
  pub auto_accept : Bool
  pub moved : Option (Presence → Presence)

unfoldable pub find_item : Text → List Item → Option Item
find_item k [] = none
find_item k (i ∷ is) = if text_eq i.bare_jid k then some i else find_item k is

unfoldable pub insert_item : Item → List Item → List Item
insert_item i [] = i ∷ []
insert_item i (j ∷ js) = if text_eq j.bare_jid i.bare_jid then i ∷ js else j ∷ insert_item i js

unfoldable pub remove_item : Text → List Item → List Item
remove_item k [] = []
remove_item k (i ∷ is) =
    let rest = remove_item k is in if text_eq i.bare_jid k then rest else i ∷ rest

abbrev pub is_some {ℓ} : {A : Type ℓ} → Option A → Bool
is_some none = false
is_some (some _) = true

abbrev pub is_remove : SubscriptionType → Bool
is_remove subscription_remove = true
is_remove _ = false

unfoldable pub initial : RosterManager
initial = record {
  entries = [];
  presences = [];
  is_roster_received = false;
  sent = [];
  signals = [];
}

unfoldable pub clear : RosterManager → RosterManager
clear m = record m { entries = []; presences = []; is_roster_received = false }

abbrev pub send : Sent → RosterManager → RosterManager
send s m = record m { sent = m.sent ++ s ∷ [] }

abbrev pub emit : Signal → RosterManager → RosterManager
emit s m = record m { signals = m.signals ++ s ∷ [] }

unfoldable pub connected : Bool → Bool → RosterManager → RosterManager
connected resumed authenticated m =
    let kept = if resumed then m else clear m in
    if not kept.is_roster_received && authenticated then send roster_requested kept else kept

unfoldable pub insert_items : List Item → List Item → List Item
insert_items [] entries = entries
insert_items (i ∷ is) entries = insert_items is (insert_item i entries)

-- The continuation of the request; none for an error.
unfoldable pub roster_answered : Option (List Item) → RosterManager → RosterManager
roster_answered none m = m
roster_answered (some items) m =
    emit roster_received (record m { entries = insert_items items []; is_roster_received = true })

unfoldable pub disconnected : Bool → RosterManager → RosterManager
disconnected no_stream_management m = if no_stream_management then clear m else m

unfoldable pub push_item : Item → RosterManager → RosterManager
push_item i m =
    let known = is_some (find_item i.bare_jid m.entries) in
    if is_remove i.subscription_type
    then if known
      then emit (item_removed i.bare_jid) (record m { entries = remove_item i.bare_jid m.entries })
      else m
    else emit (if known then item_changed i.bare_jid else item_added i.bare_jid)
        (record m { entries = insert_item i m.entries })

unfoldable pub push_items : List Item → RosterManager → RosterManager
push_items [] m = m
push_items (i ∷ is) m = push_items is (push_item i m)

module _ (c : Client) where
  abbrev pub is_trusted : Text → Bool
  is_trusted from = is_empty from || text_eq (jid_to_bare_jid from) c.jid_bare

  unfoldable pub handle_stanza : RosterIq → RosterManager → Bool × RosterManager
  handle_stanza iq m =
      if not (is_trusted iq.from)
      then (false, m)
      else if iq.is_set
      then (true, push_items iq.items (send (result_sent iq.id) m))
      else (true, m)

  abbrev pub presence_to : Text → PresenceType → Text → Presence
  presence_to to kind reason = record {
    from = [];
    to = to;
    kind = kind;
    status_text = reason;
    old_jid = [];
  }

  unfoldable pub accept_subscription : Text → Text → RosterManager → RosterManager
  accept_subscription jid reason m = send (presence_sent (presence_to jid subscribed reason)) m

  unfoldable pub subscribe_to : Text → Text → RosterManager → RosterManager
  subscribe_to jid reason m =
      send (presence_sent (presence_to (jid_to_bare_jid jid) subscribe reason)) m

  abbrev pub notify : Text → Presence → RosterManager → RosterManager
  notify jid p m = emit (subscription_request_received jid p) (emit (subscription_received jid) m)

  -- The old JID stays only where it was verified.
  unfoldable pub handle_request :
      Option (Presence → Presence) → Text → Presence → RosterManager → RosterManager
  handle_request none jid p m = notify jid (record p { old_jid = [] }) m
  handle_request (some verify) jid p m =
      if is_empty p.old_jid
      then notify jid (record p { old_jid = [] }) m
      else notify jid (verify p) m

  unfoldable pub handle_subscription_request : Text → Presence → RosterManager → RosterManager
  handle_subscription_request jid p m =
      if c.auto_accept
      then subscribe_to jid [] (accept_subscription jid [] m)
      else handle_request c.moved jid p m
