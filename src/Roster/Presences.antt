-- ===== src/Roster/Presences.antt =====
-- Presences in the roster manager, what it asks of the server, and what it answers.
use qxmpp.Common.{
  Bool, true, false, [], ◌∷◌, List, Option, none, some, Text, is_empty, text_eq, if◌then◌else◌, map,
}
use qxmpp.Jid.{jid_to_bare_jid, jid_to_resource}
use qxmpp.Roster.{
  Item, subscription_not_set, subscription_remove, PresenceType, available, unavailable, subscribe,
  unsubscribe, unsubscribed, Presence, Resources, RosterManager, Client, send, emit, items_set,
  presence_sent, presence_changed, subscription_removed, presence_to, find_item,
  handle_subscription_request,
}

unfoldable pub find_presence : Text → Resources → Option Presence
find_presence r [] = none
find_presence r ((k, p) ∷ ps) = if text_eq k r then some p else find_presence r ps

unfoldable pub insert_presence : Text → Presence → Resources → Resources
insert_presence r p [] = (r, p) ∷ []
insert_presence r p ((k, q) ∷ ps) =
    if text_eq k r then (k, p) ∷ ps else (k, q) ∷ insert_presence r p ps

unfoldable pub remove_presence : Text → Resources → Resources
remove_presence r [] = []
remove_presence r ((k, q) ∷ ps) =
    let rest = remove_presence r ps in if text_eq k r then rest else (k, q) ∷ rest

unfoldable pub find_resources : Text → List (Text × Resources) → Option Resources
find_resources j [] = none
find_resources j ((k, r) ∷ rs) = if text_eq k j then some r else find_resources j rs

-- `presences[bareJid]`, changed by `f`: a contact without presences has an empty map first.
unfoldable pub change_resources :
    (Resources → Resources) → Text → List (Text × Resources) → List (Text × Resources)
change_resources f j [] = (j, f []) ∷ []
change_resources f j ((k, r) ∷ rs) =
    if text_eq k j then (k, f r) ∷ rs else (k, r) ∷ change_resources f j rs

unfoldable pub by_type :
    Client → PresenceType → Text → Text → Presence → RosterManager → RosterManager
by_type c available jid resource p m =
    emit (presence_changed jid resource)
      (record m { presences = change_resources (insert_presence resource p) jid m.presences })
by_type c unavailable jid resource p m =
    emit (presence_changed jid resource)
      (record m { presences = change_resources (remove_presence resource) jid m.presences })
by_type c subscribe jid resource p m = handle_subscription_request c jid p m
by_type c unsubscribe jid resource p m = emit (subscription_removed jid) m
by_type c _ jid resource p m = m

unfoldable pub presence_received : Client → Presence → RosterManager → RosterManager
presence_received c p m =
    if is_empty (jid_to_bare_jid p.from)
    then m
    else by_type c p.kind (jid_to_bare_jid p.from) (jid_to_resource p.from) p m

unfoldable pub add_item : Text → Text → List Text → RosterManager → RosterManager
add_item jid name groups m =
    send
      (items_set (
        record {
          bare_jid = jid;
          name = name;
          subscription_type = subscription_not_set;
          subscription_status = [];
          groups = groups;
          approved = false;
          is_mix_channel = false;
          mix_participant_id = [];
        }
        ∷ []))
      m

unfoldable pub ask_remove_item : Text → RosterManager → RosterManager
ask_remove_item jid m =
    send
      (items_set (
        record {
          bare_jid = jid;
          name = [];
          subscription_type = subscription_remove;
          subscription_status = [];
          groups = [];
          approved = false;
          is_mix_channel = false;
          mix_participant_id = [];
        }
        ∷ []))
      m

-- The item is sent as it is known, under the new name and without a pending subscription.
unfoldable pub rename_item : Text → Text → RosterManager → Bool × RosterManager
rename_item jid name m = elim (find_item jid m.entries) [
  | none ↦ (false, m)
  | some i ↦ (true, send (items_set (record i { name = name; subscription_status = [] } ∷ [])) m)
]

unfoldable pub unsubscribe_from : Client → Text → Text → RosterManager → RosterManager
unsubscribe_from c jid reason m =
    send (presence_sent (presence_to c (jid_to_bare_jid jid) unsubscribe reason)) m

unfoldable pub refuse_subscription : Client → Text → Text → RosterManager → RosterManager
refuse_subscription c jid reason m = send (presence_sent (presence_to c jid unsubscribed reason)) m

-- An item that is not there is read as one that says nothing.
unfoldable pub get_roster_entry : Text → RosterManager → Item
get_roster_entry jid m = elim (find_item jid m.entries) [
  | none ↦ record {
    bare_jid = [];
    name = [];
    subscription_type = subscription_not_set;
    subscription_status = [];
    groups = [];
    approved = false;
    is_mix_channel = false;
    mix_participant_id = [];
  }
  | some i ↦ i
]

abbrev pub get_roster_bare_jids : RosterManager → List Text
get_roster_bare_jids m = map (λ (i : Item). i.bare_jid) m.entries

unfoldable pub get_resources : Text → RosterManager → List Text
get_resources jid m = elim (find_resources jid m.presences) [
  | none ↦ []
  | some r ↦ map (λ e. e.0) r
]

-- Without a presence of that resource, an unavailable one.
abbrev pub absent : Presence
absent = record { from = []; to = []; kind = unavailable; status_text = []; old_jid = [] }

unfoldable pub presence_in : Text → Option Resources → Presence
presence_in resource none = absent
presence_in resource (some r) = elim (find_presence resource r) [ none ↦ absent | some p ↦ p ]

unfoldable pub get_presence : Text → Text → RosterManager → Presence
get_presence jid resource m = presence_in resource (find_resources jid m.presences)
