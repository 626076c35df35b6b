-- ===== src/Roster/Spec.antt =====
-- Histories of the roster manager, and what they make of the roster as a map from bare JIDs to items.
use qxmpp.Common.{
  Bool, true, false, ◌&&◌, [], ◌∷◌, List, Option, none, some, Text, text_eq, if◌then◌else◌, ◌==◌,
  not,
}
use qxmpp.Roster.{
  Item, Presence, RosterIq, RosterManager, Client, SubscriptionType, subscription_remove, connected,
  roster_answered, disconnected, handle_stanza,
}
use qxmpp.Roster.Presences.{presence_received}

-- What happens to the manager: the client connects (with a stream resumed or not, authenticated or
-- not), its request is answered, it is disconnected (without stream management or with it), and
-- stanzas arrive.
pub data Event : Type 0 where
  on_connected : Bool → Bool → Event
  on_answer : Option (List Item) → Event
  on_disconnected : Bool → Event
  on_stanza : RosterIq → Event
  on_presence : Presence → Event

unfoldable pub step : Client → Event → RosterManager → RosterManager
step c (on_connected resumed authenticated) m = connected resumed authenticated m
step c (on_answer items) m = roster_answered items m
step c (on_disconnected no_stream_management) m = disconnected no_stream_management m
step c (on_stanza iq) m = (handle_stanza c iq m).1
step c (on_presence p) m = presence_received c p m

unfoldable pub run : Client → List Event → RosterManager → RosterManager
run c [] m = m
run c (e ∷ es) m = run c es (step c e m)

-- The abstract roster.
pub record Roster : Type 0 where
  pub item_of : Text → Option Item
  pub received : Bool

abbrev pub empty : Roster
empty = record { item_of = λ k. none; received = false }

-- Is the address the account's bare JID, alone or with a resource behind a slash?
unfoldable pub is_of : Text → Text → Bool
is_of [] [] = true
is_of [] (b ∷ from) = b == b'/'
is_of (a ∷ jid) [] = false
is_of (a ∷ jid) (b ∷ from) = not (b == b'/') && (a == b && is_of jid from)

-- A push is the server's own, without a sender, or comes from the account itself.
unfoldable pub is_own_push : Text → Text → Bool
unfolding is_of
is_own_push jid [] = true
is_own_push jid (b ∷ from) = is_of jid (b ∷ from)

-- The item that a pushed item leaves behind.
unfoldable pub left_by : Item → SubscriptionType → Option Item
left_by i subscription_remove = none
left_by i _ = some i

abbrev pub put : Item → (Text → Option Item) → Text → Option Item
put i f k = if text_eq i.bare_jid k then some i else f k

abbrev pub update : Item → (Text → Option Item) → Text → Option Item
update i f k = if text_eq i.bare_jid k then left_by i i.subscription_type else f k

unfoldable pub put_all : List Item → (Text → Option Item) → Text → Option Item
put_all [] f = f
put_all (i ∷ is) f = put_all is (put i f)

unfoldable pub update_all : List Item → (Text → Option Item) → Text → Option Item
update_all [] f = f
update_all (i ∷ is) f = update_all is (update i f)

-- A new stream that was not resumed, or the end of one that cannot be, forgets the roster; an
-- answer replaces it; a push of the account itself, from any of its resources, or of the server
-- changes its items one by one; nothing else changes it.
unfoldable pub spec_step : Client → Event → Roster → Roster
spec_step c (on_connected resumed authenticated) a = if resumed then a else empty
spec_step c (on_answer none) a = a
spec_step c (on_answer (some items)) a = record {
  item_of = put_all items (λ k. none);
  received = true;
}
spec_step c (on_disconnected no_stream_management) a = if no_stream_management then empty else a
spec_step c (on_stanza iq) a =
    if is_own_push c.jid_bare iq.from && iq.is_set
    then record a { item_of = update_all iq.items a.item_of }
    else a
spec_step c (on_presence p) a = a

unfoldable pub spec_run : Client → List Event → Roster → Roster
spec_run c [] a = a
spec_run c (e ∷ es) a = spec_run c es (spec_step c e a)
