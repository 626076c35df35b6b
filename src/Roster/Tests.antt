-- ===== src/Roster/Tests.antt =====
-- The theorems about the roster at a concrete history.
use qxmpp.Common.{◌≡◌, refl, true, false, [], ◌∷◌, List, none, some, Text, text_eq, codes}
use qxmpp.Jid.{jid_to_bare_jid, index_of}
use qxmpp.Roster.{
  Item, SubscriptionType, subscription_both, subscription_remove, Client, initial, find_item,
  insert_item, remove_item, push_item, push_items, handle_stanza, roster_answered, insert_items,
}
use qxmpp.Roster.Spec.{Event, on_answer, on_stanza, step, run, empty, spec_run}
use qxmpp.Roster.Refinement.{Refines, run-Refines}

abbrev account : Client
account = record { jid_bare = codes "me@here"; auto_accept = false; moved = none }

abbrev contact : Text → SubscriptionType → Item
contact jid t = record {
  bare_jid = jid;
  name = [];
  subscription_type = t;
  subscription_status = [];
  groups = [];
  approved = false;
  is_mix_channel = false;
  mix_participant_id = [];
}

abbrev push : Text → Text → SubscriptionType → Event
push from jid t =
    on_stanza (record { from = from; id = codes "p"; is_set = true; items = contact jid t ∷ [] })

abbrev history : List Event
history =
    on_answer (some (contact (codes "a@b") subscription_both ∷ []))
    ∷ push [] (codes "c@d") subscription_both
    ∷ push (codes "x@y") (codes "e@f") subscription_both
    ∷ push (codes "me@here") (codes "a@b") subscription_remove
    ∷ []

after_history : (run account history initial).entries ≡ contact (codes "c@d") subscription_both ∷ []
unfolding run step initial roster_answered insert_items handle_stanza push_items push_item find_item
    insert_item remove_item text_eq jid_to_bare_jid index_of
after_history = refl

run-Refines_example : Refines (run account history initial) (spec_run account history empty)
run-Refines_example = run-Refines account history
