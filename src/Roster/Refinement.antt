-- ===== src/Roster/Refinement.antt =====
-- The roster as a map from bare JIDs to items: what a history makes of it.
use qxmpp.Common.{
  ◌≡◌, inl, inr, refl, sym, ap, ◌∙◌, Bool, true, false, not, ◌&&◌, [], ◌∷◌, List, Option, none,
  some, Text, text_eq, text_eq_iff, is_empty, if◌then◌else◌, Bool-cases, arith,
}
use qxmpp.Jid.{index_of, jid_to_bare_jid}
use qxmpp.Roster.{
  SubscriptionType, PresenceType, available, unavailable, subscribe, unsubscribe, subscribed,
  unsubscribed, other_presence, Item, Presence, RosterIq, RosterManager, Client, find_item,
  insert_item, remove_item, is_some, is_remove, initial, clear, connected, insert_items,
  roster_answered, disconnected, push_item, push_items, is_trusted, handle_stanza, handle_request,
  accept_subscription, subscribe_to, handle_subscription_request,
}
use qxmpp.Roster.Spec.{
  Event, on_connected, on_answer, on_disconnected, on_stanza, on_presence, step, run, Roster, empty,
  is_of, is_own_push, left_by, put, update, put_all, update_all, spec_step, spec_run,
}
use qxmpp.Roster.Presences.{by_type, presence_received}

-- The manager holds the items of the abstract roster, and knows whether it was received.
pub record Refines (m : RosterManager) (a : Roster) : Type 0 where
  pub same_item : (k : Text) → find_item k m.entries ≡ a.item_of k
  pub same_flag : m.is_roster_received ≡ a.received

find_item-insert_item :
    (i : Item) (is : List Item) (k : Text)
    → find_item k (insert_item i is) ≡ put i (λ l. find_item l is) k
unfolding find_item insert_item
find_item-insert_item i [] k = refl
find_item-insert_item i (j ∷ js) k = ground (
  arith,
  find_item-insert_item i js k,
  text_eq_iff j.bare_jid i.bare_jid,
  text_eq_iff j.bare_jid k,
  text_eq_iff i.bare_jid k,
)

find_item-remove_item :
    (k : Text) (is : List Item) (l : Text)
    → find_item l (remove_item k is) ≡ (if text_eq k l then none else find_item l is)
unfolding find_item remove_item
find_item-remove_item k [] l = ground arith
find_item-remove_item k (j ∷ js) l = ground (
  arith,
  find_item-remove_item k js l,
  text_eq_iff j.bare_jid k,
  text_eq_iff j.bare_jid l,
  text_eq_iff k l,
)

insert_items-put_all :
    (is es : List Item) (f : Text → Option Item)
    → ((l : Text) → find_item l es ≡ f l)
    → (k : Text) → find_item k (insert_items is es) ≡ put_all is f k
unfolding insert_items put_all
insert_items-put_all [] es f h k = h k
insert_items-put_all (i ∷ is) es f h k =
    insert_items-put_all is (insert_item i es) (put i f)
      (λ l. rw (find_item-insert_item i es l, h l)) k

is_some-none {ℓ} : {A : Type ℓ} (o : Option A) → is_some o ≡ false → o ≡ none
is_some-none none h = refl
is_some-none (some a) h = absurd cc

-- An item that is to be removed and is not there is absent already.
absent_update :
    (i : Item) (f : Text → Option Item) (k : Text)
    → is_some (f i.bare_jid) ≡ false
    → f k ≡ (if text_eq i.bare_jid k then none else f k)
absent_update i f k unknown = elim (Bool-cases (text_eq i.bare_jid k)) [
  | inl same ↦
      (let key : i.bare_jid ≡ k = (text_eq_iff i.bare_jid k).0 same in
        rw same (ap f (sym key) ∙ is_some-none (f i.bare_jid) unknown))
  | inr other ↦ rw other
]

left_by-is_remove :
    (i : Item) (s : SubscriptionType) → left_by i s ≡ (if is_remove s then none else some i)
unfolding left_by
left_by-is_remove i s = ground arith

update_lem :
    (i : Item) (f : Text → Option Item) (k : Text)
    → update i f k ≡ (
        if text_eq i.bare_jid k
        then (if is_remove i.subscription_type then none else some i)
        else f k)
update_lem i f k =
    ap (λ (o : Option Item). if text_eq i.bare_jid k then o else f k)
      (left_by-is_remove i i.subscription_type)

push_item-update :
    (i : Item) (m : RosterManager) (k : Text)
    → find_item k (push_item i m).entries ≡ update i (λ l. find_item l m.entries) k
unfolding push_item
push_item-update i m k =
    let stored = λ (l : Text). find_item l m.entries in
    elim (Bool-cases (is_remove i.subscription_type)) [
      | inl removed ↦ elim (Bool-cases (is_some (find_item i.bare_jid m.entries))) [
        | inl known ↦
            rw (update_lem i stored k, removed, known)
              (find_item-remove_item i.bare_jid m.entries k)
        | inr unknown ↦
            rw (update_lem i stored k, removed, unknown) (absent_update i stored k unknown)
      ]
      | inr kept ↦ rw (update_lem i stored k, kept) (find_item-insert_item i m.entries k)
    ]

push_item-flag :
    (i : Item) (m : RosterManager) → (push_item i m).is_roster_received ≡ m.is_roster_received
unfolding push_item
push_item-flag i m = elim (Bool-cases (is_remove i.subscription_type)) [
  | inl removed ↦ elim (Bool-cases (is_some (find_item i.bare_jid m.entries))) [
    | inl known ↦ rw (removed, known)
    | inr unknown ↦ rw (removed, unknown)
  ]
  | inr kept ↦ rw kept
]

push_items-Refines :
    (is : List Item) (m : RosterManager) (a : Roster)
    → Refines m a
    → Refines (push_items is m) (record a { item_of = update_all is a.item_of })
unfolding push_items update_all
push_items-Refines [] m a r = r
push_items-Refines (i ∷ is) m a r =
    push_items-Refines is (push_item i m) (record a { item_of = update i a.item_of })
      (record {
        same_item = λ k.
            push_item-update i m k
            ∙ ap (λ v. if text_eq i.bare_jid k then left_by i i.subscription_type else v)
                (r.same_item k);
        same_flag = push_item-flag i m ∙ r.same_flag;
      })

-- The manager `m'` has the roster of `m`.
record Keeps (m m' : RosterManager) : Type 0 where
  kept_entries : m'.entries ≡ m.entries
  kept_flag : m'.is_roster_received ≡ m.is_roster_received

same : (m : RosterManager) → Keeps m m
same m = record { kept_entries = refl; kept_flag = refl }

if-Keeps : (b : Bool) (m x y : RosterManager) → Keeps m x → Keeps m y → Keeps m (if b then x else y)
if-Keeps true m x y p q = p
if-Keeps false m x y p q = q

handle_request-Keeps :
    (c : Client) (o : Option (Presence → Presence)) (jid : Text) (p : Presence) (m : RosterManager)
    → Keeps m (handle_request c o jid p m)
unfolding handle_request
handle_request-Keeps c none jid p m = record { kept_entries = refl; kept_flag = refl }
handle_request-Keeps c (some verify) jid p m =
    if-Keeps (is_empty p.old_jid) m _ _ (record { kept_entries = refl; kept_flag = refl })
      (record { kept_entries = refl; kept_flag = refl })

by_type-Keeps :
    (c : Client) (t : PresenceType) (jid resource : Text) (p : Presence) (m : RosterManager)
    → Keeps m (by_type c t jid resource p m)
unfolding by_type handle_subscription_request subscribe_to accept_subscription
by_type-Keeps c available jid resource p m = record { kept_entries = refl; kept_flag = refl }
by_type-Keeps c unavailable jid resource p m = record { kept_entries = refl; kept_flag = refl }
by_type-Keeps c subscribe jid resource p m =
    if-Keeps c.auto_accept m _ _ (record { kept_entries = refl; kept_flag = refl })
      (handle_request-Keeps c c.moved jid p m)
by_type-Keeps c unsubscribe jid resource p m = record { kept_entries = refl; kept_flag = refl }
by_type-Keeps c subscribed jid resource p m = same m
by_type-Keeps c unsubscribed jid resource p m = same m
by_type-Keeps c other_presence jid resource p m = same m

presence_received-Keeps :
    (c : Client) (p : Presence) (m : RosterManager) → Keeps m (presence_received c p m)
unfolding presence_received
presence_received-Keeps c p m =
    if-Keeps (is_empty (jid_to_bare_jid p.from)) m _ _ (same m) (by_type-Keeps c p.kind _ _ p m)

Refines-Keeps : (m m' : RosterManager) (a : Roster) → Refines m a → Keeps m m' → Refines m' a
Refines-Keeps m m' a r k = record {
  same_item = λ l. ap (find_item l) k.kept_entries ∙ r.same_item l;
  same_flag = k.kept_flag ∙ r.same_flag;
}

clear-Refines : (m : RosterManager) → Refines (clear m) empty
unfolding clear find_item
clear-Refines m = record { same_item = λ k. refl; same_flag = refl }

connected-Refines :
    (c : Client) (resumed authenticated : Bool) (m : RosterManager) (a : Roster)
    → Refines m a
    → Refines (connected resumed authenticated m) (if resumed then a else empty)
unfolding connected
connected-Refines c true authenticated m a r = Refines-Keeps m _ a r (
    if-Keeps (not m.is_roster_received && authenticated) m _ _
      (record { kept_entries = refl; kept_flag = refl }) (same m))
connected-Refines c false authenticated m a r = Refines-Keeps (clear m) _ empty (clear-Refines m) (
    if-Keeps (not (clear m).is_roster_received && authenticated) (clear m) _ _
      (record { kept_entries = refl; kept_flag = refl }) (same (clear m)))

bare-is_of : (jid from : Text) → text_eq (jid_to_bare_jid from) jid ≡ is_of jid from
unfolding jid_to_bare_jid index_of is_of text_eq
bare-is_of [] [] = refl
bare-is_of [] (b ∷ from) = ground arith
bare-is_of (a ∷ jid) [] = refl
bare-is_of (a ∷ jid) (b ∷ from) = ground (arith, bare-is_of jid from)

-- The code's test of the sender is the specification's.
is_trusted-is_own_push :
    (c : Client) (from : Text) → is_trusted c from ≡ is_own_push c.jid_bare from
unfolding is_own_push
is_trusted-is_own_push c [] = refl
is_trusted-is_own_push c (b ∷ from) = bare-is_of c.jid_bare (b ∷ from)

stanza-Refines :
    (c : Client) (iq : RosterIq) (m : RosterManager) (a : Roster)
    → Refines m a
    → Refines (handle_stanza c iq m).1 (spec_step c (on_stanza iq) a)
unfolding handle_stanza spec_step
stanza-Refines c iq m a r =
    let spec = is_trusted-is_own_push c iq.from in
    elim (Bool-cases (is_trusted c iq.from)) [
      | inl trusted ↦
          let own : is_own_push c.jid_bare iq.from ≡ true = sym spec ∙ trusted in
          elim (Bool-cases iq.is_set) [
            | inl set ↦
                rw (trusted, own, set)
                  (push_items-Refines iq.items _ a
                    (Refines-Keeps m _ a r (record { kept_entries = refl; kept_flag = refl })))
            | inr get ↦ rw (trusted, own, get) r
          ]
      | inr foreign ↦
          let other : is_own_push c.jid_bare iq.from ≡ false = sym spec ∙ foreign in
          rw (foreign, other) r
    ]

step-Refines :
    (c : Client) (e : Event) (m : RosterManager) (a : Roster)
    → Refines m a
    → Refines (step c e m) (spec_step c e a)
unfolding step spec_step disconnected roster_answered find_item
step-Refines c (on_connected resumed authenticated) m a r =
    connected-Refines c resumed authenticated m a r
step-Refines c (on_answer none) m a r = r
step-Refines c (on_answer (some items)) m a r = record {
  same_item = insert_items-put_all items [] (λ k. none) (λ k. refl);
  same_flag = refl;
}
step-Refines c (on_disconnected true) m a r = clear-Refines m
step-Refines c (on_disconnected false) m a r = r
step-Refines c (on_stanza iq) m a r = stanza-Refines c iq m a r
step-Refines c (on_presence p) m a r = Refines-Keeps m _ a r (presence_received-Keeps c p m)

run_from-Refines :
    (c : Client) (es : List Event) (m : RosterManager) (a : Roster)
    → Refines m a
    → Refines (run c es m) (spec_run c es a)
unfolding run spec_run
run_from-Refines c [] m a r = r
run_from-Refines c (e ∷ es) m a r =
    run_from-Refines c es (step c e m) (spec_step c e a) (step-Refines c e m a r)

initial-Refines : Refines initial empty
unfolding initial find_item
initial-Refines = record { same_item = λ k. refl; same_flag = refl }

-- After any history of connections, answers, disconnections, stanzas and presences, the manager's
-- roster is the map that the history specifies: it is forgotten with a stream that is not resumed,
-- replaced by an answer of the server, and changed item by item by pushes that have no sender or
-- come from the account's bare JID or one of its resources. Presences and stanzas of others
-- change nothing in it.
pub run-Refines : (c : Client) (es : List Event) → Refines (run c es initial) (spec_run c es empty)
run-Refines c es = run_from-Refines c es initial empty initial-Refines
