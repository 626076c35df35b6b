-- ===== src/Roster/Lookup.antt =====
-- The presences that are kept, as a map from bare JIDs and resources.
use qxmpp.Common.{
  ◌≡◌, refl, sym, Bool, true, false, ◌&&◌, [], ◌∷◌, List, Option, none, some, Text, text_eq,
  text_eq_iff, if◌then◌else◌, is_empty, Bool-cases, inl, inr, arith,
}
use qxmpp.Jid.{jid_to_bare_jid, jid_to_resource}
use qxmpp.Roster.{
  PresenceType, available, unavailable, subscribe, unsubscribe, subscribed, unsubscribed,
  other_presence, Presence, Resources, RosterManager, Client, handle_request,
  handle_subscription_request, accept_subscription, subscribe_to,
}
use qxmpp.Roster.Presences.{
  find_presence, insert_presence, remove_presence, find_resources, change_resources, by_type,
  presence_received, get_presence, presence_in, absent,
}

find_presence-insert_presence :
    (r : Text) (p : Presence) (ps : Resources) (k : Text)
    → find_presence k (insert_presence r p ps)
      ≡ (if text_eq r k then some p else find_presence k ps)
unfolding find_presence insert_presence
find_presence-insert_presence r p [] k = refl
find_presence-insert_presence r p ((l, q) ∷ ps) k = ground (
  arith,
  find_presence-insert_presence r p ps k,
  text_eq_iff l r,
  text_eq_iff l k,
  text_eq_iff r k,
)

find_presence-remove_presence :
    (r : Text) (ps : Resources) (k : Text)
    → find_presence k (remove_presence r ps) ≡ (if text_eq r k then none else find_presence k ps)
unfolding find_presence remove_presence
find_presence-remove_presence r [] k = ground arith
find_presence-remove_presence r ((l, q) ∷ ps) k =
    ground (
      arith,
      find_presence-remove_presence r ps k,
      text_eq_iff l r,
      text_eq_iff l k,
      text_eq_iff r k,
    )

two_tests {ℓ} :
    {A : Type ℓ} (b : Bool) (x y z : A)
    → (if b then x else z) ≡ (if b then x else (if b then y else z))
two_tests true x y z = refl
two_tests false x y z = refl

abbrev or_none : Option Resources → Resources
or_none none = []
or_none (some r) = r

find_resources-change_resources :
    (f : Resources → Resources) (j : Text) (rs : List (Text × Resources)) (k : Text)
    → find_resources k (change_resources f j rs)
      ≡ (if text_eq j k then some (f (or_none (find_resources j rs))) else find_resources k rs)
unfolding find_resources change_resources
find_resources-change_resources f j [] k = refl
find_resources-change_resources f j ((l, r) ∷ rs) k = elim (Bool-cases (text_eq l j)) [
  | inl same ↦ rw (same, sym ((text_eq_iff l j).0 same)) (two_tests (text_eq l k) _ _ _)
  | inr other ↦ rw other (
      ground (
        arith,
        find_resources-change_resources f j rs k,
        text_eq_iff l j,
        text_eq_iff l k,
        text_eq_iff j k,
      ))
]

module _ (resource : Text) where
  presence_in-or_none :
      (o : Option Resources) → presence_in resource (some (or_none o)) ≡ presence_in resource o
  unfolding presence_in find_presence
  presence_in-or_none none = refl
  presence_in-or_none (some r) = refl

  presence_in-change :
      (f : Resources → Resources) (j jid : Text) (rs : List (Text × Resources))
      → presence_in resource (find_resources jid (change_resources f j rs)) ≡ (
          if text_eq j jid
          then presence_in resource (some (f (or_none (find_resources jid rs))))
          else presence_in resource (find_resources jid rs))
  presence_in-change f j jid rs = elim (Bool-cases (text_eq j jid)) [
    | inl here ↦ rw (find_resources-change_resources f j rs jid, here, (text_eq_iff j jid).0 here)
    | inr there ↦ rw (find_resources-change_resources f j rs jid, there)
  ]

  presence_in-insert :
      (r : Text) (p : Presence) (ps : Resources)
      → presence_in resource (some (insert_presence r p ps))
        ≡ (if text_eq r resource then p else presence_in resource (some ps))
  unfolding presence_in
  presence_in-insert r p ps = elim (Bool-cases (text_eq r resource)) [
    | inl here ↦ rw (presence_in, find_presence-insert_presence r p ps resource, here)
    | inr there ↦ rw (presence_in, find_presence-insert_presence r p ps resource, there)
  ]

  presence_in-remove :
      (r : Text) (ps : Resources)
      → presence_in resource (some (remove_presence r ps))
        ≡ (if text_eq r resource then absent else presence_in resource (some ps))
  unfolding presence_in
  presence_in-remove r ps = elim (Bool-cases (text_eq r resource)) [
    | inl here ↦ rw (presence_in, find_presence-remove_presence r ps resource, here)
    | inr there ↦ rw (presence_in, find_presence-remove_presence r ps resource, there)
  ]

both :
    {A : Type 0} (a b : Bool) (x y : A)
    → (if a then (if b then x else y) else y) ≡ (if a && b then x else y)
both true b x y = refl
both false b x y = refl

-- The presences of `m'` are those of `m`.
unchanged :
    (jid resource : Text) (b : Bool) (m m' : RosterManager)
    → m'.presences ≡ m.presences
    → get_presence jid resource m'
      ≡ (if b then get_presence jid resource m else get_presence jid resource m)
unfolding get_presence
unchanged jid resource true m m' e = rw e
unchanged jid resource false m m' e = rw e

handle_request-presences :
    (c : Client) (o : Option (Presence → Presence)) (jid : Text) (p : Presence) (m : RosterManager)
    → (handle_request c o jid p m).presences ≡ m.presences
unfolding handle_request
handle_request-presences c none jid p m = refl
handle_request-presences c (some verify) jid p m = elim (Bool-cases (is_empty p.old_jid)) [
  | inl e ↦ rw e
  | inr e ↦ rw e
]

handle_subscription_request-presences :
    (c : Client) (jid : Text) (p : Presence) (m : RosterManager)
    → (handle_subscription_request c jid p m).presences ≡ m.presences
unfolding handle_subscription_request subscribe_to accept_subscription handle_request
handle_subscription_request-presences c jid p m = elim (Bool-cases c.auto_accept) [
  | inl e ↦ rw e
  | inr e ↦ rw (e, handle_request-presences c c.moved jid p m)
]

abbrev pub replaced : PresenceType → Presence → Presence → Presence
replaced available p before = p
replaced unavailable p before = absent
replaced _ p before = before

by_type-get_presence :
    (c : Client) (t : PresenceType) (j r : Text) (p : Presence) (m : RosterManager)
    (jid resource : Text)
    → get_presence jid resource (by_type c t j r p m) ≡ (
        if text_eq j jid && text_eq r resource
        then replaced t p (get_presence jid resource m)
        else get_presence jid resource m)
unfolding by_type get_presence
by_type-get_presence c available j r p m jid resource =
    rw
      (
        presence_in-change resource (insert_presence r p) j jid m.presences,
        presence_in-insert resource r p (or_none (find_resources jid m.presences)),
        presence_in-or_none resource (find_resources jid m.presences),
      )
      (both (text_eq j jid) (text_eq r resource) p _)
by_type-get_presence c unavailable j r p m jid resource =
    rw
      (
        presence_in-change resource (remove_presence r) j jid m.presences,
        presence_in-remove resource r (or_none (find_resources jid m.presences)),
        presence_in-or_none resource (find_resources jid m.presences),
      )
      (both (text_eq j jid) (text_eq r resource) absent _)
by_type-get_presence c subscribe j r p m jid resource =
    unchanged jid resource _ m (by_type c subscribe j r p m)
      (handle_subscription_request-presences c j p m)
by_type-get_presence c unsubscribe j r p m jid resource =
    unchanged jid resource _ m (by_type c unsubscribe j r p m) refl
by_type-get_presence c subscribed j r p m jid resource =
    unchanged jid resource _ m (by_type c subscribed j r p m) refl
by_type-get_presence c unsubscribed j r p m jid resource =
    unchanged jid resource _ m (by_type c unsubscribed j r p m) refl
by_type-get_presence c other_presence j r p m jid resource =
    unchanged jid resource _ m (by_type c other_presence j r p m) refl

-- After a presence of a sender with a bare JID, the presence of that sender's resource is the one
-- received if it is available, and an unavailable one if it is unavailable. Under any other
-- type, and for every other bare JID or resource, it is what it was.
pub presence_received-get_presence :
    (c : Client) (p : Presence) (m : RosterManager) (jid resource : Text)
    → is_empty (jid_to_bare_jid p.from) ≡ false
    → get_presence jid resource (presence_received c p m) ≡ (
        if text_eq (jid_to_bare_jid p.from) jid && text_eq (jid_to_resource p.from) resource
        then replaced p.kind p (get_presence jid resource m)
        else get_presence jid resource m)
unfolding presence_received
presence_received-get_presence c p m jid resource named =
    rw named (by_type-get_presence c p.kind _ _ p m jid resource)
