-- ===== src/Trust/Atm/Authority.antt =====
-- What a contact's trust message can change.
use qxmpp.Common.{
  ℕ, ◌≡◌, ◌≢◌, refl, sym, ap, ◌∙◌, inl, inr, Bool, true, false, List, [], ◌∷◌, ◌++◌, some, arith,
  Text, Bytes, text_eq_iff, if◌then◌else◌, All, Bool-cases, some_eq,
}
use qxmpp.Jid.{jid_to_bare_jid}
use qxmpp.Trust.Storage.{KeyIds, find_key}
use qxmpp.Trust.Postponed.{
  KeyOwner, UnprocessedKeys, is_entry, has_entry, set_trust, add_unprocessed, add_each_unprocessed,
  add_owners, add_keys_for_postponed,
}
use qxmpp.Trust.Atm.{
  AtmManager, TrustMessageElement, Message, Config, Decisions, insert_ids, is_qualified,
  is_relevant, collect_decisions, no_decisions, key_or_empty, decisions_of, process, handle_message,
}
use qxmpp.Trust.Atm.Updates.{Owners, Queue, Updates, make_trust_decisions-Sound}
use qxmpp.Trust.Atm.Effects.{found, Updates-apart}
use qxmpp.Trust.Atm.Messages.{
  has_authenticated_sender, handle_message-relevant, handle_message-irrelevant,
}

module _ (P : Text → Type 0) (e : Text) where
  Queue-set_trust :
      (sender : Bytes) (jid : Text) (i : Bytes) (trust : Bool) (u : UnprocessedKeys)
      → Queue P e u
      → Queue P e (set_trust e sender jid i trust u)
  unfolding set_trust
  Queue-set_trust sender jid i trust [] q = tt
  Queue-set_trust sender jid i trust ((f, k) ∷ u) q =
      elim (Bool-cases (is_entry e sender jid i (f, k))) [
        | inl hit ↦ rw hit (q.0, q.1)
        | inr miss ↦ rw miss (q.0, Queue-set_trust sender jid i trust u q.1)
      ]

  Queue-add_unprocessed :
      (sender : Bytes) (jid : Text) (trust : Bool) (i : Bytes) (u : UnprocessedKeys)
      → P jid
      → Queue P e u
      → Queue P e (add_unprocessed e sender jid trust i u)
  unfolding add_unprocessed
  Queue-add_unprocessed sender jid trust i u p q = elim (Bool-cases (has_entry e sender jid i u)) [
    | inl old ↦ rw old (Queue-set_trust sender jid i trust u q)
    | inr new ↦ rw new (λ _. p, q)
  ]

  Queue-add_each :
      (sender : Bytes) (jid : Text) (trust : Bool) (ids : List Bytes) (u : UnprocessedKeys)
      → P jid
      → Queue P e u
      → Queue P e (add_each_unprocessed e sender jid trust ids u)
  unfolding add_each_unprocessed
  Queue-add_each sender jid trust [] u p q = q
  Queue-add_each sender jid trust (i ∷ ids) u p q =
      Queue-add_each sender jid trust ids _ p (Queue-add_unprocessed sender jid trust i u p q)

  Queue-add_owners :
      (sender : Bytes) (os : List KeyOwner) (u : UnprocessedKeys)
      → All (λ (o : KeyOwner). P o.jid) os
      → Queue P e u
      → Queue P e (add_owners e sender os u)
  unfolding add_owners
  Queue-add_owners sender [] u p q = q
  Queue-add_owners sender (o ∷ os) u p q = Queue-add_owners sender os _ p.1 (
      Queue-add_each sender o.jid false o.distrusted_keys _ p.0
        (Queue-add_each sender o.jid true o.trusted_keys u p.0 q))

  Owners-insert_ids :
      (jid : Text) (ids : List Bytes) (out : KeyIds)
      → P jid
      → Owners P out
      → Owners P (insert_ids jid ids out)
  unfolding insert_ids
  Owners-insert_ids jid [] out p o = o
  Owners-insert_ids jid (i ∷ ids) out p o = Owners-insert_ids jid ids _ p (p, o)

  -- All that was collected is about owners within `P`.
  record Within (d : Decisions) : Type 0 where
    of_authenticating : Owners P d.authenticating
    of_distrusting : Owners P d.distrusting
    of_postponed : All (λ (o : KeyOwner). P o.jid) d.postponed

  All-concat :
      (os : List KeyOwner) (o : KeyOwner)
      → All (λ (o : KeyOwner). P o.jid) os
      → P o.jid
      → All (λ (o : KeyOwner). P o.jid) (os ++ o ∷ [])
  All-concat [] o a p = (p, tt)
  All-concat (x ∷ os) o a p = (a.0, All-concat os o a.1 p)

  collect_decisions-Within :
      (own_jid sender : Text) (trusted : Bool) (os : List KeyOwner) (d : Decisions)
      → ((jid : Text) → is_qualified own_jid sender jid ≡ true → P jid)
      → Within d
      → Within (collect_decisions own_jid sender trusted os d)
  unfolding collect_decisions
  collect_decisions-Within own_jid sender trusted [] d p w = w
  collect_decisions-Within own_jid sender trusted (o ∷ os) d p w =
      collect_decisions-Within own_jid sender trusted os _ p (one trusted)
    where
      one :
          (trusted : Bool)
          → Within (
              if is_qualified own_jid sender o.jid
              then if trusted
                then record d {
                  authenticating = insert_ids o.jid o.trusted_keys d.authenticating;
                  distrusting = insert_ids o.jid o.distrusted_keys d.distrusting;
                }
                else record d { postponed = d.postponed ++ o ∷ [] }
              else d)
      one true = elim (Bool-cases (is_qualified own_jid sender o.jid)) [
        | inl fit ↦ rw fit (record {
          of_authenticating =
              Owners-insert_ids o.jid o.trusted_keys _ (p o.jid fit) w.of_authenticating;
          of_distrusting =
              Owners-insert_ids o.jid o.distrusted_keys _ (p o.jid fit) w.of_distrusting;
          of_postponed = w.of_postponed;
        })
        | inr other ↦ rw other w
      ]
      one false = elim (Bool-cases (is_qualified own_jid sender o.jid)) [
        | inl fit ↦ rw fit (record {
          of_authenticating = w.of_authenticating;
          of_distrusting = w.of_distrusting;
          of_postponed = All-concat d.postponed o w.of_postponed (p o.jid fit);
        })
        | inr other ↦ rw other w
      ]

-- A trust message is processed by updates within `P`, if `P` holds of the owners that its sender may
-- decide on and of the owners of the keys that are postponed.
process-Sound :
    (P : Text → Type 0) (fuel : ℕ) (config : Config) (msg : Message) (element : TrustMessageElement)
    (m t : AtmManager)
    → ((jid : Text) → is_qualified config.jid_bare (jid_to_bare_jid msg.sender) jid ≡ true → P jid)
    → Queue P element.encryption m.storage.unprocessed
    → process fuel config msg element m ≡ some t
    → (u : AtmManager) × (u.storage.base ≡ m.storage.base) × Updates P element.encryption u t
unfolding process decisions_of add_keys_for_postponed
process-Sound P fuel config msg element m t p q h =
    let e = element.encryption in
    let key = key_or_empty msg.sender_key in
    let d = decisions_of config msg element m in
    let w =
      collect_decisions-Within P e config.jid_bare (jid_to_bare_jid msg.sender)
        (has_authenticated_sender msg element m) element.key_owners no_decisions p
        (record { of_authenticating = tt; of_distrusting = tt; of_postponed = tt }) in
    let u = record m { storage = add_keys_for_postponed e key d.postponed m.storage } in
    (
      u,
      refl,
      (make_trust_decisions-Sound P e fuel d.authenticating d.distrusting u t w.of_authenticating
          w.of_distrusting
          (Queue-add_owners P e key d.postponed m.storage.unprocessed w.of_postponed q) h).0,
    )

not_qualified :
    (own_jid sender jid other : Text)
    → sender ≢ own_jid
    → sender ≢ other
    → is_qualified own_jid sender jid ≡ true
    → jid ≢ other
not_qualified own_jid sender jid other contact apart h same =
    ground (arith, text_eq_iff sender own_jid, text_eq_iff sender jid, contact, apart, same)

-- Take a trust message of a contact, whose key is authenticated or not. Where no key of the owner
-- `jid` is postponed for its encryption, the levels of the keys of `jid` are the same after the message, if
-- `jid` is not the sender's own bare JID.
pub handle_message-apart :
    (fuel : ℕ) (config : Config) (msg : Message) (element : TrustMessageElement) (m t : AtmManager)
    (jid : Text)
    → msg.trust_message ≡ some element
    → jid_to_bare_jid msg.sender ≢ config.jid_bare
    → jid_to_bare_jid msg.sender ≢ jid
    → Queue (λ j. j ≢ jid) element.encryption m.storage.unprocessed
    → handle_message fuel config msg m ≡ some t
    → (e : Text) (i : Bytes) → found e jid i t ≡ found e jid i m
unfolding handle_message
handle_message-apart fuel config msg element m t jid has contact other q h e i =
    elim (Bool-cases (is_relevant config msg element)) [
      | inl fits ↦
          let (u, same, r) =
            process-Sound (λ j. j ≢ jid) fuel config msg element m t
              (λ j. not_qualified config.jid_bare (jid_to_bare_jid msg.sender) j jid contact other)
              q (sym (handle_message-relevant fuel config msg element m has fits) ∙ h) in
          Updates-apart e jid i r (inr (λ named. named refl))
          ∙ ap (λ s. find_key e jid i s.keys) same
      | inr irrelevant ↦
          ap (found e jid i)
            (some_eq (sym h ∙ handle_message-irrelevant fuel config msg element m has irrelevant))
    ]
