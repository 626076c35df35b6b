-- ===== src/Trust/Atm/Messages.antt =====
-- What a trust message leads to, by the key of its sender.
use mathlib.Core.List.{append-nil, append_assoc}
use qxmpp.Common.{
  ℕ, suc, ◌+◌, ◌≡◌, refl, ap, ◌∙◌, inl, inr, Bool, true, false, List, [], ◌∷◌, ◌++◌, some, arith,
  Text, if◌then◌else◌, length, Bool-cases, Option-cases,
}
use qxmpp.Jid.{jid_to_bare_jid}
use qxmpp.Trust.Levels.{authenticated, level_eq}
use qxmpp.Trust.Storage.{trust_level}
use qxmpp.Trust.Postponed.{KeyOwner, add_keys_for_postponed, add_owners}
use qxmpp.Trust.Atm.{
  AtmManager, TrustMessageElement, Message, Config, Decisions, is_qualified, is_relevant,
  collect_decisions, no_decisions, key_or_empty, decisions_of, process, handle_element,
  handle_message, make_trust_decisions, authenticate, distrust,
}
use qxmpp.Trust.Atm.Total.{make_trust_decisions-Finishes}

-- The key owners of a message that its sender may decide on.
abbrev pub qualified : Text → Text → List KeyOwner → List KeyOwner
qualified own_jid sender [] = []
qualified own_jid sender (o ∷ os) =
    if is_qualified own_jid sender o.jid
    then o ∷ qualified own_jid sender os
    else qualified own_jid sender os

-- Whether the key of the message's sender is authenticated.
abbrev pub has_authenticated_sender : Message → TrustMessageElement → AtmManager → Bool
has_authenticated_sender msg element m =
    level_eq
      (trust_level element.encryption (jid_to_bare_jid msg.sender) (key_or_empty msg.sender_key)
        m.storage.base)
      authenticated

pub collect_decisions-untrusted :
    (own_jid sender : Text) (os : List KeyOwner) (d : Decisions)
    → collect_decisions own_jid sender false os d
      ≡ record d { postponed = d.postponed ++ qualified own_jid sender os }
unfolding collect_decisions
collect_decisions-untrusted own_jid sender [] d = simp append-nil
collect_decisions-untrusted own_jid sender (o ∷ os) d =
    elim (Bool-cases (is_qualified own_jid sender o.jid)) [
      | inl fit ↦ rw fit (collect_decisions-untrusted own_jid sender os _ ∙ simp append_assoc)
      | inr other ↦ rw other (collect_decisions-untrusted own_jid sender os d)
    ]

pub postponed-trusted :
    (own_jid sender : Text) (os : List KeyOwner) (d : Decisions)
    → (collect_decisions own_jid sender true os d).postponed ≡ d.postponed
unfolding collect_decisions
postponed-trusted own_jid sender [] d = refl
postponed-trusted own_jid sender (o ∷ os) d =
    elim (Bool-cases (is_qualified own_jid sender o.jid)) [
      | inl fit ↦ rw (fit, collect_decisions) (postponed-trusted own_jid sender os _)
      | inr other ↦ rw (other, collect_decisions) (postponed-trusted own_jid sender os d)
    ]

pub decide_nothing :
    (n : ℕ) (e : Text) (m : AtmManager) → make_trust_decisions (suc n) e [] [] m ≡ some m
unfolding make_trust_decisions authenticate distrust
decide_nothing n e m = refl

-- A trust message whose sender's key is not authenticated changes no trust level and leads to no signal: the decisions on
-- the owners that its sender may decide on are only kept for later, under the sender's key.
pub handle_message-unauthenticated :
    (fuel : ℕ) (config : Config) (msg : Message) (element : TrustMessageElement) (m : AtmManager)
    → msg.trust_message ≡ some element
    → is_relevant config msg element ≡ true
    → has_authenticated_sender msg element m ≡ false
    → handle_message (suc fuel) config msg m
      ≡ some (record m {
        storage =
            add_keys_for_postponed element.encryption
              (key_or_empty msg.sender_key)
              (qualified config.jid_bare (jid_to_bare_jid msg.sender) element.key_owners)
              m.storage;
      })
unfolding handle_message process decisions_of
handle_message-unauthenticated fuel config msg element m has fits untrusted =
    ap (handle_element (suc fuel) config msg m) has
    ∙ rw fits
        (rw untrusted (rw collect_decisions-untrusted (decide_nothing fuel element.encryption _)))

pub handle_message-relevant :
    (fuel : ℕ) (config : Config) (msg : Message) (element : TrustMessageElement) (m : AtmManager)
    → msg.trust_message ≡ some element
    → is_relevant config msg element ≡ true
    → handle_message fuel config msg m ≡ process fuel config msg element m
unfolding handle_message
handle_message-relevant fuel config msg element m has fits =
    ap (handle_element fuel config msg m) has ∙ rw fits

pub handle_message-irrelevant :
    (fuel : ℕ) (config : Config) (msg : Message) (element : TrustMessageElement) (m : AtmManager)
    → msg.trust_message ≡ some element
    → is_relevant config msg element ≡ false
    → handle_message fuel config msg m ≡ some m
unfolding handle_message
handle_message-irrelevant fuel config msg element m has other =
    ap (handle_element fuel config msg m) has ∙ rw other

process-total :
    (config : Config) (msg : Message) (element : TrustMessageElement) (m : AtmManager)
    → (t : AtmManager) × (process (length m.storage.unprocessed + 2) config msg element m ≡ some t)
unfolding process decisions_of add_keys_for_postponed
process-total config msg element m = elim (Bool-cases (has_authenticated_sender msg element m)) [
  | inl trusted ↦
      let sender = jid_to_bare_jid msg.sender in
      let none_new = postponed-trusted config.jid_bare sender element.key_owners no_decisions in
      rw trusted (
        make_trust_decisions-Finishes _ _ _ _ _ (omega arith)
          (inr (rw none_new (unfold add_owners in omega arith))))
  | inr untrusted ↦
      rw (untrusted, collect_decisions-untrusted)
        (make_trust_decisions-Finishes _ _ [] [] _ (omega arith) (inl refl))
]

-- Every message is handled to the end, with fuel for two levels more than keys are postponed.
pub handle_message-total :
    (config : Config) (msg : Message) (m : AtmManager)
    → (t : AtmManager) × (handle_message (length m.storage.unprocessed + 2) config msg m ≡ some t)
unfolding handle_message
handle_message-total config msg m = elim (Option-cases msg.trust_message) [
  | inl nothing ↦ (m, ap (handle_element _ config msg m) nothing)
  | inr (element, has) ↦ elim (Bool-cases (is_relevant config msg element)) [
    | inl fits ↦
        let (t, ends) = process-total config msg element m in
        (t, handle_message-relevant _ config msg element m has fits ∙ ends)
    | inr other ↦ (m, ap (handle_element _ config msg m) has ∙ rw other)
  ]
]
