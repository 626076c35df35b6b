-- ===== src/Trust/Atm/Manual/Sending.antt =====
-- Trust decisions made by hand come to an end, and to whom they send trust messages.
use qxmpp.Common.{
  ℕ, zero, suc, ◌+◌, ◌≡◌, ◌≢◌, ◌⊎◌, inl, inr, refl, sym, ◌∙◌, ap, Bool, true, false, not, ◌&&◌,
  List, [], ◌∷◌, Option, none, some, some_eq, Text, Bytes, text_eq, text_eq_iff, length, arith,
  Bool-cases, All, All-append, if◌then◌else◌,
}
use qxmpp.Trust.Levels.{no_security_policy, toakafa, TrustSecurityPolicy}
use qxmpp.Trust.Storage.{KeyIds, remove}
use qxmpp.Trust.Postponed.{KeyOwner}
use qxmpp.Trust.Atm.{
  AtmManager, TrustMessage, Config, unique_keys, make_trust_decisions, authenticate, distrust,
  then_distrust, apply_policy, make_postponed_trust_decisions, set_level, set_level_of_owners,
  distrust_automatically_trusted_keys,
}
use qxmpp.Trust.Atm.Total.{make_trust_decisions-total}
use qxmpp.Trust.Atm.Manual.{
  Manual, send_trust_message, send_each, send_own_keys, send_contact_keys, after_own_keys, decide,
  after_contact_keys, decide_manually, manual_of, make_manual_decisions, is_void, has_none,
  own_owner,
}

send_each-storage :
    (e : Text) (os : List KeyOwner) (jids : List Text) (m : AtmManager)
    → (send_each e os jids m).storage ≡ m.storage
unfolding send_each send_trust_message
send_each-storage e os [] m = refl
send_each-storage e os (jid ∷ jids) m = send_each-storage e os jids (send_trust_message e os jid m)

send_own_keys-storage :
    (b : Bool) (x : Manual) (m : AtmManager) → (send_own_keys b x m).storage ≡ m.storage
unfolding send_own_keys send_trust_message
send_own_keys-storage b x m =
    let contacts = remove x.own_jid x.authenticated_keys in
    let same = send_each-storage x.encryption (x.owner ∷ []) (unique_keys contacts) m in
    ground (arith, same)

send_contact_keys-storage :
    (x : Manual) (m : AtmManager) → (send_contact_keys x m).storage ≡ m.storage
unfolding send_contact_keys send_trust_message
send_contact_keys-storage x m = ground arith

some_if :
    (b : Bool) (s t : AtmManager) → (u : AtmManager) × ((if b then some s else some t) ≡ some u)
some_if true s t = (s, refl)
some_if false s t = (t, refl)

after_own_keys-total :
    (x : Manual) (m : AtmManager) → (t : AtmManager) × (after_own_keys x (some m) ≡ some t)
unfolding after_own_keys
after_own_keys-total x m = some_if _ _ _

after_contact_keys-total :
    (x : Manual) (m : AtmManager) → (t : AtmManager) × (after_contact_keys x (some m) ≡ some t)
unfolding after_contact_keys
after_contact_keys-total x m = some_if _ _ _

sent-apply_policy :
    (p : TrustSecurityPolicy) (e : Text) (jids : List Text) (m : AtmManager)
    → (apply_policy p e jids m).sent ≡ m.sent
unfolding apply_policy distrust_automatically_trusted_keys set_level_of_owners
sent-apply_policy toakafa e jids m = refl
sent-apply_policy no_security_policy e jids m = refl

sent-distrust : (e : Text) (d : KeyIds) (m : AtmManager) → (distrust e d m).sent ≡ m.sent
unfolding distrust set_level
sent-distrust e [] m = refl
sent-distrust e (x ∷ d) m = refl

then_distrust-cases :
    (e : Text) (d : KeyIds) (t : AtmManager) (o : Option AtmManager)
    → then_distrust e d o ≡ some t
    → (u : AtmManager) × (o ≡ some u) × (distrust e d u ≡ t)
then_distrust-cases e d t none h = cc
then_distrust-cases e d t (some u) h = (u, refl, some_eq h)

-- Decisions send nothing themselves.
sent-make_trust_decisions :
    (n : ℕ) (e : Text) (a d : KeyIds) (m t : AtmManager)
    → make_trust_decisions n e a d m ≡ some t
    → t.sent ≡ m.sent
unfolding make_trust_decisions authenticate make_postponed_trust_decisions set_level
sent-make_trust_decisions zero e a d m t h = cc
sent-make_trust_decisions (suc n) e [] d m t h =
    ap (λ u. u.sent) (sym (some_eq h)) ∙ sent-distrust e d m
sent-make_trust_decisions (suc n) e (x ∷ a) d m t h =
    let (u, decided, last) =
      then_distrust-cases e d t (authenticate (make_trust_decisions n e) e (x ∷ a) m) h in
    ap (λ u. u.sent) (sym last)
    ∙ sent-distrust e d u
    ∙ sent-make_trust_decisions n e _ _ _ u decided
    ∙ sent-apply_policy _ _ _ _

decide-total :
    (x : Manual) (n : AtmManager) (k : ℕ)
    → k ≡ length n.storage.unprocessed + 2
    → (t : AtmManager) × (decide k x n ≡ some t)
decide-total x n k e = rw e (make_trust_decisions-total x.encryption _ _ n)

total :
    (b : Bool) (x : Manual) (m : AtmManager)
    → (t : AtmManager) × (decide_manually (length m.storage.unprocessed + 2) b x m ≡ some t)
unfolding decide_manually
total b x m = elim (Bool-cases (is_void x.owner)) [
  | inl y ↦ rw y (m, refl)
  | inr n ↦ elim (Bool-cases (text_eq x.owner.jid x.own_jid)) [
    | inl o ↦
        let k = length m.storage.unprocessed + 2 in
        let (u, e) =
          decide-total x (send_own_keys b x m) k
            (ap (λ s. length s.unprocessed + 2) (sym (send_own_keys-storage b x m))) in
        rw (n, o, e) (after_own_keys-total x u)
    | inr o ↦
        let k = length m.storage.unprocessed + 2 in
        let (u, e) =
          decide-total x (send_contact_keys x m) k
            (ap (λ s. length s.unprocessed + 2) (sym (send_contact_keys-storage x m))) in
        rw (n, o, e) (after_contact_keys-total x u)
  ]
]

-- The sender's own account or the contact `jid`.
abbrev pub IsConcerned : Text → Text → TrustMessage → Type 0
IsConcerned own jid t = (t.recipient ≡ own) ⊎ (t.recipient ≡ jid)

send-IsConcerned :
    (x : Manual) (m : AtmManager)
    → All (IsConcerned x.own_jid x.owner.jid) m.sent
    → All (IsConcerned x.own_jid x.owner.jid) (send_contact_keys x m).sent
unfolding send_contact_keys send_trust_message
send-IsConcerned x m sent = elim (Bool-cases (has_none (own_owner x).trusted_keys)) [
  | inl y ↦ rw y sent
  | inr n ↦
      rw n (All-append (IsConcerned x.own_jid x.owner.jid) m.sent (_ ∷ []) sent (inl refl, tt))
]

after-IsConcerned :
    (x : Manual) (o : Option AtmManager) (t : AtmManager)
    → after_contact_keys x o ≡ some t
    → ((u : AtmManager) → o ≡ some u → All (IsConcerned x.own_jid x.owner.jid) u.sent)
    → All (IsConcerned x.own_jid x.owner.jid) t.sent
unfolding after_contact_keys send_trust_message
after-IsConcerned x none t h before = cc
after-IsConcerned x (some u) t h before =
    let sent = before u refl in
    elim (Bool-cases (not (has_none x.owner.trusted_keys) && not (is_void (own_owner x)))) [
      | inl y ↦
          let same : after_contact_keys x (some u)
              ≡ some (send_trust_message x.encryption (own_owner x ∷ []) x.owner.jid u) =
            rw y in
          rw (← some_eq (sym same ∙ h))
            (All-append (IsConcerned x.own_jid x.owner.jid) u.sent (_ ∷ []) sent (inr refl, tt))
      | inr n ↦
          let same : after_contact_keys x (some u) ≡ some u = rw n in
          rw (← some_eq (sym same ∙ h)) sent
    ]

decide_manually-IsConcerned :
    (fuel : ℕ) (b : Bool) (x : Manual) (m t : AtmManager)
    → decide_manually fuel b x m ≡ some t
    → x.owner.jid ≢ x.own_jid
    → All (IsConcerned x.own_jid x.owner.jid) m.sent
    → All (IsConcerned x.own_jid x.owner.jid) t.sent
unfolding decide_manually
decide_manually-IsConcerned fuel b x m t h other sent = elim (Bool-cases (is_void x.owner)) [
  | inl y ↦
      let same : decide_manually fuel b x m ≡ some m = rw y in rw (← some_eq (sym same ∙ h)) sent
  | inr n ↦
      let foreign : text_eq x.owner.jid x.own_jid ≡ false =
        ground (arith, text_eq_iff x.owner.jid x.own_jid) in
      let contact : decide_manually fuel b x m
          ≡ after_contact_keys x (decide fuel x (send_contact_keys x m)) =
        rw (n, foreign) in
      after-IsConcerned x (decide fuel x (send_contact_keys x m)) t (sym contact ∙ h) (λ u decided.
        rw (sent-make_trust_decisions fuel x.encryption _ _ (send_contact_keys x m) u decided)
          (send-IsConcerned x m sent))
]

-- With fuel for two levels more than keys are postponed, decisions made by hand come to an end.
pub make_manual_decisions-total :
    (config : Config) (carbons_disabled : Bool) (e jid : Text) (a d : List Bytes) (m : AtmManager)
    → (t : AtmManager) × (make_manual_decisions
          (length m.storage.unprocessed + 2)
          config
          carbons_disabled
          e
          jid
          a
          d
          m
        ≡ some t)
unfolding make_manual_decisions
make_manual_decisions-total config carbons_disabled e jid a d m =
    total carbons_disabled (manual_of config e jid a d m) m

-- Decisions on the keys of a contact send trust messages to nobody but the own account and that
-- contact.
pub make_manual_decisions-IsConcerned :
    (fuel : ℕ) (config : Config) (carbons_disabled : Bool) (e jid : Text) (a d : List Bytes)
    (m t : AtmManager)
    → make_manual_decisions fuel config carbons_disabled e jid a d m ≡ some t
    → jid ≢ config.jid_bare
    → All (IsConcerned config.jid_bare jid) m.sent
    → All (IsConcerned config.jid_bare jid) t.sent
unfolding make_manual_decisions manual_of
make_manual_decisions-IsConcerned fuel config carbons_disabled e jid a d m t h other sent =
    decide_manually-IsConcerned fuel carbons_disabled (manual_of config e jid a d m) m t h other
      sent
