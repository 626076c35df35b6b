-- ===== src/Trust/Atm/Outcome.antt =====
-- What holds after trust decisions, however deep the nested ones went.
use qxmpp.Common.{
  ℕ, zero, suc, ◌≡◌, ◌≢◌, refl, ap, ◌∙◌, ◌⊎◌, inl, inr, true, false, List, [], ◌∷◌, some, arith,
  Text, Bytes, text_eq, text_eq_refl, text_eq_iff, if◌then◌else◌, All, Option-cases, some_eq,
}
use qxmpp.Trust.Levels.{
  TrustLevel, authenticated, manually_distrusted, automatically_trusted, toakafa,
}
use qxmpp.Trust.Storage.{KeyIds, contains, security_policy, set_trust_level}
use qxmpp.Trust.Storage.Lookup.{contains_key}
use qxmpp.Trust.Postponed.{UnprocessedKeys, remove_of_senders}
use qxmpp.Trust.Atm.{
  AtmManager, set_level, unique_keys, key_values, apply_policy, authenticate, distrust,
  then_distrust, make_trust_decisions,
}
use qxmpp.Trust.Atm.Updates.{
  Owners, Queue, Updates, make_trust_decisions-Sound, Updates-trans, apply_policy-Sound,
  make_postponed-Sound, distrust-Sound,
}
use qxmpp.Trust.Atm.Effects.{
  found, is_decided, found-set_level, found-policy, Updates-is_decided, Updates-apart,
  Updates-not_automatic, relevel-is_automatic,
}

abbrev pub Any : Text → Type 0
Any _ = Unit

pub Owners-Any : (ids : KeyIds) → Owners Any ids
Owners-Any [] = tt
Owners-Any ((jid, i) ∷ ids) = (tt, Owners-Any ids)

pub Queue-Any : (e : Text) (u : UnprocessedKeys) → Queue Any e u
Queue-Any e [] = tt
Queue-Any e ((f, k) ∷ u) = (λ _. tt, Queue-Any e u)

All-Any : (jids : List Text) → All Any jids
All-Any [] = tt
All-Any (jid ∷ jids) = (tt, All-Any jids)

module _ (n : ℕ) (e : Text) (a d : KeyIds) (m t : AtmManager)
    (done : make_trust_decisions n e a d m ≡ some t) where
  -- A key that is authenticated or distrusted manually before trust decisions is one of these after
  -- them, whatever the decisions are.
  pub is_decided-make_trust_decisions :
      (e' jid : Text) (i : Bytes)
      → is_decided (found e' jid i m) ≡ true
      → is_decided (found e' jid i t) ≡ true
  is_decided-make_trust_decisions e' jid i =
      Updates-is_decided e' jid i
        (make_trust_decisions-Sound Any e n a d m t (Owners-Any a) (Owners-Any d)
          (Queue-Any e m.storage.unprocessed) done).0

  -- Trust decisions for an encryption leave each key of another encryption, and each key of an owner
  -- that neither the decisions nor the postponed keys of that encryption name, at its level.
  pub found-make_trust_decisions_apart :
      (e' jid : Text) (i : Bytes)
      → (text_eq e e' ≡ false)
        ⊎ (Owners (λ j. j ≢ jid) a
            × Owners (λ j. j ≢ jid) d
            × Queue (λ j. j ≢ jid) e m.storage.unprocessed)
      → found e' jid i t ≡ found e' jid i m
  found-make_trust_decisions_apart e' jid i (inl other) =
      Updates-apart e' jid i
        (make_trust_decisions-Sound Any e n a d m t (Owners-Any a) (Owners-Any d)
          (Queue-Any e m.storage.unprocessed) done).0
        (inl other)
  found-make_trust_decisions_apart e' jid i (inr (oa, od, q)) =
      Updates-apart e' jid i (make_trust_decisions-Sound (λ j. j ≢ jid) e n a d m t oa od q done).0
        (inr (λ named. named refl))

found-distrust :
    (e : Text) (d : KeyIds) (u : AtmManager) (jid : Text) (i : Bytes)
    → found e jid i (distrust e d u)
      ≡ (if contains_key d jid i then some manually_distrusted else found e jid i u)
unfolding distrust remove_of_senders
found-distrust e [] u jid i = unfold contains_key in refl
found-distrust e (x ∷ ids) u jid i =
    found-set_level e (x ∷ ids) manually_distrusted u e jid i ∙ rw (text_eq_refl e)

-- Trust decisions that came to an end went through authentication, then distrusting.
make_trust_decisions-cases :
    (n : ℕ) (e : Text) (a d : KeyIds) (m t : AtmManager)
    → make_trust_decisions n e a d m ≡ some t
    → (k : ℕ) × (u : AtmManager) × (authenticate (make_trust_decisions k e) e a m ≡ some u)
      × (distrust e d u ≡ t)
unfolding make_trust_decisions
make_trust_decisions-cases zero e a d m t h = absurd (ground arith)
make_trust_decisions-cases (suc k) e a d m t h =
    elim (Option-cases (authenticate (make_trust_decisions k e) e a m)) [
      | inl stopped ↦ cc (rw (stopped, then_distrust) at h)
      | inr (u, done) ↦ (k, u, done, some_eq (rw (done, then_distrust) at h))
    ]

-- The state in which the keys `x ∷ ids` have just been authenticated.
abbrev authenticated_first : Text → Text × Bytes → KeyIds → AtmManager → AtmManager
authenticated_first e x ids = set_level e (x ∷ ids) authenticated

-- The same, after the step of the security policy.
abbrev policy_applied : Text → Text × Bytes → KeyIds → AtmManager → AtmManager
policy_applied e x ids m =
    let set = authenticated_first e x ids m in
    apply_policy (security_policy e set.storage.base) e (unique_keys (x ∷ ids)) set

authenticate-after :
    (k : ℕ) (e : Text) (x : Text × Bytes) (ids : KeyIds) (m u : AtmManager)
    → authenticate (make_trust_decisions k e) e (x ∷ ids) m ≡ some u
    → Updates Any e (policy_applied e x ids m) u
unfolding authenticate
authenticate-after k e x ids m u h =
    (make_postponed-Sound Any e (make_trust_decisions k e) (key_values (x ∷ ids)) _ u
      (make_trust_decisions-Sound Any e k) (Queue-Any e _) h).0

not_contains_key-nil : (jid : Text) (i : Bytes) → contains_key [] jid i ≢ true
unfolding contains_key
not_contains_key-nil jid i h = cc

is_decided-authenticate :
    (k : ℕ) (e : Text) (a : KeyIds) (m u : AtmManager) (jid : Text) (i : Bytes)
    → authenticate (make_trust_decisions k e) e a m ≡ some u
    → contains_key a jid i ≡ true
    → is_decided (found e jid i u) ≡ true
is_decided-authenticate k e [] m u jid i h c = absurd (not_contains_key-nil jid i c)
is_decided-authenticate k e (x ∷ ids) m u jid i h c =
    let set = authenticated_first e x ids m in
    Updates-is_decided e jid i
      (Updates-trans Any e
        (apply_policy-Sound Any e _ (unique_keys (x ∷ ids)) set (All-Any _) (Queue-Any e _)).0
        (authenticate-after k e x ids m u h))
      (rw (found-set_level e (x ∷ ids) authenticated m e jid i, text_eq_refl e, c))

not_automatic-policy :
    (e : Text) (jids : List Text) (m : AtmManager) (jid : Text) (i : Bytes)
    → contains jids jid ≡ true
    → found e jid i (apply_policy toakafa e jids m) ≢ some automatically_trusted
unfolding apply_policy
not_automatic-policy e jids m jid i c now =
    let r = relevel-is_automatic _ _ (rw (found-policy e jids m e jid i) at now) in
    cc (rw (text_eq_refl e, c) at r.1)

contains-unique_keys :
    (ids : KeyIds) (jid : Text) (i : Bytes)
    → contains_key ids jid i ≡ true
    → contains (unique_keys ids) jid ≡ true
unfolding contains_key unique_keys contains
contains-unique_keys [] jid i h = cc
contains-unique_keys ((j, k) ∷ ids) jid i h =
    ground
      (arith, contains-unique_keys ids jid i, text_eq_iff j jid, ap (contains (unique_keys ids)))

security_policy-set_level :
    (e : Text) (ids : KeyIds) (level : TrustLevel) (m : AtmManager)
    → security_policy e (set_level e ids level m).storage.base ≡ security_policy e m.storage.base
unfolding set_level set_trust_level security_policy
security_policy-set_level e ids level m = refl

not_automatic-authenticate :
    (f : ℕ) (e : Text) (a : KeyIds) (m u : AtmManager) (jid : Text) (i k : Bytes)
    → authenticate (make_trust_decisions f e) e a m ≡ some u
    → security_policy e m.storage.base ≡ toakafa
    → contains_key a jid i ≡ true
    → found e jid k u ≢ some automatically_trusted
not_automatic-authenticate f e [] m u jid i k h p c = absurd (not_contains_key-nil jid i c)
not_automatic-authenticate f e (x ∷ ids) m u jid i k h p c =
    Updates-not_automatic e jid k (authenticate-after f e x ids m u h) (
      rw (security_policy-set_level e (x ∷ ids) authenticated m, p)
        (not_automatic-policy e (unique_keys (x ∷ ids)) _ jid k
          (contains-unique_keys (x ∷ ids) jid i c)))

module _ (n : ℕ) (e : Text) (a d : KeyIds) (m t : AtmManager)
    (done : make_trust_decisions n e a d m ≡ some t) where
  -- After trust decisions each key that was to be distrusted is distrusted manually, and each key that was to be
  -- authenticated is authenticated or, by another of the decisions, distrusted manually.
  pub found-make_trust_decisions :
      (jid : Text) (i : Bytes)
      → (contains_key d jid i ≡ true → found e jid i t ≡ some manually_distrusted)
        × (contains_key a jid i ≡ true → is_decided (found e jid i t) ≡ true)
  found-make_trust_decisions jid i =
      let (k, u, done', last) = make_trust_decisions-cases n e a d m t done in
      (
        λ c. rw (← last, found-distrust e d u jid i, c),
        λ c. rw (← last) (
            Updates-is_decided e jid i (distrust-Sound Any e d u (Owners-Any d) (Queue-Any e _)).0
              (is_decided-authenticate k e a m u jid i done' c)),
      )

  -- Under the security policy TOAKAFA, after trust decisions that authenticate a key of an owner, no
  -- key of that owner is trusted automatically.
  pub not_automatic-make_trust_decisions :
      (jid : Text) (i : Bytes)
      → security_policy e m.storage.base ≡ toakafa
      → contains_key a jid i ≡ true
      → (k : Bytes) → found e jid k t ≢ some automatically_trusted
  not_automatic-make_trust_decisions jid i p c k =
      let (f, u, done', last) = make_trust_decisions-cases n e a d m t done in
      rw (← last) (
        Updates-not_automatic e jid k (distrust-Sound Any e d u (Owners-Any d) (Queue-Any e _)).0
          (not_automatic-authenticate f e a m u jid i k done' p c))
