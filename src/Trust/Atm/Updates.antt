-- ===== src/Trust/Atm/Updates.antt =====
-- All that trust decisions do to the state is a sequence of updates of three kinds.
use mathlib.Core.Path.{subst}
use qxmpp.Common.{
  ℕ, zero, suc, ◌≡◌, refl, Bool, true, false, not, ◌&&◌, List, [], ◌∷◌, some, arith, Text, Bytes,
  text_eq, if◌then◌else◌, All, Bool-cases, inl, inr, Option-cases, some_eq,
}
use qxmpp.Trust.Levels.{
  TrustLevel, authenticated, manually_distrusted, TrustSecurityPolicy, no_security_policy, toakafa,
}
use qxmpp.Trust.Storage.{KeyIds, contains, values, erase_if, security_policy}
use qxmpp.Trust.Postponed.{
  UnprocessedKey, UnprocessedKeys, AtmTrustMemoryStorage, keys_for_postponed, collect_asked,
  is_asked, is_decided, remove_decided, remove_of_senders,
}
use qxmpp.Trust.Atm.{
  AtmManager, Decide, set_level, set_level_of_owners, distrust_automatically_trusted_keys,
  unique_keys, key_values, make_postponed_trust_decisions, apply_policy, authenticate, distrust,
  then_distrust, make_trust_decisions,
}

abbrev pub is_decision : TrustLevel → Bool
is_decision authenticated = true
is_decision manually_distrusted = true
is_decision _ = false

abbrev pub Owners : (Text → Type 0) → KeyIds → Type 0
Owners P [] = Unit
Owners P ((jid, i) ∷ ids) = P jid × Owners P ids

-- The owners of the postponed keys of an encryption.
abbrev pub Queue : (Text → Type 0) → Text → UnprocessedKeys → Type 0
Queue P e [] = Unit
Queue P e ((f, k) ∷ u) = ((text_eq f e ≡ true) → P k.owner_jid) × Queue P e u

-- From `m` by trust decisions on keys of the encryption `e` whose owners satisfy `P`, by the security
-- policy for such owners, and by changes of the postponed keys.
pub data Updates (P : Text → Type 0) (e : Text) (m : AtmManager) : AtmManager → Type 0 where
  start : Updates P e m m
  levels :
      {t : AtmManager} (ids : KeyIds) (level : TrustLevel)
      → is_decision level ≡ true
      → Owners P ids
      → Updates P e m t
      → Updates P e m (set_level e ids level t)
  policy :
      {t : AtmManager} (jids : List Text)
      → All P jids
      → Updates P e m t
      → Updates P e m (distrust_automatically_trusted_keys e jids t)
  queue :
      {t : AtmManager} (u : UnprocessedKeys)
      → Updates P e m t
      → Updates P e m (record t { storage = record (t.storage) { unprocessed = u } })

module _ (P : Text → Type 0) (e : Text) where
  pub Updates-trans : {m t u : AtmManager} → Updates P e m t → Updates P e t u → Updates P e m u
  Updates-trans s start = s
  Updates-trans s (levels ids level d o r) = levels ids level d o (Updates-trans s r)
  Updates-trans s (policy jids o r) = policy jids o (Updates-trans s r)
  Updates-trans s (queue u r) = queue u (Updates-trans s r)

  Queue-erase_if :
      (test : UnprocessedKey → Bool) (u : UnprocessedKeys)
      → Queue P e u
      → Queue P e (erase_if e test u)
  unfolding erase_if
  Queue-erase_if test [] q = tt
  Queue-erase_if test ((f, k) ∷ u) q = elim (Bool-cases (text_eq f e && test k)) [
    | inl gone ↦ rw gone (Queue-erase_if test u q.1)
    | inr kept ↦ rw kept (q.0, Queue-erase_if test u q.1)
  ]

  All-values :
      (u : UnprocessedKeys) → Queue P e u → All (λ (k : UnprocessedKey). P k.owner_jid) (values e u)
  unfolding values
  All-values [] q = tt
  All-values ((f, k) ∷ u) q = elim (Bool-cases (text_eq f e)) [
    | inl here ↦ rw here (q.0 here, All-values u q.1)
    | inr elsewhere ↦ rw elsewhere (All-values u q.1)
  ]

  Owners-collect_asked :
      (senders : List Bytes) (trust : Bool) (ks : List UnprocessedKey) (out : KeyIds)
      → All (λ (k : UnprocessedKey). P k.owner_jid) ks
      → Owners P out
      → Owners P (collect_asked senders trust ks out)
  unfolding collect_asked
  Owners-collect_asked senders trust [] out q o = o
  Owners-collect_asked senders trust (k ∷ ks) out q o =
      Owners-collect_asked senders trust ks _ q.1
        (asked (is_asked senders k && (if trust then k.trust else not k.trust)))
    where
      asked : (b : Bool) → Owners P (if b then (k.owner_jid, k.id) ∷ out else out)
      asked true = (q.0, o)
      asked false = o

  All-unique_keys : (ids : KeyIds) → Owners P ids → All P (unique_keys ids)
  unfolding unique_keys
  All-unique_keys [] o = tt
  All-unique_keys ((jid, i) ∷ ids) o = elim (Bool-cases (contains (unique_keys ids) jid)) [
    | inl old ↦ rw old (All-unique_keys ids o.1)
    | inr new ↦ rw new (o.0, All-unique_keys ids o.1)
  ]

  Owners-keys_for_postponed :
      (senders : List Bytes) (trust : Bool) (s : AtmTrustMemoryStorage)
      → Queue P e s.unprocessed
      → Owners P (keys_for_postponed e senders trust s)
  unfolding keys_for_postponed
  Owners-keys_for_postponed senders trust s q =
      Owners-collect_asked senders trust (values e s.unprocessed) [] (All-values s.unprocessed q) tt

  -- A step leads to `t` by updates, and keeps the owners of postponed keys within `P`.
  abbrev pub Sound : AtmManager → AtmManager → Type 0
  Sound m t = Updates P e m t × Queue P e t.storage.unprocessed

  abbrev pub SoundDecide : Decide → Type 0
  SoundDecide decide =
      (a d : KeyIds) (m t : AtmManager)
      → Owners P a
      → Owners P d
      → Queue P e m.storage.unprocessed
      → decide a d m ≡ some t
      → Sound m t

  pub make_postponed-Sound :
      (decide : Decide) (senders : List Bytes) (m t : AtmManager)
      → SoundDecide decide
      → Queue P e m.storage.unprocessed
      → make_postponed_trust_decisions decide e senders m ≡ some t
      → Sound m t
  unfolding make_postponed_trust_decisions remove_decided
  make_postponed-Sound decide senders m t sound q h =
      let authenticating = keys_for_postponed e senders true m.storage in
      let distrusting = keys_for_postponed e senders false m.storage in
      let test = is_decided (key_values authenticating) (key_values distrusting) in
      let (r, q') =
        sound authenticating distrusting _ t (Owners-keys_for_postponed senders true m.storage q)
          (Owners-keys_for_postponed senders false m.storage q)
          (Queue-erase_if test m.storage.unprocessed q) h in
      (Updates-trans (queue (erase_if e test m.storage.unprocessed) start) r, q')

  pub apply_policy-Sound :
      (p : TrustSecurityPolicy) (jids : List Text) (m : AtmManager)
      → All P jids
      → Queue P e m.storage.unprocessed
      → Sound m (apply_policy p e jids m)
  unfolding apply_policy distrust_automatically_trusted_keys set_level_of_owners
  apply_policy-Sound toakafa jids m o q = (policy jids o start, q)
  apply_policy-Sound no_security_policy jids m o q = (start, q)

  pub authenticate-Sound :
      (decide : Decide) (ids : KeyIds) (m t : AtmManager)
      → SoundDecide decide
      → Owners P ids
      → Queue P e m.storage.unprocessed
      → authenticate decide e ids m ≡ some t
      → Sound m t
  unfolding authenticate
  authenticate-Sound decide [] m t sound o q h = subst (Sound m) (some_eq h) (start, q)
  authenticate-Sound decide (x ∷ ids) m t sound o q h =
      let set = set_level e (x ∷ ids) authenticated m in
      let p = security_policy e set.storage.base in
      let (r, q') =
        apply_policy-Sound p (unique_keys (x ∷ ids)) set (All-unique_keys (x ∷ ids) o)
          (unfold set_level in q) in
      let (r', q'') = make_postponed-Sound decide (key_values (x ∷ ids)) _ t sound q' h in
      (Updates-trans (levels (x ∷ ids) authenticated refl o start) (Updates-trans r r'), q'')

  pub distrust-Sound :
      (ids : KeyIds) (m : AtmManager)
      → Owners P ids
      → Queue P e m.storage.unprocessed
      → Sound m (distrust e ids m)
  unfolding distrust remove_of_senders set_level
  distrust-Sound [] m o q = (start, q)
  distrust-Sound (x ∷ ids) m o q =
      let test = λ (k : UnprocessedKey). contains (key_values (x ∷ ids)) k.sender_key_id in
      (
        queue (erase_if e test m.storage.unprocessed)
            (levels (x ∷ ids) manually_distrusted refl o start),
        Queue-erase_if test m.storage.unprocessed q,
      )

  -- Trust decisions for owners within `P`, where the postponed keys have owners within `P` too, are updates
  -- for such owners.
  pub make_trust_decisions-Sound : (n : ℕ) → SoundDecide (make_trust_decisions n e)
  unfolding make_trust_decisions
  make_trust_decisions-Sound zero a d m t oa od q h = absurd (ground arith)
  make_trust_decisions-Sound (suc n) a d m t oa od q h =
      elim (Option-cases (authenticate (make_trust_decisions n e) e a m)) [
        | inl stopped ↦ cc (rw (stopped, then_distrust) at h)
        | inr (u, done) ↦
            let (r, q') =
              authenticate-Sound (make_trust_decisions n e) a m u (make_trust_decisions-Sound n) oa
                q done in
            let (r', q'') = distrust-Sound d u od q' in
            subst (Sound m) (some_eq (rw (done, then_distrust) at h)) (Updates-trans r r', q'')
      ]
