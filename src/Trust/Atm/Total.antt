-- ===== src/Trust/Atm/Total.antt =====
-- The nested trust decisions come to an end: each round takes the postponed keys that it
-- decides on out of the queue.
use qxmpp.Common.{
  ℕ, zero, suc, ◌+◌, ◌≤◌, ◌<◌, ◌≡◌, refl, ap, ◌∙◌, ◌⊎◌, inl, inr, Bool, true, false, not, ◌&&◌,
  List, [], ◌∷◌, some, arith, Text, Bytes, text_eq, text_eq_refl, if◌then◌else◌, length, Bool-cases,
}
use qxmpp.Trust.Levels.{TrustSecurityPolicy, toakafa, no_security_policy, authenticated}
use qxmpp.Trust.Storage.{KeyIds, contains, values, erase_if, security_policy}
use qxmpp.Trust.Postponed.{
  UnprocessedKey, UnprocessedKeys, AtmTrustMemoryStorage, keys_for_postponed, collect_asked,
  is_asked, is_decided, remove_decided,
}
use qxmpp.Trust.Atm.{
  AtmManager, set_level, set_level_of_owners, distrust_automatically_trusted_keys, unique_keys,
  key_values, make_postponed_trust_decisions, apply_policy, authenticate, distrust, then_distrust,
  make_trust_decisions,
}

-- The key stands in the list.
abbrev Has : UnprocessedKey → List UnprocessedKey → Type 0
Has k [] = ⊥
Has k (x ∷ xs) = (x ≡ k) ⊎ Has k xs

abbrev is_chosen : List Bytes → Bool → UnprocessedKey → Bool
is_chosen senders trust k = is_asked senders k && (if trust then k.trust else not k.trust)

-- Either nothing is asked for, or there is a key that is.
collect_asked-cases :
    (senders : List Bytes) (ks : List UnprocessedKey)
    → ((trust : Bool) (out : KeyIds) → collect_asked senders trust ks out ≡ out)
      ⊎ ((k : UnprocessedKey) × Has k ks × (is_asked senders k ≡ true))
unfolding collect_asked
collect_asked-cases senders [] = inl (λ trust out. refl)
collect_asked-cases senders (k ∷ ks) = elim (Bool-cases (is_asked senders k)) [
  | inl asked ↦ inr (k, inl refl, asked)
  | inr other ↦ elim (collect_asked-cases senders ks) [
    | inl nothing ↦ inl (λ trust out. rw other (nothing trust out))
    | inr (x, here, asked) ↦ inr (x, inr here, asked)
  ]
]

contains-collect_asked :
    (senders : List Bytes) (trust : Bool) (ks : List UnprocessedKey) (out : KeyIds) (i : Bytes)
    → contains (key_values out) i ≡ true
    → contains (key_values (collect_asked senders trust ks out)) i ≡ true
unfolding collect_asked
contains-collect_asked senders trust [] out i h = h
contains-collect_asked senders trust (k ∷ ks) out i h =
    contains-collect_asked senders trust ks _ i (kept (is_chosen senders trust k))
  where
    kept :
        (b : Bool) → contains (key_values (if b then (k.owner_jid, k.id) ∷ out else out)) i ≡ true
    kept true = unfold contains key_values in ground (arith, h)
    kept false = h

-- The ID of a key that is chosen is among those collected.
contains-Has :
    (senders : List Bytes) (trust : Bool) (ks : List UnprocessedKey) (out : KeyIds)
    (k : UnprocessedKey)
    → Has k ks
    → is_chosen senders trust k ≡ true
    → contains (key_values (collect_asked senders trust ks out)) k.id ≡ true
unfolding collect_asked
contains-Has senders trust [] out k here h = absurd here
contains-Has senders trust (x ∷ ks) out k (inr later) h = contains-Has senders trust ks _ k later h
contains-Has senders trust (x ∷ ks) out k (inl e) h =
    contains-collect_asked senders trust ks _ k.id
      (rw (e, h) (unfold contains key_values in rw (text_eq_refl k.id)))

length-erase_if :
    (e : Text) (test : UnprocessedKey → Bool) (u : UnprocessedKeys)
    → length (erase_if e test u) ≤ length u
unfolding erase_if
length-erase_if e test [] = omega arith
length-erase_if e test ((f, k) ∷ u) = ground (arith, length-erase_if e test u)

length-erase_if_lt :
    (e : Text) (test : UnprocessedKey → Bool) (u : UnprocessedKeys) (k : UnprocessedKey)
    → Has k (values e u)
    → test k ≡ true
    → length (erase_if e test u) < length u
unfolding erase_if values
length-erase_if_lt e test [] k here h = absurd here
length-erase_if_lt e test ((f, x) ∷ u) k here h = elim (Bool-cases (text_eq f e)) [
  | inl same ↦ elim (Bool-cases (test x)) [
    | inl fits ↦ rw (same, fits) (omega (arith, length-erase_if e test u))
    | inr other ↦ later (λ rest. length-erase_if_lt e test u k rest h) same other (rw same at here)
  ]
  | inr apart ↦ rw apart (omega (arith, length-erase_if_lt e test u k (rw apart at here) h))
]
  where
    later :
        (Has k (values e u) → length (erase_if e test u) < length u)
        → text_eq f e ≡ true
        → test x ≡ false
        → (x ≡ k) ⊎ Has k (values e u)
        → length (if text_eq f e && test x then erase_if e test u else (f, x) ∷ erase_if e test u)
          < suc (length u)
    later ih same other (inl e') = cc (other, ap test e', h)
    later ih same other (inr rest) = rw (same, other) (omega (arith, ih rest))

-- A round of postponed decisions decides on nothing, or leaves fewer keys postponed.
round_cases :
    (e : Text) (senders : List Bytes) (s : AtmTrustMemoryStorage)
    → let a = keys_for_postponed e senders true s in
      let d = keys_for_postponed e senders false s in
      (a ≡ [])
      ⊎ (length (remove_decided e (key_values a) (key_values d) s).unprocessed
          < length s.unprocessed)
unfolding keys_for_postponed remove_decided is_decided
round_cases e senders s =
    let ks = values e s.unprocessed in
    elim (collect_asked-cases senders ks) [
      | inl nothing ↦ inl (nothing true [])
      | inr (k, here, asked) ↦ inr (
          length-erase_if_lt e _ s.unprocessed k here (
            ground (
              arith,
              asked,
              contains-Has senders true ks [] k here,
              contains-Has senders false ks [] k here,
            )))
    ]

unprocessed-apply_policy :
    (p : TrustSecurityPolicy) (e : Text) (jids : List Text) (m : AtmManager)
    → (apply_policy p e jids m).storage.unprocessed ≡ m.storage.unprocessed
unfolding apply_policy distrust_automatically_trusted_keys set_level_of_owners
unprocessed-apply_policy toakafa e jids m = refl
unprocessed-apply_policy no_security_policy e jids m = refl

enough_left :
    (n : ℕ) (s : AtmTrustMemoryStorage) (left : UnprocessedKeys) (a : KeyIds)
    → length s.unprocessed + 2 ≤ suc n
    → (a ≡ []) ⊎ (length left < length s.unprocessed)
    → (a ≡ []) ⊎ (length left + 2 ≤ n)
enough_left n s left a h (inl nothing) = inl nothing
enough_left n s left a h (inr fewer) = inr (omega arith)

-- Two more than the number of postponed keys is fuel enough, and 1 where nothing is to be
-- authenticated.
pub make_trust_decisions-Finishes :
    (n : ℕ) (e : Text) (a d : KeyIds) (m : AtmManager)
    → 1 ≤ n
    → (a ≡ []) ⊎ (length m.storage.unprocessed + 2 ≤ n)
    → (t : AtmManager) × (make_trust_decisions n e a d m ≡ some t)
unfolding make_trust_decisions authenticate make_postponed_trust_decisions
make_trust_decisions-Finishes zero e a d m h enough = absurd (omega arith)
make_trust_decisions-Finishes (suc n) e [] d m h enough = (distrust e d m, refl)
make_trust_decisions-Finishes (suc n) e (x ∷ ids) d m h (inl empty) = cc
make_trust_decisions-Finishes (suc n) e (x ∷ ids) d m h (inr enough) =
    let set = set_level e (x ∷ ids) authenticated m in
    let p = security_policy e set.storage.base in
    let jids = unique_keys (x ∷ ids) in
    let senders = key_values (x ∷ ids) in
    let u = apply_policy p e jids set in
    let e' : u.storage.unprocessed ≡ m.storage.unprocessed =
      unprocessed-apply_policy p e jids set ∙ unfold set_level in refl in
    let a' = keys_for_postponed e senders true u.storage in
    let d' = keys_for_postponed e senders false u.storage in
    let left = remove_decided e (key_values a') (key_values d') u.storage in
    let (t, ends) =
      make_trust_decisions-Finishes n e a' d' (record u { storage = left }) (omega arith)
        (enough_left n u.storage left.unprocessed a' (omega (arith, ap length e'))
          (round_cases e senders u.storage)) in
    (distrust e d t, ap (then_distrust e d) ends)

-- Trust decisions always come to an end, with fuel for two levels more than keys are postponed.
pub make_trust_decisions-total :
    (e : Text) (a d : KeyIds) (m : AtmManager)
    → (t : AtmManager) × (make_trust_decisions (length m.storage.unprocessed + 2) e a d m ≡ some t)
make_trust_decisions-total e a d m =
    make_trust_decisions-Finishes (length m.storage.unprocessed + 2) e a d m (omega arith)
      (inr (omega arith))
