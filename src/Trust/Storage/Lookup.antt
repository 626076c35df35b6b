-- ===== src/Trust/Storage/Lookup.antt =====
-- The level under which a key is found, after each operation that changes the entries.
use qxmpp.Common.{
  ◌≡◌, refl, ◌∙◌, Bool, true, false, ◌&&◌, ◌||◌, List, [], ◌∷◌, Option, none, some, arith, Text,
  Bytes, text_eq, text_eq_iff, text_eq_comm, if◌then◌else◌, Bool-cases, Option-cases, inl, inr,
}
use qxmpp.Trust.Levels.{TrustLevel, level_eq, level_eq_iff}
use qxmpp.Trust.Storage.{
  Key, Keys, KeyIds, TrustMemoryStorage, contains, fits, find_key, set_key, set_one, set_each,
  set_trust_level, insert_keys, add_keys, is_to_change, change_levels, set_trust_level_of_owners,
}

-- Whether two keys of two encryptions are one.
abbrev pub same_key : Text → Text → Bytes → Text → Text → Bytes → Bool
same_key e jid i e' jid' i' = text_eq e e' && (text_eq i i' && text_eq jid jid')

-- QMultiHash::contains(key, value).
unfoldable pub contains_key : KeyIds → Text → Bytes → Bool
contains_key [] jid i = false
contains_key ((j, k) ∷ xs) jid i = text_eq k i && text_eq j jid || contains_key xs jid i

fits-same_key :
    (e jid : Text) (i : Bytes) (e' jid' : Text) (i' : Bytes) (x : Text × Key)
    → fits e jid i x ≡ true
    → fits e' jid' i' x ≡ same_key e jid i e' jid' i'
unfolding fits
fits-same_key e jid i e' jid' i' (f, k) h =
    let a : f ≡ e = ground (arith, text_eq_iff f e) in
    let b : k.id ≡ i = ground (arith, text_eq_iff k.id i) in
    let c : k.owner_jid ≡ jid = ground (arith, text_eq_iff k.owner_jid jid) in cc

fits-set_level :
    (e jid : Text) (i : Bytes) (x : Text × Key) (level : TrustLevel)
    → fits e jid i (x.0, record (x.1) { trust_level = level }) ≡ fits e jid i x
unfolding fits
fits-set_level e jid i x level = refl

fits-of_same_key :
    (e jid : Text) (i : Bytes) (e' jid' : Text) (i' : Bytes) (x : Text × Key)
    → same_key e jid i e' jid' i' ≡ true
    → fits e' jid' i' x ≡ fits e jid i x
fits-of_same_key e jid i e' jid' i' x h =
    let a : e ≡ e' = ground (arith, text_eq_iff e e') in
    let b : i ≡ i' = ground (arith, text_eq_iff i i') in
    let c : jid ≡ jid' = ground (arith, text_eq_iff jid jid') in cc

-- The level `new`, where there was one.
abbrev pub replaced : TrustLevel → Option TrustLevel → Option TrustLevel
replaced new none = none
replaced new (some old) = some new

pub find_key-set_key :
    (e jid : Text) (i : Bytes) (e' jid' : Text) (i' : Bytes) (level : TrustLevel) (ks : Keys)
    → find_key e' jid' i' (set_key e jid i level ks) ≡ (
        if same_key e jid i e' jid' i'
        then replaced level (find_key e' jid' i' ks)
        else find_key e' jid' i' ks)
unfolding find_key set_key
find_key-set_key e jid i e' jid' i' level [] = ground arith
find_key-set_key e jid i e' jid' i' level (x ∷ ks) = elim (Bool-cases (fits e jid i x)) [
  | inl hit ↦
      rw hit
        (ground (arith, fits-same_key e jid i e' jid' i' x hit, fits-set_level e' jid' i' x level))
  | inr miss ↦ rw miss (
      ground (
        arith,
        find_key-set_key e jid i e' jid' i' level ks,
        fits-of_same_key e jid i e' jid' i' x,
      ))
]

pub find_key-of_same_key :
    (e jid : Text) (i : Bytes) (e' jid' : Text) (i' : Bytes) (ks : Keys)
    → same_key e jid i e' jid' i' ≡ true
    → find_key e' jid' i' ks ≡ find_key e jid i ks
find_key-of_same_key e jid i e' jid' i' ks h =
    let a : e ≡ e' = ground (arith, text_eq_iff e e') in
    let b : i ≡ i' = ground (arith, text_eq_iff i i') in
    let c : jid ≡ jid' = ground (arith, text_eq_iff jid jid') in cc

-- One round of setTrustLevel(encryption, keyIds, trustLevel).
pub find_key-set_one :
    (e : Text) (level : TrustLevel) (jid : Text) (i : Bytes) (e' jid' : Text) (i' : Bytes)
    (ks : Keys) (m : KeyIds)
    → find_key e' jid' i' (set_one e level (jid, i) (ks, m)).0
      ≡ (if same_key e jid i e' jid' i' then some level else find_key e' jid' i' ks)
unfolding set_one
find_key-set_one e level jid i e' jid' i' ks m = elim (Option-cases (find_key e jid i ks)) [
  | inl new ↦ rw (new, set_one) (unfold find_key fits in refl)
  | inr (old, found) ↦
      rw (found, set_one)
        (ground (
          arith,
          level_eq_iff old level,
          find_key-of_same_key e jid i e' jid' i' ks,
          find_key-set_key e jid i e' jid' i' level ks,
        ))
]

-- Two tests with one outcome are one test.
pub if_or {ℓ} :
    {A : Type ℓ} (p q r : Bool) (a b : A)
    → (if p && r then a else if p && q then a else b) ≡ (if p && (q || r) then a else b)
if_or true true true a b = refl
if_or _ _ _ a b = refl

find_key-set_each :
    (e : Text) (level : TrustLevel) (ids : KeyIds) (e' jid' : Text) (i' : Bytes) (r : Keys × KeyIds)
    → find_key e' jid' i' (set_each e level ids r).0
      ≡ (if text_eq e e' && contains_key ids jid' i' then some level else find_key e' jid' i' r.0)
unfolding set_each contains_key
find_key-set_each e level [] e' jid' i' r = ground arith
find_key-set_each e level ((jid, i) ∷ ids) e' jid' i' r =
    find_key-set_each e level ids e' jid' i' (set_one e level (jid, i) r)
    ∙ rw (find_key-set_one e level jid i e' jid' i' r.0 r.1)
        (if_or (text_eq e e') (text_eq i i' && text_eq jid jid') (contains_key ids jid' i') _ _)

-- After setTrustLevel for the keys `ids` of the encryption `e`, each of them is found at the new level,
-- whether or not it was stored before; every other key, and every key of another encryption, is
-- found as before.
pub find_key-set_trust_level :
    (e : Text) (ids : KeyIds) (level : TrustLevel) (s : TrustMemoryStorage) (e' jid : Text)
    (i : Bytes)
    → find_key e' jid i (set_trust_level e ids level s).0.keys
      ≡ (if text_eq e e' && contains_key ids jid i then some level else find_key e' jid i s.keys)
unfolding set_trust_level
find_key-set_trust_level e ids level s e' jid i =
    find_key-set_each e level ids e' jid i (s.keys, [])

find_key-insert_keys :
    (e jid : Text) (ids : List Bytes) (level : TrustLevel) (ks : Keys) (e' jid' : Text) (i' : Bytes)
    → find_key e' jid' i' (insert_keys e jid ids level ks) ≡ (
        if text_eq e e' && (text_eq jid jid' && contains ids i')
        then some level
        else find_key e' jid' i' ks)
unfolding insert_keys contains
find_key-insert_keys e jid [] level ks e' jid' i' = ground arith
find_key-insert_keys e jid (i ∷ ids) level ks e' jid' i' =
    let x : Text × Key = (e, record { id = i; owner_jid = jid; trust_level = level }) in
    find_key-insert_keys e jid ids level (x ∷ ks) e' jid' i' ∙ unfold find_key fits in ground arith

-- After addKeys, each of the added keys of that owner and encryption is found at the given level,
-- and every other key as before.
pub find_key-add_keys :
    (e jid : Text) (ids : List Bytes) (level : TrustLevel) (s : TrustMemoryStorage) (e' jid' : Text)
    (i' : Bytes)
    → find_key e' jid' i' (add_keys e jid ids level s).keys ≡ (
        if text_eq e e' && (text_eq jid jid' && contains ids i')
        then some level
        else find_key e' jid' i' s.keys)
unfolding add_keys
find_key-add_keys e jid ids level s = find_key-insert_keys e jid ids level s.keys

-- What setTrustLevel(encryption, keyOwnerJids, old, new) does to the level of a key.
abbrev pub relevel : Bool → TrustLevel → TrustLevel → Option TrustLevel → Option TrustLevel
relevel chosen old new none = none
relevel chosen old new (some level) = some (if chosen && level_eq level old then new else level)

is_to_change-fits :
    (e : Text) (jids : List Text) (old : TrustLevel) (e' jid : Text) (i : Bytes) (x : Text × Key)
    → fits e' jid i x ≡ true
    → is_to_change e jids old x
      ≡ (text_eq e e' && (contains jids jid && level_eq (x.1).trust_level old))
unfolding fits is_to_change
is_to_change-fits e jids old e' jid i (f, k) h =
    let a : f ≡ e' = ground (arith, text_eq_iff f e') in
    let c : k.owner_jid ≡ jid = ground (arith, text_eq_iff k.owner_jid jid) in
    rw (a, c, text_eq_comm e' e)

find_key-change_levels :
    (e : Text) (jids : List Text) (old new : TrustLevel) (ks : Keys) (e' jid : Text) (i : Bytes)
    → find_key e' jid i (change_levels e jids old new ks)
      ≡ relevel (text_eq e e' && contains jids jid) old new (find_key e' jid i ks)
unfolding find_key change_levels
find_key-change_levels e jids old new [] e' jid i = refl
find_key-change_levels e jids old new (x ∷ ks) e' jid i = elim (Bool-cases (fits e' jid i x)) [
  | inl hit ↦
      rw (hit, is_to_change-fits e jids old e' jid i x hit)
        (ground
          (arith, hit, fits-set_level e' jid i x new, is_to_change-fits e jids old e' jid i x hit))
  | inr miss ↦ rw miss (
      ground (
        arith,
        miss,
        fits-set_level e' jid i x new,
        find_key-change_levels e jids old new ks e' jid i,
      ))
]

-- After setTrustLevel for the owners `jids`, a key of one of them in the encryption `e` that was found
-- at the old level is found at the new one; every other key is found as before.
pub find_key-set_trust_level_of_owners :
    (e : Text) (jids : List Text) (old new : TrustLevel) (s : TrustMemoryStorage) (e' jid : Text)
    (i : Bytes)
    → find_key e' jid i (set_trust_level_of_owners e jids old new s).0.keys
      ≡ relevel (text_eq e e' && contains jids jid) old new (find_key e' jid i s.keys)
unfolding set_trust_level_of_owners
find_key-set_trust_level_of_owners e jids old new s e' jid i =
    find_key-change_levels e jids old new s.keys e' jid i
