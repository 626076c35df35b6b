-- ===== src/Trust/Storage/Modified.antt =====
-- The modified keys that setTrustLevel(encryption, keyIds, trustLevel) returns.
use qxmpp.Common.{
  ◌≡◌, refl, ◌∙◌, Bool, true, false, not, ◌&&◌, ◌||◌, [], ◌∷◌, Option, none, some, arith, Text,
  Bytes, text_eq, text_eq_refl, if◌then◌else◌, Option-cases, inl, inr,
}
use qxmpp.Trust.Levels.{TrustLevel, level_eq, level_eq_iff}
use qxmpp.Trust.Storage.{
  Keys, KeyIds, TrustMemoryStorage, find_key, set_one, set_each, set_trust_level,
}
use qxmpp.Trust.Storage.Lookup.{contains_key, find_key-of_same_key, find_key-set_one}

-- Whether a key was found, and at this level.
abbrev pub is_at : TrustLevel → Option TrustLevel → Bool
is_at level none = false
is_at level (some l) = level_eq l level

abbrev same : Text → Bytes → Text → Bytes → Bool
same j i jid k = text_eq i k && text_eq j jid

modified-set_one :
    (e : Text) (level : TrustLevel) (j : Text) (i : Bytes) (ks : Keys) (m : KeyIds) (jid : Text)
    (k : Bytes)
    → contains_key (set_one e level (j, i) (ks, m)).1 jid k
      ≡ (same j i jid k && not (is_at level (find_key e jid k ks)) || contains_key m jid k)
unfolding set_one
modified-set_one e level j i ks m jid k = elim (Option-cases (find_key e j i ks)) [
  | inl new ↦
      rw (new, set_one)
        (unfold contains_key in
          ground (arith, new, text_eq_refl e, find_key-of_same_key e j i e jid k ks))
  | inr (old, found) ↦
      rw (found, set_one)
        (unfold contains_key in
          ground (arith, found, text_eq_refl e, find_key-of_same_key e j i e jid k ks))
]

-- One key more, on the tests alone.
modified_step :
    (s c m : Bool) (level : TrustLevel) (found : Option TrustLevel)
    → (c && not (is_at level (if s then some level else found))
        || (s && not (is_at level found) || m))
      ≡ ((s || c) && not (is_at level found) || m)
modified_step true c m level found = ground (arith, level_eq_iff level level)
modified_step false c m level found = ground arith

modified-set_each :
    (e : Text) (level : TrustLevel) (ids : KeyIds) (ks : Keys) (m : KeyIds) (jid : Text) (k : Bytes)
    → contains_key (set_each e level ids (ks, m)).1 jid k
      ≡ (contains_key ids jid k && not (is_at level (find_key e jid k ks)) || contains_key m jid k)
unfolding set_each contains_key
modified-set_each e level [] ks m jid k = refl
modified-set_each e level ((j, i) ∷ ids) ks m jid k =
    modified-set_each e level ids (set_one e level (j, i) (ks, m)).0
      (set_one e level (j, i) (ks, m)).1 jid k
    ∙ rw
        (
          modified-set_one e level j i ks m jid k,
          find_key-set_one e level j i e jid k ks m,
          text_eq_refl e,
        )
        (modified_step (same j i jid k) (contains_key ids jid k) (contains_key m jid k) level
          (find_key e jid k ks))

-- setTrustLevel returns as modified just those of the given keys that were not found at the new level before.
pub modified-set_trust_level :
    (e : Text) (ids : KeyIds) (level : TrustLevel) (s : TrustMemoryStorage) (jid : Text) (k : Bytes)
    → contains_key (set_trust_level e ids level s).1 jid k
      ≡ (contains_key ids jid k && not (is_at level (find_key e jid k s.keys)))
unfolding set_trust_level
modified-set_trust_level e ids level s jid k =
    modified-set_each e level ids s.keys [] jid k ∙ unfold contains_key in ground arith
