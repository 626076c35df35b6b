-- ===== src/Trust/Atm/Effects.antt =====
-- What trust decisions can and cannot do to the stored trust levels.
use mathlib.Core.Path.{subst}
use qxmpp.Common.{
  ◌≡◌, ◌≢◌, refl, ◌∙◌, ◌⊎◌, inl, inr, Bool, true, false, ◌&&◌, List, [], ◌∷◌, Option, none, some,
  arith, Text, Bytes, text_eq, text_eq_iff, if◌then◌else◌, All, Bool-cases,
}
use qxmpp.Trust.Levels.{
  TrustLevel, authenticated, manually_distrusted, automatically_trusted, automatically_distrusted,
  level_eq,
}
use qxmpp.Trust.Storage.{KeyIds, contains, find_key}
use qxmpp.Trust.Storage.Lookup.{
  contains_key, find_key-set_trust_level, find_key-set_trust_level_of_owners, relevel,
}
use qxmpp.Trust.Atm.{
  AtmManager, set_level, set_level_of_owners, distrust_automatically_trusted_keys,
}
use qxmpp.Trust.Atm.Updates.{is_decision, Owners, Updates, start, levels, policy, queue}

-- The level under which a key is found.
abbrev pub found : Text → Text → Bytes → AtmManager → Option TrustLevel
found e jid i m = find_key e jid i m.storage.base.keys

-- Authenticated, or distrusted by hand or by a trust message.
abbrev pub is_decided : Option TrustLevel → Bool
is_decided none = false
is_decided (some level) = is_decision level

pub found-set_level :
    (e : Text) (ids : KeyIds) (level : TrustLevel) (m : AtmManager) (e' jid : Text) (i : Bytes)
    → found e' jid i (set_level e ids level m)
      ≡ (if text_eq e e' && contains_key ids jid i then some level else found e' jid i m)
unfolding set_level
found-set_level e ids level m e' jid i =
    find_key-set_trust_level e ids level m.storage.base e' jid i

pub found-policy :
    (e : Text) (jids : List Text) (m : AtmManager) (e' jid : Text) (i : Bytes)
    → found e' jid i (distrust_automatically_trusted_keys e jids m)
      ≡ relevel
          (text_eq e e' && contains jids jid)
          automatically_trusted
          automatically_distrusted
          (found e' jid i m)
unfolding distrust_automatically_trusted_keys set_level_of_owners
found-policy e jids m e' jid i =
    find_key-set_trust_level_of_owners e jids automatically_trusted automatically_distrusted
      m.storage.base e' jid i

relevel-is_decided :
    (chosen : Bool) (o : Option TrustLevel)
    → is_decided o ≡ true
    → relevel chosen automatically_trusted automatically_distrusted o ≡ o
unfolding level_eq
relevel-is_decided chosen none h = refl
relevel-is_decided true (some authenticated) h = refl
relevel-is_decided true (some manually_distrusted) h = refl
relevel-is_decided false (some level) h = refl
relevel-is_decided true (some level) h = cc

pub relevel-is_automatic :
    (chosen : Bool) (o : Option TrustLevel)
    → relevel chosen automatically_trusted automatically_distrusted o ≡ some automatically_trusted
    → (o ≡ some automatically_trusted) × (chosen ≡ false)
unfolding level_eq
relevel-is_automatic chosen none h = cc
relevel-is_automatic true (some authenticated) h = cc
relevel-is_automatic false (some level) h = (h, refl)
relevel-is_automatic true (some level) h = cc

relevel-false : (old new : TrustLevel) (o : Option TrustLevel) → relevel false old new o ≡ o
relevel-false old new none = refl
relevel-false old new (some level) = refl

contains_key-outside :
    (P : Text → Type 0) (jid : Text) (i : Bytes) (ids : KeyIds)
    → Owners P ids
    → ¬ P jid
    → contains_key ids jid i ≡ false
unfolding contains_key
contains_key-outside P jid i [] o outside = refl
contains_key-outside P jid i ((j, k) ∷ ids) o outside = elim (Bool-cases (text_eq j jid)) [
  | inl same ↦ absurd (outside (subst P ((text_eq_iff j jid).0 same) o.0))
  | inr other ↦ ground (arith, other, contains_key-outside P jid i ids o.1 outside)
]

contains-outside :
    (P : Text → Type 0) (jid : Text) (jids : List Text)
    → All P jids
    → ¬ P jid
    → contains jids jid ≡ false
unfolding contains
contains-outside P jid [] o outside = refl
contains-outside P jid (j ∷ jids) o outside = elim (Bool-cases (text_eq j jid)) [
  | inl same ↦ absurd (outside (subst P ((text_eq_iff j jid).0 same) o.0))
  | inr other ↦ rw other (contains-outside P jid jids o.1 outside)
]

-- Of two tests one fails.
and-false : (p q : Bool) → (p ≡ false) ⊎ (q ≡ false) → (p && q) ≡ false
and-false p q h = ground arith

module _ {P : Text → Type 0} {e : Text} (e' jid : Text) (i : Bytes) where
  -- A key that is decided stays decided.
  pub Updates-is_decided :
      {m t : AtmManager}
      → Updates P e m t
      → is_decided (found e' jid i m) ≡ true
      → is_decided (found e' jid i t) ≡ true
  Updates-is_decided start h = h
  Updates-is_decided (levels {t} ids level d o r) h =
      ground (arith, d, found-set_level e ids level t e' jid i, Updates-is_decided r h)
  Updates-is_decided (policy {t} jids o r) h =
      rw
        (
          found-policy e jids t e' jid i,
          relevel-is_decided (text_eq e e' && contains jids jid) (found e' jid i t)
              (Updates-is_decided r h),
        )
        (Updates-is_decided r h)
  Updates-is_decided (queue u r) h = Updates-is_decided r h

  -- The level of a key that the updates do not reach.
  pub Updates-apart :
      {m t : AtmManager}
      → Updates P e m t
      → (text_eq e e' ≡ false) ⊎ (¬ P jid)
      → found e' jid i t ≡ found e' jid i m
  Updates-apart start h = refl
  Updates-apart (levels {t} ids level d o r) h =
      found-set_level e ids level t e' jid i ∙ rw (unreached h) (Updates-apart r h)
    where
      unreached :
          (text_eq e e' ≡ false) ⊎ (¬ P jid) → (text_eq e e' && contains_key ids jid i) ≡ false
      unreached (inl other) = and-false _ _ (inl other)
      unreached (inr outside) = and-false _ _ (inr (contains_key-outside P jid i ids o outside))
  Updates-apart (policy {t} jids o r) h =
      found-policy e jids t e' jid i
      ∙ rw (unreached h) (
          relevel-false automatically_trusted automatically_distrusted (found e' jid i t)
          ∙ Updates-apart r h)
    where
      unreached : (text_eq e e' ≡ false) ⊎ (¬ P jid) → (text_eq e e' && contains jids jid) ≡ false
      unreached (inl other) = and-false _ _ (inl other)
      unreached (inr outside) = and-false _ _ (inr (contains-outside P jid jids o outside))
  Updates-apart (queue u r) h = Updates-apart r h

  -- No update trusts a key automatically.
  pub Updates-not_automatic :
      {m t : AtmManager}
      → Updates P e m t
      → found e' jid i m ≢ some automatically_trusted
      → found e' jid i t ≢ some automatically_trusted
  Updates-not_automatic start h = h
  Updates-not_automatic (levels {t} ids level d o r) h =
      ground (arith, d, found-set_level e ids level t e' jid i, Updates-not_automatic r h)
  Updates-not_automatic (policy {t} jids o r) h = λ now.
      Updates-not_automatic r h
        (relevel-is_automatic _ _ (rw (found-policy e jids t e' jid i) at now)).0
  Updates-not_automatic (queue u r) h = Updates-not_automatic r h
