-- ===== src/Trust/Levels.antt =====
-- client/QXmppTrustLevel.h and client/QXmppTrustSecurityPolicy.h.
use qxmpp.Common.{ℕ, ◌≡◌, ◌↔◌, Bool, true, ◌||◌, arith, ◌==◌}

pub data TrustLevel : Type 0 where
  undecided automatically_distrusted manually_distrusted : TrustLevel
  automatically_trusted manually_trusted authenticated : TrustLevel

-- The values of the enumeration.
unfoldable pub level_value : TrustLevel → ℕ
level_value undecided = 1
level_value automatically_distrusted = 2
level_value manually_distrusted = 4
level_value automatically_trusted = 8
level_value manually_trusted = 16
level_value authenticated = 32

unfoldable pub level_eq : TrustLevel → TrustLevel → Bool
unfolding level_value
level_eq a b = level_value a == level_value b

pub level_eq_iff : (a b : TrustLevel) → (level_eq a b ≡ true) ↔ (a ≡ b)
unfolding level_eq
level_eq_iff undecided b = ground arith
level_eq_iff _ b = ground arith

pub data TrustSecurityPolicy : Type 0 where
  no_security_policy toakafa : TrustSecurityPolicy

-- TrustLevels: the flags that are set.
abbrev pub TrustLevels : Type 0
TrustLevels = TrustLevel → Bool

-- The test `!trustLevels` is that none of the flags is set.
unfoldable pub any_level : TrustLevels → Bool
any_level levels =
    levels undecided
    || levels automatically_distrusted
    || levels manually_distrusted
    || levels automatically_trusted
    || levels manually_trusted
    || levels authenticated
