-- ===== src/Sasl/Mechanism/Order.antt =====
-- The order of the mechanisms is that of a number.
use qxmpp.Common.{ℕ, ◌+◌, ◌*◌, ◌<◌, ◌≡◌, refl, ltb, arith}
use qxmpp.Sasl.Mechanism.{
  SaslMechanism, SaslHtMechanism, IanaHashAlgorithm, Algorithm, ChannelBindingType, scram, ht, less,
  index, hash_value, binding_value, scram_value, less_within, ht_less,
}

-- The value within the alternative.
rank_within : SaslMechanism → ℕ
rank_within (scram a) = scram_value a
rank_within (ht m) = hash_value m.hash_algorithm * 4 + binding_value m.channel_binding_type
rank_within _ = 0

pub rank : SaslMechanism → ℕ
rank m = index m * 40 + rank_within m

binding_value_bounded : (b : ChannelBindingType) → binding_value b < 4
unfolding binding_value
binding_value_bounded b = ground arith

hash_value_bounded : (a : IanaHashAlgorithm) → hash_value a < 10
unfolding hash_value
hash_value_bounded a = ground arith

scram_value_bounded : (a : Algorithm) → scram_value a < 40
unfolding scram_value
scram_value_bounded a = ground arith

rank_within_bounded : (m : SaslMechanism) → rank_within m < 40
unfolding rank_within
rank_within_bounded (scram a) = scram_value_bounded a
rank_within_bounded (ht m) =
    omega (arith, hash_value_bounded m.hash_algorithm, binding_value_bounded m.channel_binding_type)
rank_within_bounded x = omega arith

ht_less_rank : (a b : SaslHtMechanism) → ht_less a b ≡ ltb (rank_within (ht a)) (rank_within (ht b))
unfolding ht_less rank_within
ht_less_rank a b = ground (
  arith,
  binding_value_bounded a.channel_binding_type,
  binding_value_bounded b.channel_binding_type,
)

-- Within one alternative.
less_within_rank :
    (a b : SaslMechanism)
    → index a ≡ index b
    → less_within a b ≡ ltb (rank_within a) (rank_within b)
unfolding less_within index rank_within
less_within_rank (ht a) (ht b) h = ht_less_rank a b
less_within_rank (scram a) (scram b) h = refl
less_within_rank a b h = ground arith

pub less-rank : (a b : SaslMechanism) → less a b ≡ ltb (rank a) (rank b)
unfolding less rank
less-rank a b = ground (arith, less_within_rank a b, rank_within_bounded a, rank_within_bounded b)

pub hash_value_injective : (a b : IanaHashAlgorithm) → hash_value a ≡ hash_value b → a ≡ b
unfolding hash_value
hash_value_injective a b h = ground arith

pub binding_value_injective : (a b : ChannelBindingType) → binding_value a ≡ binding_value b → a ≡ b
unfolding binding_value
binding_value_injective a b h = ground arith

pub scram_value_injective : (a b : Algorithm) → scram_value a ≡ scram_value b → a ≡ b
unfolding scram_value
scram_value_injective a b h = ground arith
