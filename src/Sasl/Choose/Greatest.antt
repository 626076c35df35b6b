-- ===== src/Sasl/Choose/Greatest.antt =====
-- The greatest of a list of mechanisms, and the test whether a list has a mechanism.
use mathlib.Core.List.{Memᴰ}
use qxmpp.Common.{◌≤◌, ◌≡◌, inl, inr, refl, sym, ap, true, List, [], ◌∷◌, arith, Bool-cases, ◌∙◌}
use qxmpp.Sasl.Mechanism.{SaslMechanism, SaslHtMechanism, ht, scram, index, less}
use qxmpp.Sasl.Mechanism.Order.{
  rank, less-rank, hash_value_injective, binding_value_injective, scram_value_injective,
}
use qxmpp.Sasl.Credentials.{ht_eq}
use qxmpp.Sasl.Choose.{max_from, mechanism_eq, contains_mechanism, eq_within}

-- The greatest of a list is not less than any of it, and is of it.
pub max_from-ge :
    (best : SaslMechanism) (rest : List SaslMechanism) → rank best ≤ rank (max_from best rest)
unfolding max_from
max_from-ge best [] = omega arith
max_from-ge best (m ∷ rest) = elim (Bool-cases (less best m)) [
  | inl worse ↦ rw worse (ground (arith, less-rank best m, max_from-ge m rest))
  | inr better ↦ rw better (max_from-ge best rest)
]

pub max_from-later :
    (m : SaslMechanism) (rest : List SaslMechanism)
    → Memᴰ m rest
    → (best : SaslMechanism) → rank m ≤ rank (max_from best rest)
unfolding max_from
max_from-later m [] i best = elim i [ ]
max_from-later m (a ∷ rest) (Memᴰ.head p) best = elim (Bool-cases (less best a)) [
  | inl worse ↦ rw (worse, p) (max_from-ge a rest)
  | inr better ↦ rw (better, p) (ground (arith, less-rank best a, max_from-ge best rest))
]
max_from-later m (a ∷ rest) (Memᴰ.tail i) best = max_from-later m rest i _

pub max_from-greatest :
    (m best : SaslMechanism) (rest : List SaslMechanism)
    → Memᴰ m (best ∷ rest)
    → rank m ≤ rank (max_from best rest)
max_from-greatest m best rest (Memᴰ.head p) = rw p (max_from-ge best rest)
max_from-greatest m best rest (Memᴰ.tail i) = max_from-later m rest i best

pub skip_second :
    {a b m : SaslMechanism} {rest : List SaslMechanism} → Memᴰ m (a ∷ rest) → Memᴰ m (a ∷ b ∷ rest)
skip_second (Memᴰ.head p) = Memᴰ.head p
skip_second (Memᴰ.tail i) = Memᴰ.tail (Memᴰ.tail i)

pub max_from-Memᴰ :
    (best : SaslMechanism) (rest : List SaslMechanism) → Memᴰ (max_from best rest) (best ∷ rest)
unfolding max_from
max_from-Memᴰ best [] = Memᴰ.head refl
max_from-Memᴰ best (m ∷ rest) = elim (Bool-cases (less best m)) [
  | inl worse ↦ rw worse (Memᴰ.tail (max_from-Memᴰ m rest))
  | inr better ↦ rw better (skip_second (max_from-Memᴰ best rest))
]

pub ht_eq-eq : (a b : SaslHtMechanism) → ht_eq a b ≡ true → a ≡ b
unfolding ht_eq
ht_eq-eq a b h = ground (
  arith,
  hash_value_injective a.hash_algorithm b.hash_algorithm,
  binding_value_injective a.channel_binding_type b.channel_binding_type,
)

pub mechanism_eq-eq : (a b : SaslMechanism) → mechanism_eq a b ≡ true → a ≡ b
unfolding mechanism_eq index eq_within
mechanism_eq-eq (ht a) (ht b) h = ap ht (ht_eq-eq a b (ground arith))
mechanism_eq-eq (scram a) (scram b) h = ap scram (scram_value_injective a b (ground arith))
mechanism_eq-eq a b h = ground arith

pub mechanism_eq_refl : (a : SaslMechanism) → mechanism_eq a a ≡ true
unfolding mechanism_eq index eq_within ht_eq
mechanism_eq_refl (ht a) = ground arith
mechanism_eq_refl (scram a) = ground arith
mechanism_eq_refl a = ground arith

pub contains_mechanism-Memᴰ :
    (ms : List SaslMechanism) (m : SaslMechanism) → contains_mechanism ms m ≡ true → Memᴰ m ms
unfolding contains_mechanism
contains_mechanism-Memᴰ [] m h = absurd (cc)
contains_mechanism-Memᴰ (a ∷ ms) m h = elim (Bool-cases (mechanism_eq a m)) [
  | inl same ↦ Memᴰ.head (sym (mechanism_eq-eq a m same))
  | inr other ↦ Memᴰ.tail (contains_mechanism-Memᴰ ms m (ground arith))
]

pub contains_head :
    (a m : SaslMechanism) (ms : List SaslMechanism)
    → mechanism_eq a m ≡ true
    → contains_mechanism (a ∷ ms) m ≡ true
unfolding contains_mechanism
contains_head a m ms h = rw h

pub contains_tail :
    (a m : SaslMechanism) (ms : List SaslMechanism)
    → contains_mechanism ms m ≡ true
    → contains_mechanism (a ∷ ms) m ≡ true
unfolding contains_mechanism
contains_tail a m ms h = ground arith

pub mem_contains_mechanism :
    (m : SaslMechanism) (ms : List SaslMechanism) → Memᴰ m ms → contains_mechanism ms m ≡ true
mem_contains_mechanism m [] i = elim i [ ]
mem_contains_mechanism m (a ∷ ms) (Memᴰ.head p) =
    contains_head a m ms (ap (mechanism_eq a) p ∙ mechanism_eq_refl a)
mem_contains_mechanism m (a ∷ ms) (Memᴰ.tail i) =
    contains_tail a m ms (mem_contains_mechanism m ms i)
