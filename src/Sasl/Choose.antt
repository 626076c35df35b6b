-- ===== src/Sasl/Choose.antt =====
-- The choice of a mechanism: chooseMechanism of client/QXmppSaslManager.cpp.
use qxmpp.Common.{
  Bool, true, ◌||◌, ◌&&◌, false, List, [], ◌∷◌, Option, none, some, Text, text_eq, is_empty, ◌==◌,
  if◌then◌else◌,
}
use qxmpp.Sasl.Mechanism.{SaslMechanism, scram, ht, scram_value, from_string, less, index}
use qxmpp.Sasl.Credentials.{Credentials, ht_eq, is_mechanism_available}
pub mod Greatest
pub mod Best

-- What the choice reads of QXmppConfiguration.
pub record SaslSettings : Type 0 where
  pub disabled_sasl_mechanisms : List Text
  pub sasl_auth_mechanism : Text
  pub credential_data : Credentials

unfoldable pub contains_text : List Text → Text → Bool
contains_text [] s = false
contains_text (t ∷ rest) s = text_eq t s || contains_text rest s

-- `==` of two values of one alternative.
unfoldable pub eq_within : SaslMechanism → SaslMechanism → Bool
unfolding scram_value ht_eq
eq_within (scram a) (scram b) = scram_value a == scram_value b
eq_within (ht a) (ht b) = ht_eq a b
eq_within _ _ = true

unfoldable pub mechanism_eq : SaslMechanism → SaslMechanism → Bool
unfolding eq_within
mechanism_eq a b = index a == index b && eq_within a b

unfoldable pub contains_mechanism : List SaslMechanism → SaslMechanism → Bool
unfolding mechanism_eq
contains_mechanism [] m = false
contains_mechanism (a ∷ rest) m = mechanism_eq a m || contains_mechanism rest m

-- The filters and the transformations of `mechanismsView`, for one name.
unfoldable pub usable : SaslSettings → Text → Option SaslMechanism
unfolding contains_text
usable c s = if contains_text c.disabled_sasl_mechanisms s then none else elim (from_string s) [
  | none ↦ none
  | some m ↦ if is_mechanism_available m c.credential_data then some m else none
]

unfoldable pub push_usable : Option SaslMechanism → List SaslMechanism → List SaslMechanism
push_usable none rest = rest
push_usable (some m) rest = m ∷ rest

unfoldable pub mechanisms : SaslSettings → List Text → List SaslMechanism
unfolding push_usable
mechanisms c [] = []
mechanisms c (s ∷ rest) = push_usable (usable c s) (mechanisms c rest)

-- The names that the first filter has put aside. The view is read once.
unfoldable pub disabled_available : SaslSettings → List Text → List Text
unfolding contains_text
disabled_available c [] = []
disabled_available c (s ∷ rest) =
    let later = disabled_available c rest in
    if contains_text c.disabled_sasl_mechanisms s then s ∷ later else later

-- std::ranges::max: the first of the greatest.
unfoldable pub max_from : SaslMechanism → List SaslMechanism → SaslMechanism
max_from best [] = best
max_from best (m ∷ rest) = max_from (if less best m then m else best) rest

-- The configured mechanism, if it can be read and used.
unfoldable pub preferred : SaslSettings → List SaslMechanism → Option SaslMechanism
unfolding contains_mechanism
preferred c usables =
    if is_empty c.sasl_auth_mechanism then none else elim (from_string c.sasl_auth_mechanism) [
      | none ↦ none
      | some m ↦ if contains_mechanism usables m then some m else none
    ]

unfoldable pub choose_among :
    SaslSettings → List Text → List SaslMechanism → Option SaslMechanism × List Text
unfolding max_from
choose_among c offered [] = (none, disabled_available c offered)
choose_among c offered (m ∷ rest) = elim (preferred c (m ∷ rest)) [
  | some p ↦ (some p, [])
  | none ↦ (some (max_from m rest), disabled_available c offered)
]

unfoldable pub choose_mechanism : SaslSettings → List Text → Option SaslMechanism × List Text
unfolding choose_among
choose_mechanism c offered = choose_among c offered (mechanisms c offered)
