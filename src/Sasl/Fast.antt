-- ===== src/Sasl/Fast.antt =====
-- FastTokenManager of client/QXmppSaslManager.cpp: the token that a later authentication uses. What it
-- changes in the configuration is the token of the credentials.
use qxmpp.Common.{
  ℕ, Bool, true, false, not, ◌&&◌, List, [], ◌∷◌, Option, none, some, Text, if◌then◌else◌,
}
use qxmpp.Sasl.Mechanism.{
  SaslMechanism, SaslHtMechanism, ht, scram, x_google, x_windows_live, x_facebook, anonymous, plain,
  digest_md5, ht_from_string, ht_less, to_string,
}
use qxmpp.Sasl.Credentials.{HtToken, Credentials, is_unbound}
pub mod Rotation

pub record FastConfiguration : Type 0 where
  pub use_fast_token_authentication : Bool
  pub has_user_agent : Bool
  pub credential_data : Credentials

pub record FastTokenManager : Type 0 where
  pub config : FastConfiguration
  pub requested_mechanism : Option SaslHtMechanism
  pub token_changed : Bool

-- The token of a success.
pub record FastToken : Type 0 where
  pub token : Text
  pub expiry : ℕ

unfoldable pub is_fast_enabled : FastConfiguration → Bool
is_fast_enabled c = c.use_fast_token_authentication && c.has_user_agent

unfoldable pub is_some {ℓ} : {A : Type ℓ} → Option A → Bool
is_some none = false
is_some (some a) = true

unfoldable pub has_token : FastTokenManager → Bool
unfolding is_some
has_token m = is_some m.config.credential_data.ht_token

-- SaslHtMechanism::fromString gives a mechanism of that kind only.
unfoldable pub push_unbound : Option SaslMechanism → List SaslHtMechanism → List SaslHtMechanism
unfolding is_unbound
push_unbound (some (ht h)) rest = if is_unbound h.channel_binding_type then h ∷ rest else rest
push_unbound _ rest = rest

unfoldable pub unbound_mechanisms : List Text → List SaslHtMechanism
unfolding ht_from_string push_unbound
unbound_mechanisms [] = []
unbound_mechanisms (s ∷ rest) = push_unbound (ht_from_string s) (unbound_mechanisms rest)

unfoldable pub max_ht : SaslHtMechanism → List SaslHtMechanism → SaslHtMechanism
unfolding ht_less
max_ht best [] = best
max_ht best (m ∷ rest) = max_ht (if ht_less best m then m else best) rest

unfoldable pub greatest : List SaslHtMechanism → Option SaslHtMechanism
unfolding max_ht
greatest [] = none
greatest (m ∷ rest) = some (max_ht m rest)

unfoldable pub select_mechanism : List Text → Option SaslHtMechanism
unfolding unbound_mechanisms greatest
select_mechanism available = greatest (unbound_mechanisms available)

-- The token request of the authentication, if one is made.
unfoldable pub request_for : Option SaslHtMechanism → Option Text
unfolding to_string
request_for none = none
request_for (some h) = some (to_string (ht h))

unfoldable pub request_token :
    Option SaslHtMechanism → FastTokenManager → Option Text × FastTokenManager
unfolding request_for
request_token selected m =
    (request_for selected, record m { requested_mechanism = selected; token_changed = false })

unfoldable pub offered_mechanism : Bool → Option (List Text) → Option SaslHtMechanism
unfolding select_mechanism
offered_mechanism wanted none = none
offered_mechanism wanted (some available) = if wanted then select_mechanism available else none

-- `fast` is the feature's list of mechanisms, if the server has the feature.
unfoldable pub on_sasl2_authenticate :
    Option (List Text) → FastTokenManager → Option Text × FastTokenManager
unfolding is_fast_enabled has_token offered_mechanism request_token
on_sasl2_authenticate fast m =
    request_token (offered_mechanism (is_fast_enabled m.config && not (has_token m)) fast) m

-- The requested mechanism, or the one of the old token.
unfoldable pub mechanism_for : Option SaslHtMechanism → Option HtToken → Option SaslHtMechanism
mechanism_for (some h) old = some h
mechanism_for none (some t) = some t.mechanism
mechanism_for none none = none

unfoldable pub store_token :
    Option SaslHtMechanism → Option FastToken → FastTokenManager → FastTokenManager
store_token (some h) (some t) m = record m {
  config = record m.config {
    credential_data = record m.config.credential_data {
      ht_token = some (record { mechanism = h; secret = t.token; expiry = t.expiry });
    };
  };
  token_changed = true;
}
store_token _ _ m = m

unfoldable pub on_sasl2_success : Option FastToken → FastTokenManager → FastTokenManager
unfolding mechanism_for store_token
on_sasl2_success token m =
    store_token (mechanism_for m.requested_mechanism m.config.credential_data.ht_token) token m
