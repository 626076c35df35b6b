-- ===== src/Sasl/Credentials.antt =====
-- Credentials of base/QXmppSasl_p.h, and the mechanisms that they serve
-- (QXmppSaslClient::isMechanismAvailable). Times are numbers.
use qxmpp.Common.{ℕ, Bool, true, false, not, ◌&&◌, Option, none, some, Text, is_empty, ◌==◌}
use qxmpp.Sasl.Mechanism.{
  SaslMechanism, SaslHtMechanism, ChannelBindingType, x_google, x_windows_live, x_facebook,
  anonymous, plain, digest_md5, scram, ht, unbound, hash_value, binding_value,
}

pub record HtToken : Type 0 where
  pub mechanism : SaslHtMechanism
  pub secret : Text
  pub expiry : ℕ

pub record Credentials : Type 0 where
  pub password : Text
  pub ht_token : Option HtToken
  pub facebook_access_token : Text
  pub facebook_app_id : Text
  pub google_access_token : Text
  pub windows_live_access_token : Text

-- `==` of SaslHtMechanism.
unfoldable pub ht_eq : SaslHtMechanism → SaslHtMechanism → Bool
unfolding hash_value binding_value
ht_eq a b =
    hash_value a.hash_algorithm == hash_value b.hash_algorithm
    && binding_value a.channel_binding_type == binding_value b.channel_binding_type

unfoldable pub is_unbound : ChannelBindingType → Bool
is_unbound unbound = true
is_unbound _ = false

unfoldable pub has_token_for : SaslHtMechanism → Option HtToken → Bool
unfolding ht_eq is_unbound
has_token_for m none = false
has_token_for m (some t) = ht_eq t.mechanism m && is_unbound m.channel_binding_type

unfoldable pub is_mechanism_available : SaslMechanism → Credentials → Bool
unfolding has_token_for
is_mechanism_available (ht m) c = has_token_for m c.ht_token
is_mechanism_available (scram _) c = not (is_empty c.password)
is_mechanism_available digest_md5 c = not (is_empty c.password)
is_mechanism_available plain c = not (is_empty c.password)
is_mechanism_available x_facebook c =
    not (is_empty c.facebook_access_token) && not (is_empty c.facebook_app_id)
is_mechanism_available x_windows_live c = not (is_empty c.windows_live_access_token)
is_mechanism_available x_google c = not (is_empty c.google_access_token)
is_mechanism_available anonymous c = true
