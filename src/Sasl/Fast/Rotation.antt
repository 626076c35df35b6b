-- ===== src/Sasl/Fast/Rotation.antt =====
-- Tokens over several authentications.
use mathlib.Core.Path.{subst}
use qxmpp.Common.{
  ◌≡◌, Bool, true, false, List, [], ◌∷◌, Option, none, some, Text, arith, Bool-cases, some_eq, All,
  inl, inr,
}
use qxmpp.Sasl.Mechanism.{SaslMechanism, SaslHtMechanism, ht, ht_less, ht_from_string}
use qxmpp.Sasl.Credentials.{HtToken, is_mechanism_available, has_token_for, ht_eq, is_unbound}
use qxmpp.Sasl.Fast.{
  FastTokenManager, FastToken, push_unbound, unbound_mechanisms, max_ht, greatest, select_mechanism,
  offered_mechanism, request_token, on_sasl2_authenticate, mechanism_for, store_token,
  on_sasl2_success,
}

-- A token in use has no channel binding, and so has a requested mechanism.
abbrev pub IsUsable : Option SaslHtMechanism → Type 0
IsUsable none = Unit
IsUsable (some h) = is_unbound h.channel_binding_type ≡ true

abbrev pub mechanism_of : Option HtToken → Option SaslHtMechanism
mechanism_of none = none
mechanism_of (some t) = some t.mechanism

pub record IsRotating (m : FastTokenManager) : Type 0 where
  pub requested : IsUsable m.requested_mechanism
  pub stored : IsUsable (mechanism_of m.config.credential_data.ht_token)

-- The authentications and the successes, in any order.
pub data Event : Type 0 where
  begin : Option (List Text) → Event
  succeed : Option FastToken → Event

unfoldable pub step : FastTokenManager → Event → FastTokenManager
unfolding on_sasl2_authenticate on_sasl2_success
step m (begin fast) = (on_sasl2_authenticate fast m).1
step m (succeed token) = on_sasl2_success token m

unfoldable pub run : FastTokenManager → List Event → FastTokenManager
unfolding step
run m [] = m
run m (e ∷ es) = run (step m e) es

abbrev Unbound : SaslHtMechanism → Type 0
Unbound h = is_unbound h.channel_binding_type ≡ true

push_unbound-All :
    (o : Option SaslMechanism) (rest : List SaslHtMechanism)
    → All Unbound rest
    → All Unbound (push_unbound o rest)
unfolding push_unbound
push_unbound-All none rest all = all
push_unbound-All (some (ht h)) rest all = elim (Bool-cases (is_unbound h.channel_binding_type)) [
  | inl unbound ↦ rw unbound (unbound, all)
  | inr other ↦ rw other all
]
push_unbound-All (some m) rest all = all

unbound_mechanisms-All : (available : List Text) → All Unbound (unbound_mechanisms available)
unfolding unbound_mechanisms
unbound_mechanisms-All [] = tt
unbound_mechanisms-All (s ∷ rest) =
    push_unbound-All (ht_from_string s) (unbound_mechanisms rest) (unbound_mechanisms-All rest)

max_ht-Unbound :
    (best : SaslHtMechanism) (rest : List SaslHtMechanism)
    → Unbound best
    → All Unbound rest
    → Unbound (max_ht best rest)
unfolding max_ht
max_ht-Unbound best [] h all = h
max_ht-Unbound best (m ∷ rest) h (first, all) = elim (Bool-cases (ht_less best m)) [
  | inl worse ↦ rw (max_ht, worse) (max_ht-Unbound m rest first all)
  | inr better ↦ rw (max_ht, better) (max_ht-Unbound best rest h all)
]

greatest-IsUsable : (l : List SaslHtMechanism) → All Unbound l → IsUsable (greatest l)
unfolding greatest
greatest-IsUsable [] all = tt
greatest-IsUsable (m ∷ rest) (first, all) = max_ht-Unbound m rest first all

offered-IsUsable :
    (wanted : Bool) (fast : Option (List Text)) → IsUsable (offered_mechanism wanted fast)
unfolding offered_mechanism select_mechanism
offered-IsUsable wanted none = tt
offered-IsUsable true (some available) =
    greatest-IsUsable (unbound_mechanisms available) (unbound_mechanisms-All available)
offered-IsUsable false (some available) = tt

mechanism_for-IsUsable :
    (o : Option SaslHtMechanism) (old : Option HtToken)
    → IsUsable o
    → IsUsable (mechanism_of old)
    → IsUsable (mechanism_for o old)
unfolding mechanism_for
mechanism_for-IsUsable (some h) old p q = p
mechanism_for-IsUsable none (some t) p q = q
mechanism_for-IsUsable none none p q = tt

store_token-IsRotating :
    (o : Option SaslHtMechanism) (t : Option FastToken) (m : FastTokenManager)
    → IsUsable o
    → IsRotating m
    → IsRotating (store_token o t m)
unfolding store_token
store_token-IsRotating (some h) (some t) m p r = record { requested = r.requested; stored = p }
store_token-IsRotating (some h) none m p r = r
store_token-IsRotating none t m p r = r

step-IsRotating : (m : FastTokenManager) (e : Event) → IsRotating m → IsRotating (step m e)
unfolding step on_sasl2_authenticate request_token on_sasl2_success
step-IsRotating m (begin fast) r = record { requested = offered-IsUsable _ fast; stored = r.stored }
step-IsRotating m (succeed token) r =
    store_token-IsRotating _ token m
      (mechanism_for-IsUsable m.requested_mechanism m.config.credential_data.ht_token r.requested
        r.stored)
      r

run-IsRotating : (m : FastTokenManager) (es : List Event) → IsRotating m → IsRotating (run m es)
unfolding run
run-IsRotating m [] r = r
run-IsRotating m (e ∷ es) r = run-IsRotating (step m e) es (step-IsRotating m e r)

has_token_for_own :
    (o : Option HtToken) (t : HtToken)
    → o ≡ some t
    → IsUsable (mechanism_of o)
    → has_token_for t.mechanism o ≡ true
unfolding has_token_for ht_eq
has_token_for_own none t e u = absurd (cc)
has_token_for_own (some s) t e u =
    let same : s ≡ t = some_eq e in
    subst (λ (x : HtToken). has_token_for x.mechanism (some s) ≡ true) same (ground arith)

-- Whatever mechanisms the servers offer and whatever tokens they give, the token that is stored is one
-- that the next authentication can use, if the one at the beginning is: its mechanism is available
-- with the credentials.
pub run-is_mechanism_available :
    (m : FastTokenManager) (es : List Event) {t : HtToken}
    → IsRotating m
    → (run m es).config.credential_data.ht_token ≡ some t
    → is_mechanism_available (ht t.mechanism) (run m es).config.credential_data ≡ true
unfolding is_mechanism_available
run-is_mechanism_available m es {t} r e =
    has_token_for_own (run m es).config.credential_data.ht_token t e (run-IsRotating m es r).stored
