-- ===== src/Sasl/Manager2/Outcomes.antt =====
-- What Sasl2Manager of client/QXmppSaslManager.cpp has sent and which results it has given.
use qxmpp.Common.{
  ◌≡◌, refl, Bool, true, false, List, [], ◌∷◌, ◌++◌, Option, none, some, Text, Bytes, arith,
}
use qxmpp.Sasl.Mechanism.{SaslMechanism}
use qxmpp.Sasl.Clients.{Primitives, SaslClient}
use qxmpp.Sasl.Manager.{
  ErrorCondition, ErrorType, type_required_tasks, Configuration, condition_type, map_sasl_condition,
  value_or_not_authorized, InitSaslAuthResult, init_error, init_client, init_responded, init_chosen,
  challenge_error,
}
use qxmpp.Sasl.Manager2.{
  Sent2, authenticate2, response2, abort2, AuthResult2, authenticated, refused, State2, agent_error,
  failure2_error, tasks_error,
}

unfoldable pub is_required : ErrorType → Bool
is_required type_required_tasks = true
is_required _ = false

unfoldable pub is_tasks_result : AuthResult2 → Bool
unfolding is_required
is_tasks_result (authenticated t) = false
is_tasks_result (refused e) = is_required e.error_type

-- Has an abort been sent since authentication last began?
unfoldable pub aborted_from : Bool → List Sent2 → Bool
aborted_from b [] = b
aborted_from b (authenticate2 a ∷ rest) = aborted_from false rest
aborted_from b (response2 r ∷ rest) = aborted_from b rest
aborted_from b (abort2 t ∷ rest) = aborted_from true rest

abbrev pub aborted_since : List Sent2 → Bool
aborted_since sent = aborted_from false sent

unfoldable pub has_continue : Option State2 → Bool
has_continue none = false
has_continue (some st) = elim st.unsupported_continue [ none ↦ false | some t ↦ true ]

pub aborted_from-append :
    (b : Bool) (l rest : List Sent2)
    → aborted_from b (l ++ rest) ≡ aborted_from (aborted_from b l) rest
unfolding aborted_from
aborted_from-append b [] rest = refl
aborted_from-append b (authenticate2 a ∷ l) rest = aborted_from-append false l rest
aborted_from-append b (response2 r ∷ l) rest = aborted_from-append b l rest
aborted_from-append b (abort2 t ∷ l) rest = aborted_from-append true l rest

pub condition_type_other : (c : ErrorCondition) → is_required (condition_type c) ≡ false
unfolding is_required condition_type
condition_type_other c = ground arith

pub failure2_error_other :
    (c : ErrorCondition) (t : Text) → is_tasks_result (refused (failure2_error c t)) ≡ false
unfolding is_tasks_result failure2_error map_sasl_condition value_or_not_authorized
failure2_error_other c t = condition_type_other c

-- The errors of the first step.
abbrev pub InitOther : InitSaslAuthResult → Type 0
InitOther (init_error e) = is_tasks_result (refused e) ≡ false
InitOther (init_client m c a) = Unit

pub init_responded_other :
    (m : SaslMechanism) (a : Option Bytes × SaslClient) → InitOther (init_responded m a)
unfolding init_responded is_tasks_result
init_responded_other m (some answer, c) = tt
init_responded_other m (none, c) = refl

pub init_chosen_other :
    (q : Primitives) (generated : Bytes) (config : Configuration)
    (choice : Option SaslMechanism × List Text)
    → InitOther (init_chosen q generated config choice)
unfolding init_chosen is_tasks_result
init_chosen_other q generated config (none, disabled) = refl
init_chosen_other q generated config (some m, disabled) = init_responded_other m _

pub challenge_other : is_tasks_result (refused challenge_error) ≡ false
unfolding is_tasks_result challenge_error
challenge_other = refl

pub agent_other : is_tasks_result (refused agent_error) ≡ false
unfolding is_tasks_result agent_error
agent_other = refl

pub tasks_error_kind : (asked : Text) → is_tasks_result (refused (tasks_error asked)) ≡ true
unfolding is_tasks_result is_required tasks_error
tasks_error_kind asked = refl
