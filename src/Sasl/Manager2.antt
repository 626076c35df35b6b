-- ===== src/Sasl/Manager2.antt =====
-- Sasl2Manager of client/QXmppSaslManager.cpp. The element that is received is given as what fromDom
-- makes of it; the success is given by the token that it carries.
use qxmpp.Common.{
  ℕ, suc, Bool, true, false, ◌&&◌, ◌||◌, List, [], ◌∷◌, ◌++◌, Option, none, some, Text, Bytes,
  codes, is_empty, text_eq, if◌then◌else◌,
}
use qxmpp.Sasl.Mechanism.{SaslMechanism, to_string}
use qxmpp.Sasl.Choose.{contains_text}
use qxmpp.Sasl.Clients.{Primitives, SaslClient, respond}
use qxmpp.Sasl.Fast.{FastToken}
use qxmpp.Sasl.Manager.{
  ErrorCondition, aborted, condition_name, AuthError, type_processing_error, type_required_tasks,
  HandleElementResult, accepted, rejected, finished, Configuration, map_sasl_condition,
  InitSaslAuthResult, init_error, init_client, init_sasl_authentication, challenge_error,
}
pub mod Outcomes
pub mod Tasks

-- The elements of SASL 2 that a client receives.
pub data Received2 : Type 0 where
  challenge2 : Bytes → Received2
  success2 : Option FastToken → Received2
  failure2 : ErrorCondition → Text → Received2
  continue2 : Text → Received2
  other2 : Received2

-- The device of the user agent, if one is configured: its identifier, which may be null.
pub record UserAgent : Type 0 where
  pub device_id : Option Text
  pub software : Text
  pub device : Text

pub record Authenticate : Type 0 where
  pub mechanism : Text
  pub initial_response : Bytes
  pub fast : Bool
  pub user_agent : Option UserAgent

pub data Sent2 : Type 0 where
  authenticate2 : Authenticate → Sent2
  response2 : Bytes → Sent2
  abort2 : Text → Sent2

pub data AuthResult2 : Type 0 where
  authenticated : Option FastToken → AuthResult2
  refused : AuthError → AuthResult2

pub record State2 : Type 0 where
  pub sasl : SaslClient
  pub p : ℕ
  pub unsupported_continue : Option Text

pub record Sasl2Manager : Type 0 where
  pub state : Option State2
  pub next_promise : ℕ
  pub sent : List Sent2
  pub results : List (ℕ × AuthResult2)

-- What the feature of the stream and the configuration say.
pub record Sasl2Setup : Type 0 where
  pub configuration : Configuration
  pub user_agent : Option UserAgent
  pub is_fast_enabled : Bool
  -- The mechanisms of the feature, and those of its FAST element.
  pub mechanisms : List Text
  pub fast_mechanisms : Option (List Text)

-- The mechanisms of FAST, if it is offered and enabled.
unfoldable pub available_fast : Bool → Option (List Text) → List Text
available_fast enabled none = []
available_fast enabled (some l) = if enabled then l else []

unfoldable pub finish_ready : AuthResult2 → Sasl2Manager → Sasl2Manager
finish_ready r m = record m {
  next_promise = suc m.next_promise;
  results = m.results ++ ((m.next_promise, r) ∷ []);
}

unfoldable pub agent_error : AuthError
agent_error = record {
  message = codes "Invalid user-agent: device ID must be set.";
  error_type = type_processing_error;
  text = [];
}

-- A user agent has to have an identifier.
unfoldable pub has_null_id : Option UserAgent → Bool
has_null_id none = false
has_null_id (some a) = elim a.device_id [ none ↦ true | some id ↦ false ]

unfoldable pub begin_with : InitSaslAuthResult → Sasl2Setup → Sasl2Manager → Sasl2Manager
unfolding finish_ready agent_error has_null_id available_fast contains_text to_string
begin_with (init_error e) setup m = finish_ready (refused e) m
begin_with (init_client mechanism c answer) setup m =
    if has_null_id setup.user_agent then finish_ready (refused agent_error) m else record m {
      state = some (record { sasl = c; p = m.next_promise; unsupported_continue = none });
      next_promise = suc m.next_promise;
      sent =
          m.sent
          ++ (authenticate2 (record {
            mechanism = to_string mechanism;
            initial_response = answer;
            fast =
                contains_text (available_fast setup.is_fast_enabled setup.fast_mechanisms)
                  (to_string mechanism);
            user_agent = setup.user_agent;
          })
              ∷ []);
    }

unfoldable pub authenticate_sasl2 : Primitives → Bytes → Sasl2Setup → Sasl2Manager → Sasl2Manager
unfolding begin_with init_sasl_authentication available_fast
authenticate_sasl2 q generated setup m =
    begin_with
      (init_sasl_authentication q generated setup.configuration
        (setup.mechanisms ++ available_fast setup.is_fast_enabled setup.fast_mechanisms))
      setup m

unfoldable pub finish2 : State2 → AuthResult2 → Sasl2Manager → Sasl2Manager
finish2 st value m = record m { state = none; results = m.results ++ ((st.p, value) ∷ []) }

unfoldable pub challenge2_answered :
    State2 → Option Bytes × SaslClient → Sasl2Manager → HandleElementResult × Sasl2Manager
unfolding finish2 challenge_error
challenge2_answered st (some answer, c) m = (
  accepted,
  record m { state = some (record st { sasl = c }); sent = m.sent ++ (response2 answer ∷ []) },
)
challenge2_answered st (none, c) m = (finished, finish2 st (refused challenge_error) m)

unfoldable pub is_aborted : ErrorCondition → Bool
is_aborted aborted = true
is_aborted _ = false

unfoldable pub failure2_error : ErrorCondition → Text → AuthError
unfolding map_sasl_condition condition_name
failure2_error condition text = record {
  message =
      codes "Authentication failed: " ++ (if is_empty text then condition_name condition else text);
  error_type = map_sasl_condition (some condition);
  text = text;
}

-- The server asks for more than the client can do, and has been told so.
unfoldable pub tasks_error : Text → AuthError
tasks_error asked = record {
  message = codes "Required authentication tasks not supported.";
  error_type = type_required_tasks;
  text = asked;
}

unfoldable pub failure_for : Option Text → ErrorCondition → Text → AuthError
unfolding is_aborted failure2_error tasks_error
failure_for none condition text = failure2_error condition text
failure_for (some asked) condition text =
    if is_aborted condition then tasks_error asked else failure2_error condition text

unfoldable pub handle_received2 :
    Primitives → State2 → Received2 → Sasl2Manager → HandleElementResult × Sasl2Manager
unfolding finish2 challenge2_answered failure_for respond
handle_received2 q st (challenge2 value) m = challenge2_answered st (respond q st.sasl value) m
handle_received2 q st (success2 token) m = (finished, finish2 st (authenticated token) m)
handle_received2 q st (failure2 condition text) m =
    (finished, finish2 st (refused (failure_for st.unsupported_continue condition text)) m)
handle_received2 q st (continue2 text) m = (
  accepted,
  record m {
    state = some (record st { unsupported_continue = some text });
    sent = m.sent ++ (abort2 (codes "SASL 2 tasks are not supported.") ∷ []);
  },
)
handle_received2 q st other2 m = (rejected, m)

unfoldable pub handle_state2 :
    Primitives → Option State2 → Received2 → Sasl2Manager → HandleElementResult × Sasl2Manager
unfolding handle_received2
handle_state2 q none el m = (rejected, m)
handle_state2 q (some st) el m = handle_received2 q st el m

unfoldable pub handle_element2 :
    Primitives → Received2 → Sasl2Manager → HandleElementResult × Sasl2Manager
unfolding handle_state2
handle_element2 q el m = handle_state2 q m.state el m
