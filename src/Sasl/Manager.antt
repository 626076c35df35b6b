-- ===== src/Sasl/Manager.antt =====
-- SaslManager of client/QXmppSaslManager.cpp. The element that is received is given as what fromDom
-- makes of it. Promises are numbers; what is sent to the socket and the results that the promises get
-- are kept in the fields `sent` and `results`.
use qxmpp.Common.{
  ℕ, suc, Bool, List, [], ◌∷◌, ◌++◌, Option, none, some, Text, Bytes, codes, is_empty,
  if◌then◌else◌,
}
use qxmpp.Sasl.Mechanism.{SaslMechanism, to_string}
use qxmpp.Sasl.Choose.{SaslSettings, choose_mechanism}
use qxmpp.Sasl.Clients.{Primitives, SaslClient, create, respond}
pub mod Once
mod Tests

pub data ErrorCondition : Type 0 where
  aborted account_disabled credentials_expired encryption_required incorrect_encoding
        invalid_authzid invalid_mechanism malformed_request mechanism_too_weak not_authorized
        temporary_auth_failure :
      ErrorCondition

unfoldable pub condition_name : ErrorCondition → Text
condition_name aborted = codes "aborted"
condition_name account_disabled = codes "account-disabled"
condition_name credentials_expired = codes "credentials-expired"
condition_name encryption_required = codes "encryption-required"
condition_name incorrect_encoding = codes "incorrect-encoding"
condition_name invalid_authzid = codes "invalid-authzid"
condition_name invalid_mechanism = codes "invalid-mechanism"
condition_name malformed_request = codes "malformed-request"
condition_name mechanism_too_weak = codes "mechanism-too-weak"
condition_name not_authorized = codes "not-authorized"
condition_name temporary_auth_failure = codes "temporary-auth-failure"

-- The types of AuthenticationError.
pub data ErrorType : Type 0 where
  type_account_disabled type_credentials_expired type_encryption_required type_processing_error
        type_not_authorized type_mechanism_mismatch type_required_tasks :
      ErrorType

pub record AuthError : Type 0 where
  pub message : Text
  pub error_type : ErrorType
  -- The text of the failure.
  pub text : Text

pub data HandleElementResult : Type 0 where
  accepted rejected finished : HandleElementResult

-- The elements of SASL 1 that a client receives.
pub data Received : Type 0 where
  success : Received
  challenge : Bytes → Received
  failure : Option ErrorCondition → Text → Received
  other : Received

pub data Sent : Type 0 where
  auth : Text → Bytes → Sent
  response : Bytes → Sent

-- `none` is the success.
abbrev pub AuthResult : Type 0
AuthResult = Option AuthError

-- What initSaslAuthentication reads of the configuration.
pub record Configuration : Type 0 where
  pub settings : SaslSettings
  pub domain : Text
  pub user : Text

unfoldable pub value_or_not_authorized : Option ErrorCondition → ErrorCondition
value_or_not_authorized none = not_authorized
value_or_not_authorized (some c) = c

unfoldable pub condition_type : ErrorCondition → ErrorType
condition_type account_disabled = type_account_disabled
condition_type credentials_expired = type_credentials_expired
condition_type encryption_required = type_encryption_required
condition_type incorrect_encoding = type_processing_error
condition_type invalid_authzid = type_processing_error
condition_type invalid_mechanism = type_processing_error
condition_type malformed_request = type_processing_error
condition_type mechanism_too_weak = type_processing_error
condition_type aborted = type_not_authorized
condition_type not_authorized = type_not_authorized
condition_type temporary_auth_failure = type_not_authorized

unfoldable pub map_sasl_condition : Option ErrorCondition → ErrorType
unfolding value_or_not_authorized condition_type
map_sasl_condition c = condition_type (value_or_not_authorized c)

-- QStringList::join.
unfoldable pub join_more : Text → List Text → Text
join_more sep [] = []
join_more sep (s ∷ more) = sep ++ (s ++ join_more sep more)

unfoldable pub join : Text → List Text → Text
unfolding join_more
join sep [] = []
join sep (s ∷ more) = s ++ join_more sep more

unfoldable pub mismatch_message : List Text → Text
unfolding join
mismatch_message [] = codes "No supported SASL mechanism available"
mismatch_message (s ∷ more) =
    codes "No supported SASL mechanism available ("
    ++ (join (codes ", ") (s ∷ more) ++ codes " is disabled)")

pub data InitSaslAuthResult : Type 0 where
  init_error : AuthError → InitSaslAuthResult
  init_client : SaslMechanism → SaslClient → Bytes → InitSaslAuthResult

unfoldable pub init_responded : SaslMechanism → Option Bytes × SaslClient → InitSaslAuthResult
init_responded m (some answer, c) = init_client m c answer
init_responded m (none, c) = init_error (record {
  message = codes "SASL initial response failed";
  error_type = type_processing_error;
  text = [];
})

unfoldable pub init_chosen :
    Primitives → Bytes → Configuration → Option SaslMechanism × List Text → InitSaslAuthResult
unfolding create respond init_responded mismatch_message
init_chosen q generated config (none, disabled) = init_error (record {
  message = mismatch_message disabled;
  error_type = type_mechanism_mismatch;
  text = [];
})
init_chosen q generated config (some m, disabled) = init_responded m (
    respond q
      (create q m generated config.domain (codes "xmpp") config.user
        config.settings.credential_data)
      [])

unfoldable pub init_sasl_authentication :
    Primitives → Bytes → Configuration → List Text → InitSaslAuthResult
unfolding init_chosen choose_mechanism
init_sasl_authentication q generated config available =
    init_chosen q generated config (choose_mechanism config.settings available)

pub record SaslManager : Type 0 where
  pub promise : Option ℕ
  pub sasl_client : Option SaslClient
  pub next_promise : ℕ
  pub sent : List Sent
  pub results : List (ℕ × AuthResult)

unfoldable pub initial : SaslManager
initial = record { promise = none; sasl_client = none; next_promise = 0; sent = []; results = [] }

-- An error is the result at once; else the promise waits.
unfoldable pub authenticate_with : InitSaslAuthResult → SaslManager → SaslManager
unfolding to_string
authenticate_with (init_error e) m = record m {
  next_promise = suc m.next_promise;
  results = m.results ++ ((m.next_promise, some e) ∷ []);
}
authenticate_with (init_client mechanism c answer) m = record m {
  promise = some m.next_promise;
  sasl_client = some c;
  next_promise = suc m.next_promise;
  sent = m.sent ++ (auth (to_string mechanism) answer ∷ []);
}

unfoldable pub authenticate :
    Primitives → Bytes → Configuration → List Text → SaslManager → SaslManager
unfolding init_sasl_authentication authenticate_with
authenticate q generated config available m =
    authenticate_with (init_sasl_authentication q generated config available) m

unfoldable pub finish : ℕ → AuthResult → SaslManager → SaslManager
finish p value m = record m { promise = none; results = m.results ++ ((p, value) ∷ []) }

unfoldable pub challenge_error : AuthError
challenge_error = record {
  message = codes "Could not respond to SASL challenge";
  error_type = type_processing_error;
  text = [];
}

unfoldable pub failure_error : Option ErrorCondition → Text → AuthError
unfolding map_sasl_condition condition_name value_or_not_authorized
failure_error condition text = record {
  message =
      codes "Authentication failed: "
      ++ (if is_empty text then condition_name (value_or_not_authorized condition) else text);
  error_type = map_sasl_condition condition;
  text = text;
}

unfoldable pub challenge_answered :
    ℕ → Option Bytes × SaslClient → SaslManager → HandleElementResult × SaslManager
unfolding finish challenge_error
challenge_answered p (some answer, c) m =
    (accepted, record m { sasl_client = some c; sent = m.sent ++ (response answer ∷ []) })
challenge_answered p (none, c) m =
    (finished, finish p (some challenge_error) (record m { sasl_client = some c }))

-- The client that the promise waits for: without one the pointer would be null, and the manager never
-- is in such a state.
unfoldable pub respond_with :
    Primitives → Option SaslClient → Bytes → Option (Option Bytes × SaslClient)
unfolding respond
respond_with q none value = none
respond_with q (some c) value = some (respond q c value)

unfoldable pub handle_challenge :
    ℕ → Option (Option Bytes × SaslClient) → SaslManager → HandleElementResult × SaslManager
unfolding challenge_answered
handle_challenge p none m = (rejected, m)
handle_challenge p (some answer) m = challenge_answered p answer m

unfoldable pub handle_received :
    Primitives → ℕ → Received → SaslManager → HandleElementResult × SaslManager
unfolding finish handle_challenge respond_with failure_error
handle_received q p success m = (finished, finish p none m)
handle_received q p (challenge value) m = handle_challenge p (respond_with q m.sasl_client value) m
handle_received q p (failure condition text) m =
    (finished, finish p (some (failure_error condition text)) m)
handle_received q p other m = (rejected, m)

unfoldable pub handle_pending :
    Primitives → Option ℕ → Received → SaslManager → HandleElementResult × SaslManager
unfolding handle_received
handle_pending q none el m = (rejected, m)
handle_pending q (some p) el m = handle_received q p el m

unfoldable pub handle_element :
    Primitives → Received → SaslManager → HandleElementResult × SaslManager
unfolding handle_pending
handle_element q el m = handle_pending q m.promise el m
