-- ===== src/Sasl/Manager/Tests.antt =====
-- The managers, the tokens and PLAIN at concrete runs.
use qxmpp.Common.{◌&&◌, ◌≡◌, refl, [], ◌∷◌, ◌++◌, none, some, List, codes, true}
use qxmpp.Sasl.Message.{contains_byte}
use qxmpp.Sasl.Mechanism.{SaslHtMechanism, ht, sha384, unbound}
use qxmpp.Sasl.Credentials.{HtToken, Credentials, is_mechanism_available, is_unbound}
use qxmpp.Sasl.DigestMd5.{input_needed}
use qxmpp.Sasl.Scram.{pos}
use qxmpp.Sasl.Clients.{Primitives, ClientPlain, zero_separated}
use qxmpp.Sasl.Servers.{ServerPlain}
use qxmpp.Sasl.Servers.Plain.{IsUtf8, plain_login, plain_login-read}
use qxmpp.Sasl.Manager.{Configuration, challenge, success, other, initial}
use qxmpp.Sasl.Manager.Once.{IsAccounted, run-IsAccounted}
use qxmpp.Sasl.Manager.Once
use qxmpp.Sasl.Manager2.{Sasl2Setup, continue2, failure2}
use qxmpp.Sasl.Manager.{aborted}
use qxmpp.Sasl.Manager2.Outcomes.{aborted_since}
use qxmpp.Sasl.Manager2.Tasks.{
  run-tasks_required, new_manager, Saying, is_abort_failure, new_results,
}
use qxmpp.Sasl.Manager2.Tasks
use qxmpp.Sasl.Fast.{FastTokenManager}
use qxmpp.Sasl.Fast.Rotation.{IsRotating, run-is_mechanism_available}
use qxmpp.Sasl.Fast.Rotation

abbrev primitives : Primitives
primitives = record {
  digest = record { md5 = λ b. b; to_hex = λ b. b; to_utf8 = λ t. t; from_utf8 = λ b. b };
  scram_primitives = record {
    hash = λ a b. b;
    hmac = λ a m k. m ++ k;
    derive_key_pbkdf2 = λ a p s i n. p ++ s;
    hash_length = λ a. 20;
    to_base64 = λ b. b;
    from_base64 = λ b. b;
    to_int = λ b. pos 1;
    to_utf8 = λ t. t;
  };
  to_utf8 = λ t. t;
  from_base64_text = λ t. t;
  read_query = λ b. none;
  write_query = λ a b c d. [];
  ht_hmac = λ a k m. k ++ m;
}

abbrev credentials : Credentials
credentials = record {
  password = codes "pencil";
  ht_token = none;
  facebook_access_token = [];
  facebook_app_id = [];
  google_access_token = [];
  windows_live_access_token = [];
}

abbrev configuration : Configuration
configuration = record {
  settings = record {
    disabled_sasl_mechanisms = [];
    sasl_auth_mechanism = [];
    credential_data = credentials;
  };
  domain = codes "here";
  user = codes "romeo";
}

abbrev events : List Once.Event
events =
    Once.begin (codes "r1") configuration (codes "PLAIN" ∷ [])
    ∷ Once.receive (challenge [])
    ∷ Once.begin (codes "r2") configuration (codes "SCRAM-SHA-1" ∷ [])
    ∷ Once.receive other
    ∷ Once.receive success
    ∷ []

run-IsAccounted_example : IsAccounted (Once.run primitives initial events)
run-IsAccounted_example = run-IsAccounted primitives events

abbrev setup : Sasl2Setup
setup = record {
  configuration = configuration;
  user_agent = none;
  is_fast_enabled = true;
  mechanisms = codes "PLAIN" ∷ [];
  fast_mechanisms = none;
}

abbrev events2 : List Tasks.Event
events2 = Tasks.begin (codes "r1") setup ∷ Tasks.receive (continue2 (codes "second factor")) ∷ []

abbrev failure : Tasks.Event
failure = Tasks.receive (failure2 aborted [])

run-tasks_required_example :
    let m = Tasks.run primitives new_manager events2 in
    Saying
      (is_abort_failure failure && aborted_since m.sent)
      (new_results m (Tasks.step primitives m failure))
run-tasks_required_example = run-tasks_required primitives events2 failure

-- A token that is stored, and rotated once.
abbrev token_mechanism : SaslHtMechanism
token_mechanism = record { hash_algorithm = sha384; channel_binding_type = unbound }

abbrev stored : HtToken
stored = record { mechanism = token_mechanism; secret = codes "old"; expiry = 7 }

abbrev fast_manager : FastTokenManager
fast_manager = record {
  config = record {
    use_fast_token_authentication = true;
    has_user_agent = true;
    credential_data = record credentials { ht_token = some stored };
  };
  requested_mechanism = none;
  token_changed = true;
}

fast_manager-IsRotating : IsRotating fast_manager
unfolding is_unbound
fast_manager-IsRotating = record { requested = tt; stored = refl }

abbrev rotated : HtToken
rotated = record { mechanism = token_mechanism; secret = codes "new"; expiry = 9 }

abbrev fast_events : List Rotation.Event
fast_events =
    Rotation.begin (some (codes "HT-SHA-256-NONE" ∷ []))
    ∷ Rotation.succeed (some (record { token = codes "new"; expiry = 9 }))
    ∷ []

token_rotated :
    (Rotation.run fast_manager fast_events).config.credential_data.ht_token ≡ some rotated
unfolding Rotation.run
token_rotated = refl

run-is_mechanism_available_example :
    is_mechanism_available
      (ht token_mechanism)
      (Rotation.run fast_manager fast_events).config.credential_data
    ≡ true
run-is_mechanism_available_example =
    run-is_mechanism_available fast_manager fast_events fast_manager-IsRotating token_rotated

-- A login with PLAIN.
abbrev client : ClientPlain
client = record { step = 0; username = codes "romeo"; password = codes "pencil" }

abbrev server : ServerPlain
server = record { step = 0; username = []; password = [] }

client-IsUtf8 : IsUtf8 primitives (codes "romeo") (codes "pencil")
unfolding contains_byte zero_separated
client-IsUtf8 = record {
  keeps_zero = refl;
  user_filled = refl;
  password_filled = refl;
  user_read = refl;
  password_read = refl;
}

plain_login-read_example :
    plain_login primitives client server
    ≡ some (input_needed, record { username = codes "romeo"; password = codes "pencil"; step = 1 })
plain_login-read_example = plain_login-read primitives client server client-IsUtf8
