-- ===== src/Trust/Atm/Tests.antt =====
-- The theorems about trust decisions at concrete inputs.
use qxmpp.Common.{
  ◌+◌, ◌≡◌, ◌≢◌, refl, inr, true, false, [], ◌∷◌, Option, some, Text, codes, text_eq, length,
}
use qxmpp.Jid.{jid_to_bare_jid, index_of}
use qxmpp.Trust.Levels.{
  authenticated, manually_distrusted, automatically_trusted, toakafa, level_eq,
}
use qxmpp.Trust.Storage.{
  KeyIds, security_policy, find_key, trust_level, contains, value, set_trust_level, set_each,
  set_one, set_key, fits, set_trust_level_of_owners, change_levels, changed_keys, is_to_change,
  erase_if, values,
}
use qxmpp.Trust.Storage.Lookup.{contains_key}
use qxmpp.Trust.Postponed.{
  add_keys_for_postponed, remove_decided, is_decided, remove_of_senders, keys_for_postponed,
  collect_asked, is_asked,
}
use qxmpp.Trust.Atm.{
  AtmManager, TrustMessageElement, Message, Config, ns_atm, make_trust_decisions, handle_message,
  set_level, set_level_of_owners, distrust_automatically_trusted_keys, unique_keys, key_values,
  make_postponed_trust_decisions, apply_policy, authenticate, distrust,
}
use qxmpp.Trust.Atm.Effects
use qxmpp.Trust.Atm.Effects.{found}
use qxmpp.Trust.Atm.Total.{make_trust_decisions-total}
use qxmpp.Trust.Atm.Outcome.{
  is_decided-make_trust_decisions, found-make_trust_decisions_apart, found-make_trust_decisions,
  not_automatic-make_trust_decisions,
}
use qxmpp.Trust.Atm.Messages.{qualified, handle_message-unauthenticated, handle_message-total}
use qxmpp.Trust.Atm.Authority.{handle_message-apart}

abbrev omemo : Text
omemo = codes "omemo"

abbrev alice : Text
alice = codes "alice@a.org"

abbrev bob : Text
bob = codes "bob@b.org"

-- Key 1 of Bob and key 7 of Alice are trusted automatically. Bob's key 1 has vouched for his key
-- 2 and against his key 3, while it was not authenticated itself.
abbrev waiting : AtmManager
waiting = record {
  storage = record {
    base = record {
      security_policies = (omemo, toakafa) ∷ [];
      own_keys = [];
      keys =
          (omemo, record { id = 1 ∷ []; owner_jid = bob; trust_level = automatically_trusted })
          ∷ (omemo, record { id = 7 ∷ []; owner_jid = alice; trust_level = automatically_trusted })
          ∷ [];
    };
    unprocessed =
        (omemo, record { id = 2 ∷ []; owner_jid = bob; sender_key_id = 1 ∷ []; trust = true })
        ∷ (omemo, record { id = 3 ∷ []; owner_jid = bob; sender_key_id = 1 ∷ []; trust = false })
        ∷ [];
  };
  sent = [];
  modified = [];
}

abbrev first_key : KeyIds
first_key = (bob, 1 ∷ []) ∷ []

abbrev decided : Option AtmManager
decided = make_trust_decisions 4 omemo first_key [] waiting

-- Authenticating Bob's key 1 makes both postponed decisions, and leaves Alice's key alone.
levels_after :
    (t : AtmManager) × (decided ≡ some t)
    × (found omemo bob (1 ∷ []) t ≡ some authenticated)
    × (found omemo bob (2 ∷ []) t ≡ some authenticated)
    × (found omemo bob (3 ∷ []) t ≡ some manually_distrusted)
    × (found omemo alice (7 ∷ []) t ≡ some automatically_trusted)
    × (t.storage.unprocessed ≡ [])
unfolding make_trust_decisions authenticate distrust make_postponed_trust_decisions apply_policy
    distrust_automatically_trusted_keys set_level_of_owners set_level set_trust_level set_each
    set_one set_key find_key fits text_eq level_eq security_policy value unique_keys key_values
    contains set_trust_level_of_owners change_levels changed_keys is_to_change keys_for_postponed
    collect_asked is_asked values remove_decided is_decided erase_if remove_of_senders
levels_after = (_, refl, refl, refl, refl, refl, refl)

make_trust_decisions-total_example :
    (t : AtmManager) × (make_trust_decisions
        (length waiting.storage.unprocessed + 2)
        omemo
        first_key
        []
        waiting
      ≡ some t)
make_trust_decisions-total_example = make_trust_decisions-total omemo first_key [] waiting

abbrev after : AtmManager
after = levels_after.0

-- The same state, with a key 9 of Bob that was distrusted manually.
abbrev waiting_9 : AtmManager
waiting_9 = record waiting {
  storage = record (waiting.storage) {
    base = record (waiting.storage.base) {
      keys =
          (omemo, record { id = 9 ∷ []; owner_jid = bob; trust_level = manually_distrusted })
          ∷ waiting.storage.base.keys;
    };
  };
}

abbrev after_9 : (t : AtmManager) × (make_trust_decisions 4 omemo first_key [] waiting_9 ≡ some t)
after_9 = make_trust_decisions-total omemo first_key [] waiting_9

is_decided-make_trust_decisions_example :
    Effects.is_decided (found omemo bob (9 ∷ []) after_9.0) ≡ true
unfolding find_key fits text_eq
is_decided-make_trust_decisions_example =
    is_decided-make_trust_decisions 4 omemo first_key [] waiting_9 after_9.0 after_9.1 omemo bob
      (9 ∷ []) refl

found-make_trust_decisions_apart_example :
    found omemo alice (7 ∷ []) after ≡ found omemo alice (7 ∷ []) waiting
found-make_trust_decisions_apart_example =
    found-make_trust_decisions_apart 4 omemo first_key [] waiting after levels_after.1 omemo alice
      (7 ∷ []) (inr ((λ e. cc, tt), tt, (λ _ e. cc, (λ _ e. cc, tt))))

found-make_trust_decisions_example :
    (contains_key [] bob (1 ∷ []) ≡ true
      → found omemo bob (1 ∷ []) after ≡ some manually_distrusted)
    × (contains_key first_key bob (1 ∷ []) ≡ true
        → Effects.is_decided (found omemo bob (1 ∷ []) after) ≡ true)
found-make_trust_decisions_example =
    found-make_trust_decisions 4 omemo first_key [] waiting after levels_after.1 bob (1 ∷ [])

not_automatic-make_trust_decisions_example :
    found omemo bob (5 ∷ []) after ≢ some automatically_trusted
unfolding security_policy value contains_key text_eq
not_automatic-make_trust_decisions_example =
    not_automatic-make_trust_decisions 4 omemo first_key [] waiting after levels_after.1 bob
      (1 ∷ []) refl refl (5 ∷ [])

-- A message of Bob, under his key 1, about keys of his own and one of Alice.
abbrev element : TrustMessageElement
element = record {
  usage = ns_atm;
  encryption = omemo;
  key_owners =
      record { jid = bob; trusted_keys = (4 ∷ []) ∷ []; distrusted_keys = [] }
      ∷ record { jid = alice; trusted_keys = (8 ∷ []) ∷ []; distrusted_keys = [] }
      ∷ [];
}

abbrev message : Message
message = record {
  sender = codes "bob@b.org/phone";
  trust_message = some element;
  sender_key = some (1 ∷ []);
}

abbrev config : Config
config = record { jid = codes "alice@a.org/desk"; jid_bare = alice }

handle_message-unauthenticated_example :
    handle_message 1 config message waiting
    ≡ some (record waiting {
      storage =
          add_keys_for_postponed omemo
            (1 ∷ [])
            (qualified alice (jid_to_bare_jid message.sender) element.key_owners)
            waiting.storage;
    })
unfolding text_eq trust_level find_key fits level_eq jid_to_bare_jid index_of
handle_message-unauthenticated_example =
    handle_message-unauthenticated 0 config message element waiting refl refl refl

abbrev handled : (t : AtmManager) × (handle_message 4 config message waiting ≡ some t)
handled = handle_message-total config message waiting

handle_message-apart_example :
    found omemo alice (7 ∷ []) handled.0 ≡ found omemo alice (7 ∷ []) waiting
unfolding text_eq jid_to_bare_jid index_of
handle_message-apart_example =
    handle_message-apart 4 config message element waiting handled.0 alice refl (λ e. cc) (λ e. cc)
      (λ _ e. cc, (λ _ e. cc, tt)) handled.1 omemo (7 ∷ [])
