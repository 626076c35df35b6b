-- ===== src/Trust/Atm/Manual/Tests.antt =====
-- The theorems about decisions made by hand at concrete inputs.
use qxmpp.Common.{◌+◌, ◌≢◌, true, [], ◌∷◌, Text, codes, length, All, arith}
use qxmpp.Trust.Levels.{automatically_trusted, authenticated, toakafa}
use qxmpp.Trust.Atm.{AtmManager, Config}
use qxmpp.Trust.Atm.Manual.Sending.{
  IsConcerned, make_manual_decisions-total, make_manual_decisions-IsConcerned,
}

abbrev omemo : Text
omemo = codes "omemo"

abbrev alice : Text
alice = codes "alice@a.org"

abbrev bob : Text
bob = codes "bob@b.org"

abbrev config : Config
config = record { jid = codes "alice@a.org/home"; jid_bare = alice }

-- Alice has an authenticated key, and a key of Bob waits for a decision on another one.
abbrev two_keys : AtmManager
two_keys = record {
  storage = record {
    base = record {
      security_policies = (omemo, toakafa) ∷ [];
      own_keys = [];
      keys =
          (omemo, record { id = 1 ∷ []; owner_jid = bob; trust_level = automatically_trusted })
          ∷ (omemo, record { id = 7 ∷ []; owner_jid = alice; trust_level = authenticated })
          ∷ [];
    };
    unprocessed =
        (omemo, record { id = 2 ∷ []; owner_jid = bob; sender_key_id = 1 ∷ []; trust = true }) ∷ [];
  };
  sent = [];
  modified = [];
}

abbrev outcome : AtmManager
outcome = (make_manual_decisions-total config true omemo bob ((1 ∷ []) ∷ []) [] two_keys).0

bob_foreign : bob ≢ alice
bob_foreign h = ground arith

make_manual_decisions-IsConcerned_example : All (IsConcerned alice bob) outcome.sent
make_manual_decisions-IsConcerned_example =
    make_manual_decisions-IsConcerned (length two_keys.storage.unprocessed + 2) config true omemo
      bob ((1 ∷ []) ∷ []) [] two_keys outcome
      (make_manual_decisions-total config true omemo bob ((1 ∷ []) ∷ []) [] two_keys).1 bob_foreign
      tt
