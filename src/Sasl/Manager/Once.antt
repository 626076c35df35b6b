-- ===== src/Sasl/Manager/Once.antt =====
-- Runs of SaslManager: authentications that are begun one after another, and elements that arrive.
use qxmpp.Common.{
  ℕ, zero, suc, ◌≡◌, refl, ap, sym, ◌∙◌, List, [], ◌∷◌, ◌++◌, map, Option, none, some, Text, Bytes,
}
use mathlib.Core.List.{append-nil, map-append}
use qxmpp.Sasl.Clients.{Primitives, SaslClient}
use qxmpp.Sasl.Manager.{
  Received, AuthResult, Configuration, InitSaslAuthResult, init_error, init_client, SaslManager,
  initial, authenticate, authenticate_with, init_sasl_authentication, finish, handle_element,
  handle_pending, handle_received, handle_challenge, challenge_answered, respond_with, success,
  challenge, failure, other, challenge_error, failure_error,
}

-- A call of authenticate with the random nonce, or an element.
pub data Event : Type 0 where
  begin : Bytes → Configuration → List Text → Event
  receive : Received → Event

-- The assertion of authenticate: no promise waits.
unfoldable pub begin_if_free :
    Primitives → Bytes → Configuration → List Text → Option ℕ → SaslManager → SaslManager
unfolding authenticate
begin_if_free q generated config available none m = authenticate q generated config available m
begin_if_free q generated config available (some p) m = m

unfoldable pub step : Primitives → SaslManager → Event → SaslManager
unfolding begin_if_free handle_element
step q m (begin generated config available) = begin_if_free q generated config available m.promise m
step q m (receive el) = (handle_element q el m).1

unfoldable pub run : Primitives → SaslManager → List Event → SaslManager
unfolding step
run q m [] = m
run q m (e ∷ es) = run q (step q m e) es

unfoldable pub range : ℕ → List ℕ
range zero = []
range (suc n) = range n ++ (n ∷ [])

-- The promise that waits, if one does.
abbrev pub waiting : Option ℕ → List ℕ
waiting none = []
waiting (some p) = p ∷ []

abbrev pub promise_of : ℕ × AuthResult → ℕ
promise_of r = r.0

abbrev pub HasClient : Option ℕ → Option SaslClient → Type 0
HasClient none c = Unit
HasClient (some p) none = ⊥
HasClient (some p) (some c) = Unit

-- The promises with a result and the one that waits are all that were made, each once and in order;
-- while one waits there is a client.
pub record IsAccounted (m : SaslManager) : Type 0 where
  pub accounted : map promise_of m.results ++ waiting m.promise ≡ range m.next_promise
  pub has_client : HasClient m.promise m.sasl_client

-- While no promise waits, or one does.
results_free :
    (m : SaslManager)
    → m.promise ≡ none
    → IsAccounted m
    → map promise_of m.results ≡ range m.next_promise
results_free m free h =
    sym (append-nil _)
    ∙ ap (λ (o : Option ℕ). map promise_of m.results ++ waiting o) (sym free)
    ∙ h.accounted

results_waiting :
    (p : ℕ) (m : SaslManager)
    → m.promise ≡ some p
    → IsAccounted m
    → map promise_of m.results ++ (p ∷ []) ≡ range m.next_promise
results_waiting p m waits h =
    ap (λ (o : Option ℕ). map promise_of m.results ++ waiting o) (sym waits) ∙ h.accounted

authenticate_with-IsAccounted :
    (i : InitSaslAuthResult) (m : SaslManager)
    → m.promise ≡ none
    → IsAccounted m
    → IsAccounted (authenticate_with i m)
unfolding authenticate_with range
authenticate_with-IsAccounted (init_error e) m free h = record {
  accounted =
      ap
        (λ (o : Option ℕ).
          map promise_of (m.results ++ ((m.next_promise, some e) ∷ [])) ++ waiting o)
        free
      ∙ append-nil _
      ∙ map-append promise_of m.results ((m.next_promise, some e) ∷ [])
      ∙ ap (λ (l : List ℕ). l ++ (m.next_promise ∷ [])) (results_free m free h);
  has_client = h.has_client;
}
authenticate_with-IsAccounted (init_client mechanism c answer) m free h = record {
  accounted = ap (λ (l : List ℕ). l ++ (m.next_promise ∷ [])) (results_free m free h);
  has_client = tt;
}

finish-IsAccounted :
    (p : ℕ) (r : AuthResult) (m : SaslManager)
    → m.promise ≡ some p
    → IsAccounted m
    → IsAccounted (finish p r m)
unfolding finish
finish-IsAccounted p r m waits h = record {
  accounted =
      append-nil _ ∙ map-append promise_of m.results ((p, r) ∷ []) ∙ results_waiting p m waits h;
  has_client = tt;
}

-- Any client takes the place of the old one.
HasClient-some : (o : Option ℕ) (c : SaslClient) → HasClient o (some c)
HasClient-some none c = tt
HasClient-some (some p) c = tt

answered-IsAccounted :
    (p : ℕ) (a : Option Bytes × SaslClient) (m : SaslManager)
    → m.promise ≡ some p
    → IsAccounted m
    → IsAccounted (challenge_answered p a m).1
unfolding challenge_answered
answered-IsAccounted p (some answer, c) m waits h = record {
  accounted = h.accounted;
  has_client = HasClient-some m.promise c;
}
answered-IsAccounted p (none, c) m waits h =
    finish-IsAccounted p (some challenge_error) (record m { sasl_client = some c }) waits
      (record { accounted = h.accounted; has_client = HasClient-some m.promise c })

challenge-IsAccounted :
    (p : ℕ) (a : Option (Option Bytes × SaslClient)) (m : SaslManager)
    → m.promise ≡ some p
    → IsAccounted m
    → IsAccounted (handle_challenge p a m).1
unfolding handle_challenge
challenge-IsAccounted p none m waits h = h
challenge-IsAccounted p (some a) m waits h = answered-IsAccounted p a m waits h

received-IsAccounted :
    (q : Primitives) (p : ℕ) (el : Received) (m : SaslManager)
    → m.promise ≡ some p
    → IsAccounted m
    → IsAccounted (handle_received q p el m).1
unfolding handle_received
received-IsAccounted q p success m waits h = finish-IsAccounted p none m waits h
received-IsAccounted q p (challenge value) m waits h =
    challenge-IsAccounted p (respond_with q m.sasl_client value) m waits h
received-IsAccounted q p (failure condition text) m waits h =
    finish-IsAccounted p (some (failure_error condition text)) m waits h
received-IsAccounted q p other m waits h = h

pending-IsAccounted :
    (q : Primitives) (o : Option ℕ) (el : Received) (m : SaslManager)
    → m.promise ≡ o
    → IsAccounted m
    → IsAccounted (handle_pending q o el m).1
unfolding handle_pending
pending-IsAccounted q none el m e h = h
pending-IsAccounted q (some p) el m e h = received-IsAccounted q p el m e h

begun-IsAccounted :
    (q : Primitives) (generated : Bytes) (config : Configuration) (available : List Text)
    (o : Option ℕ) (m : SaslManager)
    → m.promise ≡ o
    → IsAccounted m
    → IsAccounted (begin_if_free q generated config available o m)
unfolding begin_if_free authenticate
begun-IsAccounted q generated config available none m e h =
    authenticate_with-IsAccounted (init_sasl_authentication q generated config available) m e h
begun-IsAccounted q generated config available (some p) m e h = h

step-IsAccounted :
    (q : Primitives) (m : SaslManager) (e : Event) → IsAccounted m → IsAccounted (step q m e)
unfolding step handle_element
step-IsAccounted q m (begin generated config available) h =
    begun-IsAccounted q generated config available m.promise m refl h
step-IsAccounted q m (receive el) h = pending-IsAccounted q m.promise el m refl h

run_from-IsAccounted :
    (q : Primitives) (m : SaslManager) (es : List Event) → IsAccounted m → IsAccounted (run q m es)
unfolding run
run_from-IsAccounted q m [] h = h
run_from-IsAccounted q m (e ∷ es) h =
    run_from-IsAccounted q (step q m e) es (step-IsAccounted q m e h)

initial-IsAccounted : IsAccounted initial
unfolding initial range
initial-IsAccounted = record { accounted = refl; has_client = tt }

-- In every run, whatever arrives and in whatever order, each authentication that was begun has exactly
-- one result, in the order in which they were begun, but for the last one while it waits; and while
-- it waits there is a client to answer challenges.
pub run-IsAccounted : (q : Primitives) (es : List Event) → IsAccounted (run q initial es)
run-IsAccounted q es = run_from-IsAccounted q initial es initial-IsAccounted
