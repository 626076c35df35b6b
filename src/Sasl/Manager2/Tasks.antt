-- ===== src/Sasl/Manager2/Tasks.antt =====
-- Tasks that a server asks for in Sasl2Manager of client/QXmppSaslManager.cpp.
use qxmpp.Common.{
  drop-length, ◌&&◌, drop, length, All, drop-append, sym, ◌++◌, codes, Bool, ℕ, arith, ◌≡◌, refl,
  ap, ◌∙◌, true, false, List, [], ◌∷◌, Option, none, some, Text, Bytes, Bool-cases, inl, inr,
}
use qxmpp.Sasl.Mechanism.{SaslMechanism}
use qxmpp.Sasl.Clients.{Primitives, SaslClient, respond}
use qxmpp.Sasl.Manager.{
  aborted, ErrorCondition, InitSaslAuthResult, init_error, init_client, init_sasl_authentication,
  challenge_error,
}
use qxmpp.Sasl.Manager2.{
  Received2, challenge2, success2, failure2, continue2, other2, AuthResult2, authenticated, refused,
  State2, Sasl2Manager, Sasl2Setup, finish_ready, agent_error, has_null_id, begin_with,
  authenticate_sasl2, finish2, challenge2_answered, failure_for, handle_received2, handle_state2,
  handle_element2,
}
use qxmpp.Sasl.Manager2.{Sent2, response2, abort2, is_aborted}
use qxmpp.Sasl.Manager2.Outcomes.{
  is_tasks_result, aborted_from, aborted_since, aborted_from-append, has_continue,
  failure2_error_other, InitOther, init_chosen_other, challenge_other, agent_other,
  tasks_error_kind,
}

pub data Event : Type 0 where
  begin : Bytes → Sasl2Setup → Event
  receive : Received2 → Event

unfoldable pub begin_if_free :
    Primitives → Bytes → Sasl2Setup → Option State2 → Sasl2Manager → Sasl2Manager
unfolding authenticate_sasl2
begin_if_free q generated setup none m = authenticate_sasl2 q generated setup m
begin_if_free q generated setup (some st) m = m

unfoldable pub step : Primitives → Sasl2Manager → Event → Sasl2Manager
unfolding begin_if_free handle_element2
step q m (begin generated setup) = begin_if_free q generated setup m.state m
step q m (receive el) = (handle_element2 q el m).1

unfoldable pub run : Primitives → Sasl2Manager → List Event → Sasl2Manager
unfolding step
run q m [] = m
run q m (e ∷ es) = run q (step q m e) es

unfoldable pub new_manager : Sasl2Manager
new_manager = record { state = none; next_promise = 0; sent = []; results = [] }

-- What the manager knows of a request for tasks is what it has said to the server.
abbrev Told : Option State2 → List Sent2 → Type 0
Told none sent = Unit
Told (some st) sent = has_continue (some st) ≡ aborted_since sent

abbrev IsTold : Sasl2Manager → Type 0
IsTold m = Told m.state m.sent

-- The results that `m'` has and `m` had not.
abbrev pub new_results : Sasl2Manager → Sasl2Manager → List (ℕ × AuthResult2)
new_results m m' = drop (length m.results) m'.results

-- Each of the results says that tasks are required where `b` is true, and only there.
abbrev pub Saying : Bool → List (ℕ × AuthResult2) → Type 0
Saying b l = All (λ (pr : ℕ × AuthResult2). is_tasks_result pr.1 ≡ b) l

-- The failure that answers an abort.
unfoldable pub is_abort_failure : Event → Bool
is_abort_failure (receive (failure2 aborted text)) = true
is_abort_failure _ = false

no_result : (b : Bool) (l : List (ℕ × AuthResult2)) → Saying b (drop (length l) l)
no_result b l = rw (drop-length l) tt

one_result :
    (b : Bool) (m m' : Sasl2Manager) (p : ℕ) (r : AuthResult2)
    → m'.results ≡ m.results ++ ((p, r) ∷ [])
    → is_tasks_result r ≡ b
    → Saying b (new_results m m')
one_result b m m' p r added says = rw (added, drop-append m.results ((p, r) ∷ [])) ((says, tt))

-- A step keeps the knowledge, and its results are those of the kind `b`.
record IsStep (b : Bool) (m m' : Sasl2Manager) : Type 0 where
  told : IsTold m'
  says : Saying b (new_results m m')

finish2-IsStep :
    (b : Bool) (st : State2) (r : AuthResult2) (m : Sasl2Manager)
    → is_tasks_result r ≡ b
    → IsStep b m (finish2 st r m)
unfolding finish2
finish2-IsStep b st r m says = record {
  told = tt;
  says = one_result b m (finish2 st r m) st.p r refl says;
}

answered2-IsStep :
    (st : State2) (a : Option Bytes × SaslClient) (m : Sasl2Manager)
    → Told (some st) m.sent
    → IsStep false m (challenge2_answered st a m).1
unfolding challenge2_answered has_continue aborted_from
answered2-IsStep st (some answer, c) m told = record {
  told = told ∙ sym (aborted_from-append false m.sent (response2 answer ∷ []));
  says = no_result false m.results;
}
answered2-IsStep st (none, c) m told =
    finish2-IsStep false st (refused challenge_error) m challenge_other

-- The failure reads as the one of tasks where tasks were asked for and the server aborted.
failure_kind :
    (o : Option Text) (c : ErrorCondition) (t : Text) (st : State2)
    → st.unsupported_continue ≡ o
    → is_tasks_result (refused (failure_for o c t))
      ≡ (is_abort_failure (receive (failure2 c t)) && has_continue (some st))
unfolding failure_for has_continue is_abort_failure is_aborted
failure_kind none c t st e = ground (arith, failure2_error_other c t)
failure_kind (some asked) c t st e =
    ground (arith, failure2_error_other c t, tasks_error_kind asked)

received2-IsStep :
    (q : Primitives) (st : State2) (el : Received2) (m : Sasl2Manager)
    → m.state ≡ some st
    → Told (some st) m.sent
    → IsStep
        (is_abort_failure (receive el) && aborted_since m.sent)
        m
        (handle_received2 q st el m).1
unfolding handle_received2 is_abort_failure
received2-IsStep q st (challenge2 value) m e told =
    answered2-IsStep st (respond q st.sasl value) m told
received2-IsStep q st (success2 token) m e told =
    finish2-IsStep false st (authenticated token) m (unfold is_tasks_result in refl)
received2-IsStep q st (failure2 c t) m e told =
    let b = is_abort_failure (receive (failure2 c t)) in
    finish2-IsStep (b && aborted_since m.sent) st
      (refused (failure_for st.unsupported_continue c t)) m
      (failure_kind st.unsupported_continue c t st refl ∙ ap (λ x. b && x) told)
received2-IsStep q st (continue2 t) m e told = record {
  told =
      unfold has_continue aborted_from in
      sym
        (aborted_from-append false m.sent (abort2 (codes "SASL 2 tasks are not supported.") ∷ []));
  says = no_result false m.results;
}
received2-IsStep q st other2 m e told = record {
  told = rw e told;
  says = no_result false m.results;
}

state2-IsStep :
    (q : Primitives) (o : Option State2) (el : Received2) (m : Sasl2Manager)
    → m.state ≡ o
    → Told o m.sent
    → IsStep (is_abort_failure (receive el) && aborted_since m.sent) m (handle_state2 q o el m).1
unfolding handle_state2
state2-IsStep q none el m e told = record { told = rw e tt; says = no_result _ m.results }
state2-IsStep q (some st) el m e told = received2-IsStep q st el m e told

ready-IsStep :
    (r : AuthResult2) (m : Sasl2Manager)
    → is_tasks_result r ≡ false
    → IsTold m
    → IsStep false m (finish_ready r m)
unfolding finish_ready
ready-IsStep r m other told = record {
  told = told;
  says = one_result false m (finish_ready r m) m.next_promise r refl other;
}

-- A new authentication knows of no request, and nothing is aborted in it.
begun_with-IsStep :
    (mechanism : SaslMechanism) (c : SaslClient) (answer : Bytes) (setup : Sasl2Setup)
    (m : Sasl2Manager)
    → has_null_id setup.user_agent ≡ false
    → IsStep false m (begin_with (init_client mechanism c answer) setup m)
unfolding begin_with has_continue aborted_from
begun_with-IsStep mechanism c answer setup m valid =
    rw valid
      (record { told = sym (aborted_from-append false m.sent _); says = no_result false m.results })

begin_with-IsStep :
    (i : InitSaslAuthResult) (setup : Sasl2Setup) (m : Sasl2Manager)
    → InitOther i
    → IsTold m
    → IsStep false m (begin_with i setup m)
unfolding begin_with
begin_with-IsStep (init_error e) setup m other told = ready-IsStep (refused e) m other told
begin_with-IsStep (init_client mechanism c answer) setup m other told =
    elim (Bool-cases (has_null_id setup.user_agent)) [
      | inl null ↦ rw (begin_with, null) (ready-IsStep (refused agent_error) m agent_other told)
      | inr valid ↦ begun_with-IsStep mechanism c answer setup m valid
    ]

begun-IsStep :
    (q : Primitives) (generated : Bytes) (setup : Sasl2Setup) (o : Option State2) (m : Sasl2Manager)
    → IsTold m
    → IsStep false m (begin_if_free q generated setup o m)
unfolding begin_if_free authenticate_sasl2 init_sasl_authentication
begun-IsStep q generated setup none m told =
    begin_with-IsStep _ setup m (init_chosen_other q generated setup.configuration _) told
begun-IsStep q generated setup (some st) m told = record {
  told = told;
  says = no_result false m.results;
}

step-IsStep :
    (q : Primitives) (m : Sasl2Manager) (e : Event)
    → IsTold m
    → IsStep (is_abort_failure e && aborted_since m.sent) m (step q m e)
unfolding step handle_element2 is_abort_failure
step-IsStep q m (begin generated setup) told = begun-IsStep q generated setup m.state m told
step-IsStep q m (receive el) told = state2-IsStep q m.state el m refl told

run-IsTold : (q : Primitives) (m : Sasl2Manager) (es : List Event) → IsTold m → IsTold (run q m es)
unfolding run
run-IsTold q m [] told = told
run-IsTold q m (e ∷ es) told = run-IsTold q (step q m e) es (step-IsStep q m e told).told

-- After any run of a new manager, a result that the next event brings says that tasks are required
-- just if that event is a failure with the condition "aborted" and the client has sent an abort since
-- it last sent a request to authenticate. Every other result is of another kind.
pub run-tasks_required :
    (q : Primitives) (es : List Event) (e : Event)
    → let m = run q new_manager es in
      Saying (is_abort_failure e && aborted_since m.sent) (new_results m (step q m e))
unfolding new_manager
run-tasks_required q es e =
    (step-IsStep q (run q new_manager es) e (run-IsTold q new_manager es tt)).says
