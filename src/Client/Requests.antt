-- ===== src/Client/Requests.antt =====
-- The class OutgoingIqManager of client/QXmppOutgoingClient.cpp, with the stream management through
-- which it sends. A promise of a request is a number, given out in order; the results of finished
-- promises are kept in a log, oldest entry first. The continuations that the library's users attach
-- to the promises are not modelled, so they make no calls of the manager.
pub mod Invariant
pub mod Matching
pub mod Promises
mod Tests
use qxmpp.Common.{
  ℕ, suc, Bool, true, false, not, ◌&&◌, ◌||◌, List, [], ◌∷◌, ◌++◌, Option, none, some, Text, codes,
  text_eq, is_empty, ◌==◌, if◌then◌else◌, length, drop,
}
use qxmpp.Xml.{Element, tag_name, namespace_uri, attribute, first_child_element}
use qxmpp.Stream.Ack.{
  Packet, SendError, SendResult, success, failure, disconnected, Reports, StreamAckManager, init,
  internal_send,
}

-- The errors by which a request ends: by the checks of `start`, by sending, by cancellation, or by a
-- response of type "error", with its `<error/>` element if it has one.
pub data IqError : Type 0 where
  invalid_id no_recipient cancelled undefined_condition : IqError
  send_error : SendError → IqError
  stanza_error : Element → IqError

pub data IqResult : Type 0 where
  response : Element → IqResult
  iq_error : IqError → IqResult

pub record IqState : Type 0 where
  pub interface : ℕ
  pub jid : Text

abbrev pub Requests : Type 0
Requests = List (Text × IqState)

abbrev pub Results : Type 0
Results = List (ℕ × IqResult)

-- `promises` counts the promises made, and `sending` has the requests that wait for the promises of
-- their packets.
pub record OutgoingIqManager : Type 0 where
  pub requests : Requests
  pub finished : Results
  pub promises : ℕ
  pub stream : StreamAckManager
  pub sending : List (ℕ × Text)

unfoldable pub initial : OutgoingIqManager
initial = record { requests = []; finished = []; promises = 0; stream = init; sending = [] }

-- std::unordered_map::find; a key is stored at most once.
unfoldable pub find : Text → Requests → Option IqState
find id [] = none
find id ((k, st) ∷ rs) = if text_eq k id then some st else find id rs

unfoldable pub erase : Text → Requests → Requests
erase id [] = []
erase id ((k, st) ∷ rs) = let rest = erase id rs in if text_eq k id then rs else (k, st) ∷ rest

abbrev pub is_some : Option IqState → Bool
is_some none = false
is_some (some _) = true

unfoldable pub has_id : Text → OutgoingIqManager → Bool
has_id id m = is_some (find id m.requests)

unfoldable pub is_id_valid : Text → OutgoingIqManager → Bool
is_id_valid id m = not (is_empty id) && not (has_id id m)

-- A promise that is finished at once.
abbrev pub make_ready : IqError → OutgoingIqManager → OutgoingIqManager
make_ready e m = record m {
  promises = suc m.promises;
  finished = m.finished ++ (m.promises, iq_error e) ∷ [];
}

-- The new state, and whether the task waits for a response.
unfoldable pub start : Text → Text → OutgoingIqManager → OutgoingIqManager × Bool
start id to m =
    if not (is_id_valid id m)
    then (make_ready invalid_id m, false)
    else if is_empty to
    then (make_ready no_recipient m, false)
    else (
      record m {
        promises = suc m.promises;
        requests = (id, record { interface = m.promises; jid = to }) ∷ m.requests;
      },
      true,
    )

unfoldable pub finish_found :
    Text → IqResult → OutgoingIqManager → Option IqState → OutgoingIqManager
finish_found id result m none = m
finish_found id result m (some st) = record m {
  requests = erase id m.requests;
  finished = m.finished ++ (st.interface, result) ∷ [];
}

unfoldable pub finish : Text → IqResult → OutgoingIqManager → OutgoingIqManager
finish id result m = finish_found id result m (find id m.requests)

-- The continuations of the packets' promises: those that wait for `p` report the error.
unfoldable pub fail_sent : List (ℕ × Text) → ℕ → SendError → OutgoingIqManager → OutgoingIqManager
fail_sent [] p e m = m
fail_sent ((q, id) ∷ ws) p e m =
    fail_sent ws p e (if q == p then finish id (iq_error (send_error e)) m else m)

unfoldable pub continue_sends : Reports → OutgoingIqManager → OutgoingIqManager
continue_sends [] m = m
continue_sends ((p, success acknowledged) ∷ rs) m = continue_sends rs m
continue_sends ((p, failure e) ∷ rs) m = continue_sends rs (fail_sent m.sending p e m)

-- A call of the stream management, and then the continuations of the promises that it finished.
unfoldable pub on_stream :
    (StreamAckManager → StreamAckManager) → OutgoingIqManager → OutgoingIqManager
on_stream f m =
    continue_sends (drop (length m.stream.reports) (f m.stream).reports)
      (record m { stream = f m.stream })

-- sendIq(packet, id, to); `accepts` is what the socket returns for the packet.
unfoldable pub send_packet : Bool → Packet → Text → Text → OutgoingIqManager → OutgoingIqManager
send_packet accepts p id to m =
    let started = start id to m in
    if started.1
    then on_stream (internal_send accepts p)
        (record (started.0) { sending = (p.promise, id) ∷ m.sending })
    else started.0

-- The ID under which sendIq(iq, to) sends; `uuid` and `uuid'` are the values of the two calls of
-- generateStanzaUuid.
unfoldable pub chosen_id : Text → Text → Text → OutgoingIqManager → Text
chosen_id uuid uuid' id m =
    let non_empty = if is_empty id then uuid else id in
    if has_id non_empty m then uuid' else non_empty

-- sendIq(iq, to); `serialize` is the packet of the request under an ID.
unfoldable pub send_iq :
    Bool → (Text → Packet) → Text → Text → Text → Text → OutgoingIqManager → OutgoingIqManager
send_iq accepts serialize uuid uuid' id to m =
    let chosen = chosen_id uuid uuid' id m in send_packet accepts (serialize chosen) chosen to m

-- The loop of cancelAll.
unfoldable pub cancel_each : Requests → Results
cancel_each [] = []
cancel_each ((id, st) ∷ rs) = (st.interface, iq_error cancelled) ∷ cancel_each rs

unfoldable pub cancel_all : OutgoingIqManager → OutgoingIqManager
cancel_all m = record m { requests = []; finished = m.finished ++ cancel_each m.requests }

unfoldable pub on_session_opened : Bool → OutgoingIqManager → OutgoingIqManager
on_session_opened sm_resumed m = if sm_resumed then m else cancel_all m

unfoldable pub on_session_closed : Bool → OutgoingIqManager → OutgoingIqManager
on_session_closed sm_can_resume m = if sm_can_resume then m else cancel_all m

unfoldable pub error_result : Option Element → IqResult
error_result none = iq_error undefined_condition
error_result (some el) = iq_error (stanza_error el)

-- What a response is reported as, by its type.
unfoldable pub result_of : Element → IqResult
result_of stanza =
    if text_eq (attribute stanza (codes "type")) (codes "error")
    then error_result (first_child_element stanza (codes "error") (namespace_uri stanza))
    else response stanza

unfoldable pub is_response : Element → Bool
is_response stanza =
    text_eq (tag_name stanza) (codes "iq")
    && (text_eq (attribute stanza (codes "type")) (codes "result")
        || text_eq (attribute stanza (codes "type")) (codes "error"))

-- `from.isEmpty() || from == expectedFrom`.
abbrev pub is_expected : Text → Text → Bool
is_expected from expected = is_empty from || text_eq from expected

unfoldable pub handle_found :
    Element → OutgoingIqManager → Option IqState → OutgoingIqManager × Bool
handle_found stanza m none = (m, false)
handle_found stanza m (some st) =
    if is_expected (attribute stanza (codes "from")) st.jid
    then (
      record m {
        requests = erase (attribute stanza (codes "id")) m.requests;
        finished = m.finished ++ (st.interface, result_of stanza) ∷ [];
      },
      true,
    )
    else (m, false)

unfoldable pub handle_stanza : Element → OutgoingIqManager → OutgoingIqManager × Bool
handle_stanza stanza m =
    if is_response stanza
    then handle_found stanza m (find (attribute stanza (codes "id")) m.requests)
    else (m, false)
