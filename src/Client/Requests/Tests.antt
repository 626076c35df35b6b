-- ===== src/Client/Requests/Tests.antt =====
-- The theorems about outgoing requests at concrete inputs.
use qxmpp.Common.{
  ℕ, ◌≡◌, refl, false, true, [], ◌∷◌, ◌+◌, Text, codes, ltb, if◌then◌else◌, ◌≢◌, List, some,
  text_eq, ◌⊎◌, ◌++◌,
}
use qxmpp.Xml.{Element, element, nil, attribute, find_attribute, tag_name}
use qxmpp.Stream.Ack.{Packet, init, internal_send}
use qxmpp.Client.Requests.{
  OutgoingIqManager, send_packet, start, is_id_valid, has_id, on_stream, continue_sends, IqState,
  handle_found, initial, handle_stanza, find, is_response, result_of,
}
use qxmpp.Client.Requests.Invariant.{iq_step, IqCall, sends_packet, receives, iq_run}
use qxmpp.Client.Requests.Promises.{finished_count, waiting_count, iq_run-accounted}
use qxmpp.Client.Requests.Matching.{id_of, from_of, handle_stanza-answer, handle_stanza-once}

abbrev zero_uint : Text → ℕ
zero_uint s = 0

abbrev ping : Packet
ping = record { promise = 5; content = 60 ∷ []; is_xmpp_stanza = true }

abbrev server : Text
server = codes "example.org"

abbrev reply_from : Text → Element
reply_from from =
    element (codes "iq") (codes "jabber:client")
      ((codes "type", codes "result") ∷ (codes "id", codes "q1") ∷ (codes "from", from) ∷ []) nil

abbrev waiting_state : IqState
waiting_state = record { interface = 0; jid = server }

abbrev waiting_one : OutgoingIqManager
waiting_one = record {
  requests = (codes "q1", waiting_state) ∷ [];
  finished = [];
  promises = 1;
  stream = init;
  sending = [];
}

abbrev two_promises : List IqCall
two_promises =
    sends_packet true ping (codes "q1") server
    ∷ sends_packet true ping (codes "q1") server
    ∷ receives (reply_from server)
    ∷ []

iq_run-accounted_example :
    let m = iq_run zero_uint initial two_promises in
    finished_count 1 m.finished + waiting_count 1 m.requests ≡ (if ltb 1 m.promises then 1 else 0)
iq_run-accounted_example = iq_run-accounted zero_uint two_promises 1

-- The one request waits, and its response comes twice.
once_calls : List IqCall
once_calls = sends_packet true ping (codes "q1") server ∷ []

abbrev reply_again : Element
reply_again = reply_from (codes "example.org")

taken_once : (handle_stanza (reply_from server) (iq_run zero_uint initial once_calls)).1 ≡ true
unfolding iq_run handle_stanza handle_found is_response find attribute find_attribute tag_name
    text_eq once_calls iq_step send_packet start is_id_valid has_id initial on_stream continue_sends
    init internal_send
taken_once = refl

handle_stanza-once_example :
    let m = iq_run zero_uint initial once_calls in
    handle_stanza reply_again (handle_stanza (reply_from server) m).0
    ≡ ((handle_stanza (reply_from server) m).0, false)
handle_stanza-once_example =
    handle_stanza-once zero_uint once_calls (reply_from server) reply_again taken_once refl

taken_one : (handle_stanza (reply_from server) waiting_one).1 ≡ true
unfolding handle_stanza handle_found is_response find attribute find_attribute tag_name text_eq
taken_one = refl

handle_stanza-answer_example :
    let stanza = reply_from server in
    (st : IqState) × (is_response stanza ≡ true)
    × (find (id_of stanza) waiting_one.requests ≡ some st)
    × ((from_of stanza ≡ []) ⊎ (from_of stanza ≡ st.jid))
    × ((handle_stanza stanza waiting_one).0.finished
        ≡ waiting_one.finished ++ (st.interface, result_of stanza) ∷ [])
    × ((k : Text)
        → k ≢ id_of stanza
        → find k (handle_stanza stanza waiting_one).0.requests ≡ find k waiting_one.requests)
handle_stanza-answer_example = handle_stanza-answer (reply_from server) waiting_one taken_one
