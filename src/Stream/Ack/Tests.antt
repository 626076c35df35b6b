-- ===== src/Stream/Ack/Tests.antt =====
-- The theorems about StreamAckManager at concrete inputs.
use qxmpp.Common.{
  ℕ, ◌+◌, ◌-◌, ◌≡◌, refl, true, false, List, [], ◌∷◌, ◌++◌, arith, Text, codes, text_eq, length,
  drop, take,
}
use qxmpp.Xml.{Element, element, nil, tag_name}
use qxmpp.Stream.Ack.{
  Packet, success, failure, disconnected, StreamAckManager, uint_mod, init, insert, acknowledge,
  set_acknowledged, internal_send, enable_stream_management, is_stanza_tag,
  send_acknowledgement_request, renumber, reset_cache, disconnect_all,
}
use qxmpp.Stream.Ack.Window.{acknowledged, set_acknowledged-Window}
use qxmpp.Stream.Ack.Resend.{numbered, contents, requests, enable_stream_management-reset}
use qxmpp.Stream.Ack.History.{
  Call, sends, enables, acknowledges, resets, step, run, reported, pending, issued, IsWindow,
}
use qxmpp.Stream.Ack.Promises.{run-IsWindow, run-reported}
use qxmpp.Stream.Ack.Incoming.{stanzas}
use qxmpp.Stream.Ack.WrapAround.{set_acknowledged_wrapped}

abbrev hello : Packet
hello = record { promise = 10; content = codes "<message/>"; is_xmpp_stanza = true }

abbrev query : Packet
query = record { promise = 11; content = codes "<iq/>"; is_xmpp_stanza = true }

abbrev nonza : Packet
nonza = record { promise = 12; content = codes "<auth/>"; is_xmpp_stanza = false }

-- Two packets wait under the numbers 5 and 6.
abbrev waiting : StreamAckManager
waiting = record {
  enabled = true;
  unacknowledged = (5, hello) ∷ (6, query) ∷ [];
  last_outgoing = 6;
  last_incoming = 3;
  written = [];
  reports = [];
}

abbrev zero_always : Text → ℕ
zero_always _ = 0

set_acknowledged-Window_example : set_acknowledged 5 waiting ≡ record waiting {
  unacknowledged = drop (5 - 4) waiting.unacknowledged;
  reports = waiting.reports ++ acknowledged (take (5 - 4) waiting.unacknowledged);
}
set_acknowledged-Window_example = set_acknowledged-Window 5 4 waiting (omega arith)

enable_stream_management-reset_example : enable_stream_management true waiting ≡ record waiting {
  enabled = true;
  unacknowledged = numbered 0 waiting.unacknowledged;
  last_outgoing = length waiting.unacknowledged;
  last_incoming = 0;
  written = waiting.written ++ (contents waiting.unacknowledged ++ requests waiting.unacknowledged);
}
enable_stream_management-reset_example = enable_stream_management-reset waiting (omega arith)

abbrev calls : List Call
calls =
    sends true nonza
    ∷ enables true
    ∷ sends true hello
    ∷ sends false query
    ∷ acknowledges 1
    ∷ enables true
    ∷ resets
    ∷ []

run-IsWindow_example : IsWindow (run zero_always init calls)
run-IsWindow_example = run-IsWindow zero_always calls (omega arith)

run-reported_example :
    reported 11 (run zero_always init calls).reports
      + pending 11 (run zero_always init calls).unacknowledged
    ≡ issued 11 calls
run-reported_example = run-reported zero_always calls 11 (omega arith)

-- The same history, computed.
reports_of_calls :
    (run zero_always init calls).reports
    ≡ (12, success false) ∷ (10, success true) ∷ (11, failure disconnected) ∷ []
unfolding run step init internal_send send_acknowledgement_request insert set_acknowledged
    acknowledge enable_stream_management renumber reset_cache disconnect_all
reports_of_calls = refl

abbrev received : List Element
received =
    element (codes "message") (codes "jabber:client") [] nil
    ∷ element (codes "a") (codes "urn:xmpp:sm:3") ((codes "h", codes "1") ∷ []) nil
    ∷ element (codes "iq") (codes "jabber:client") [] nil
    ∷ []

stanzas_of_received : stanzas received ≡ 2
unfolding is_stanza_tag tag_name text_eq
stanzas_of_received = refl

abbrev at_the_end : StreamAckManager
at_the_end = record waiting {
  unacknowledged = (uint_mod - 1, hello) ∷ [];
  last_outgoing = uint_mod - 1;
}

set_acknowledged_wrapped_example :
    (set_acknowledged (uint_mod - 1) (internal_send true query at_the_end)).reports
    ≡ at_the_end.reports ++ (11, success true) ∷ (10, success true) ∷ []
set_acknowledged_wrapped_example =
    set_acknowledged_wrapped true hello query at_the_end refl refl refl refl
