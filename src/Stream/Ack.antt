-- ===== src/Stream/Ack.antt =====
-- The class StreamAckManager of base/QXmppStreamManagement.cpp. What the manager writes to the
-- socket and what it reports to the promises of packets is kept in two logs, oldest entry first.
-- Whether the socket takes the data of a packet is an argument of `internal_send`.
pub mod Window
pub mod Send
pub mod Resend
pub mod History
pub mod Promises
pub mod Incoming
pub mod WrapAround
mod Tests
use qxmpp.Common.{
  ℕ, ◌+◌, ◌%◌, ◌^◌, Bool, true, false, ◌&&◌, ◌||◌, List, [], ◌∷◌, ◌++◌, Text, Bytes, codes, text_eq,
  ◌==◌, ltb, leb, if◌then◌else◌,
}
use qxmpp.Xml.{Element, tag_name, attribute, is_element}

pub data SendError : Type 0 where
  socket_write_error disconnected encryption_error : SendError

-- QXmpp::SendResult: `SendSuccess { acknowledged }`, or an error.
pub data SendResult : Type 0 where
  success : Bool → SendResult
  failure : SendError → SendResult

-- QXmppPacket: the promise is shared by all copies of a packet, and is known by a number.
pub record Packet : Type 0 where
  pub promise : ℕ
  pub content : Bytes
  pub is_xmpp_stanza : Bool

-- What goes to the socket: a packet's data, `<a h='…'/>` or `<r/>`.
pub data Output : Type 0 where
  packet_data : Bytes → Output
  sm_ack : ℕ → Output
  sm_request : Output

abbrev pub Unacknowledged : Type 0
Unacknowledged = List (ℕ × Packet)

abbrev pub Reports : Type 0
Reports = List (ℕ × SendResult)

pub record StreamAckManager : Type 0 where
  pub enabled : Bool
  pub unacknowledged : Unacknowledged
  pub last_outgoing : ℕ
  pub last_incoming : ℕ
  pub written : List Output
  pub reports : Reports

unfoldable pub init : StreamAckManager
init = record {
  enabled = false;
  unacknowledged = [];
  last_outgoing = 0;
  last_incoming = 0;
  written = [];
  reports = [];
}

abbrev pub uint_mod : ℕ
uint_mod = 2 ^ 32

-- `++n` on an `unsigned int`.
abbrev pub increment : ℕ → ℕ
increment n = (n + 1) % uint_mod

-- QMap::insert: in the order of the keys, the value under an equal key is replaced.
unfoldable pub insert : ℕ → Packet → Unacknowledged → Unacknowledged
insert k p [] = (k, p) ∷ []
insert k p ((j, q) ∷ m) =
    if ltb k j then (k, p) ∷ (j, q) ∷ m else if k == j then (k, p) ∷ m else (j, q) ∷ insert k p m

abbrev write : Output → StreamAckManager → StreamAckManager
write o s = record s { written = s.written ++ o ∷ [] }

abbrev report : Packet → SendResult → StreamAckManager → StreamAckManager
report p r s = record s { reports = s.reports ++ (p.promise, r) ∷ [] }

unfoldable pub send_acknowledgement : StreamAckManager → StreamAckManager
send_acknowledgement s = if s.enabled then write (sm_ack s.last_incoming) s else s

unfoldable pub send_acknowledgement_request : StreamAckManager → StreamAckManager
send_acknowledgement_request s = if s.enabled then write sm_request s else s

-- The loop of setAcknowledgedSequenceNumber: the packets that it reports, and those that it keeps.
unfoldable pub acknowledge : ℕ → Unacknowledged → Reports × Unacknowledged
acknowledge h [] = ([], [])
acknowledge h ((k, p) ∷ m) =
    let rest = acknowledge h m in
    if leb k h then ((p.promise, success true) ∷ rest.0, rest.1) else ([], (k, p) ∷ m)

unfoldable pub set_acknowledged : ℕ → StreamAckManager → StreamAckManager
set_acknowledged h s = record s {
  unacknowledged = (acknowledge h s.unacknowledged).1;
  reports = s.reports ++ (acknowledge h s.unacknowledged).0;
}

unfoldable pub handle_acknowledgement : ℕ → StreamAckManager → StreamAckManager
handle_acknowledgement h s = if s.enabled then set_acknowledged h s else s

-- The loop that sends the old packets again under new numbers.
unfoldable pub renumber : Unacknowledged → StreamAckManager → StreamAckManager
renumber [] s = s
renumber ((k, p) ∷ old) s = renumber old (record s {
  last_outgoing = increment s.last_outgoing;
  unacknowledged = insert (increment s.last_outgoing) p s.unacknowledged;
  written = s.written ++ packet_data p.content ∷ [];
})

-- The loop that sends them again under their numbers.
unfoldable pub resend : Unacknowledged → StreamAckManager → StreamAckManager
resend [] s = s
resend ((k, p) ∷ old) s = resend old (write (packet_data p.content) s)

abbrev pub has_packets : Unacknowledged → Bool
has_packets [] = false
has_packets (_ ∷ _) = true

unfoldable pub enable_stream_management : Bool → StreamAckManager → StreamAckManager
enable_stream_management true s =
    let fresh = record s { enabled = true; last_outgoing = 0; last_incoming = 0 } in
    if has_packets s.unacknowledged
    then send_acknowledgement_request
        (renumber s.unacknowledged (record fresh { unacknowledged = [] }))
    else fresh
enable_stream_management false s =
    let started = record s { enabled = true } in
    if has_packets s.unacknowledged
    then send_acknowledgement_request (resend s.unacknowledged started)
    else started

-- `accepts` is what `socket.sendData` returns for the packet.
unfoldable pub internal_send : Bool → Packet → StreamAckManager → StreamAckManager
internal_send accepts p s =
    let sent = write (packet_data p.content) s in
    if s.enabled && p.is_xmpp_stanza
    then send_acknowledgement_request (record sent {
      last_outgoing = increment s.last_outgoing;
      unacknowledged = insert (increment s.last_outgoing) p s.unacknowledged;
    })
    else report p (if accepts then success false else failure socket_write_error) sent

unfoldable pub on_session_closed : StreamAckManager → StreamAckManager
on_session_closed s = record s { enabled = false }

-- The loop of resetCache.
unfoldable pub disconnect_all : Unacknowledged → Reports
disconnect_all [] = []
disconnect_all ((k, p) ∷ m) = (p.promise, failure disconnected) ∷ disconnect_all m

unfoldable pub reset_cache : StreamAckManager → StreamAckManager
reset_cache s = record s {
  unacknowledged = [];
  reports = s.reports ++ disconnect_all s.unacknowledged;
}

abbrev pub ns_stream_management : Text
ns_stream_management = codes "urn:xmpp:sm:3"

-- The tags of stanzas, which the incoming counter counts.
unfoldable pub is_stanza_tag : Text → Bool
is_stanza_tag tag =
    text_eq tag (codes "message") || text_eq tag (codes "presence") || text_eq tag (codes "iq")

-- `to_uint` is QString::toUInt, which gives 0 where the text is no such number.
unfoldable pub handle_stanza : (Text → ℕ) → Element → StreamAckManager → StreamAckManager × Bool
handle_stanza to_uint el s =
    if is_element (codes "a") ns_stream_management el
    then (handle_acknowledgement (to_uint (attribute el (codes "h"))) s, true)
    else if is_element (codes "r") ns_stream_management el
    then (send_acknowledgement s, true)
    else if is_stanza_tag (tag_name el)
    then (record s { last_incoming = increment s.last_incoming }, false)
    else (s, false)
